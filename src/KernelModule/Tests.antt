-- ===== src/KernelModule/Tests.antt =====
-- iface/module_linux.go with a kernel that has WireGuard and one dependency of it as modules.
use punch.Common.{
  ◌≡◌, inl, inr, refl, sym, subst, Bool, true, false, ◌||◌, List, [], ◌∷◌, ◌++◌, ◌==◌, nat_eq,
  arith, if◌then◌else◌, Bool-cases,
}
use punch.Common.Panics.{ok, panic}
use punch.Text.{Text, text, text_eq, same_text_iff}
use punch.KernelModule.{
  Kernel, Loaded, lines_of, loads, fails, Status, live, inuse, path_to_name, base, clean_name,
  module_status, try_to_load_module, at_least_loading,
}
use punch.KernelModule.Names.{before_dot, path_to_name-before_dot}
use punch.KernelModule.Steps.{IsShown, IsKernel}
use punch.KernelModule.Loading.{Tried, try_to_load_module-Tried}

abbrev wireguard_path : Text
wireguard_path = text "kernel/net/wireguard.ko.xz"

abbrev tunnel_path : Text
tunnel_path = text "kernel/net/udp-tunnel.ko"

abbrev both_shown : List Text
both_shown =
    text "udp_tunnel 32768 1 wireguard, Live 0x0" ∷ text "wireguard 106496 0 - Live 0x0" ∷ []

-- One file is enough: the kernel lists both modules once either is loaded.
abbrev shown_after : Loaded → List Text
shown_after [] = []
shown_after (_ ∷ _) = both_shown

abbrev is_module : Text → Bool
is_module path = path == wireguard_path || path == tunnel_path

abbrev kernel : Kernel
kernel = record {
  builtin = lines_of [] false;
  proc_modules = λ h. lines_of (shown_after h) false;
  dep = lines_of (text "kernel/net/wireguard.ko.xz: kernel/net/udp-tunnel.ko" ∷ []) false;
  files = tunnel_path ∷ wireguard_path ∷ [];
  join = λ path. path;
  opens = λ path. true;
  finit = λ h path. if is_module path then loads else fails;
  reads = λ path. false;
  init = λ h path. false;
}

wireguard_name : path_to_name wireguard_path ≡ text "wireguard"
unfolding path_to_name
wireguard_name = refl

tunnel_name : path_to_name tunnel_path ≡ text "udp_tunnel"
unfolding path_to_name
tunnel_name = refl

tunnel_loads_first : try_to_load_module kernel (text "wireguard") [] ≡ (tunnel_path ∷ [], ok true)
unfolding try_to_load_module
tunnel_loads_first = refl

blank_line_panics : module_status (text "tun") (lines_of ([] ∷ []) false) ≡ panic
unfolding module_status
blank_line_panics = refl

path_to_name-before_dot_example :
    path_to_name wireguard_path ≡ clean_name (before_dot (base wireguard_path))
path_to_name-before_dot_example = path_to_name-before_dot wireguard_path

after-shown : (h : Loaded) (path : Text) → shown_after (h ++ path ∷ []) ≡ both_shown
after-shown [] path = refl
after-shown (_ ∷ _) path = refl

module-IsShown :
    (h : Loaded) (path name : Text) (state : Status)
    → module_status name (lines_of both_shown false) ≡ ok state
    → at_least_loading state ≡ true
    → IsShown kernel (h ++ path ∷ []) name
module-IsShown h path name state e u = record {
  state = state;
  listed =
      subst (λ (ls : List Text). module_status name (lines_of ls false) ≡ ok state)
        (sym (after-shown h path)) e;
  up = u;
}

finit-shows :
    (h : Loaded) (path : Text)
    → kernel.finit h path ≡ loads
    → IsShown kernel (h ++ path ∷ []) (path_to_name path)
unfolding module_status path_to_name
finit-shows h path e = elim (Bool-cases (path == wireguard_path)) [
  | inl w ↦
      subst (λ (p : Text). IsShown kernel (h ++ p ∷ []) (path_to_name p))
        (sym ((same_text_iff path wireguard_path).0 w))
        (module-IsShown h wireguard_path (text "wireguard") live refl refl)
  | inr w ↦
      subst (λ (p : Text). IsShown kernel (h ++ p ∷ []) (path_to_name p))
        (sym ((same_text_iff path tunnel_path).0 (ground (arith, e, w))))
        (module-IsShown h tunnel_path (text "udp_tunnel") inuse refl refl)
]

kernel-stays :
    (h : Loaded) (path name : Text) → IsShown kernel h name → IsShown kernel (h ++ path ∷ []) name
unfolding module_status
kernel-stays [] path name s = absurd (ground (arith, s.listed, s.up))
kernel-stays (x ∷ h) path name s = record { state = s.state; listed = s.listed; up = s.up }

kernel-IsKernel : IsKernel kernel
kernel-IsKernel = record {
  finit_shows = finit-shows;
  init_shows = λ h path e. cc;
  stays = kernel-stays;
  joins = λ path. refl;
}

try_to_load_module-Tried_example :
    Tried kernel kernel-IsKernel
      (text "wireguard")
      []
      (try_to_load_module kernel (text "wireguard") [])
try_to_load_module-Tried_example =
    try_to_load_module-Tried kernel kernel-IsKernel (text "wireguard") []
