-- ===== src/Config.antt =====
-- client/internal/config.go and util/common.go: the client's configuration, its defaults, and
-- the file that it is kept in.
pub mod Apply
pub mod Files
mod Tests
use punch.Common.{
  ℕ, zero, suc, String, Bool, true, false, not, ◌&&◌, ◌||◌, Option, none, some, List, [], ◌∷◌, ◌++◌,
  ◌==◌, nat_eq, string_eq, length, if◌then◌else◌, Result, ok, err, ◌>>=◌,
}

-- The fields that `apply` reads or writes.
pub record Config : Type 0 where
  pub private_key : String
  pub wg_iface : String
  pub wg_port : ℕ
  pub iface_black_list : List String

pub record ConfigInput : Type 0 where
  pub config_path : String
  pub interface_name : Option String
  pub wireguard_port : Option ℕ
  pub extra_iface_black_list : List String

abbrev pub default_wg_port : ℕ
default_wg_port = 51822

abbrev pub wg_interface_default : String
wg_interface_default = "wt0"

abbrev pub default_interface_blacklist : List String
default_interface_blacklist =
    wg_interface_default ∷ "wt" ∷ "utun" ∷ "tun0" ∷ "zt" ∷ "ZeroTier" ∷ "wg" ∷ "ts" ∷ "Tailscale"
    ∷ "tailscale" ∷ "docker" ∷ "veth" ∷ "br-" ∷ "lo" ∷ []

-- The keys of `mapY`.
unfoldable pub contains : List String → String → Bool
contains [] x = false
contains (y ∷ ys) x = let later = contains ys x in if y == x then true else later

unfoldable pub slice_diff : List String → List String → List String
slice_diff [] ys = []
slice_diff (x ∷ xs) ys = let rest = slice_diff xs ys in if contains ys x then rest else x ∷ rest

-- One step of `apply`: the configuration, and whether it was `updated`.
abbrev pub Step : Type 0
Step = Config → Config × Bool

-- `generated` is the key that `generateKey` would give.
pub set_key : String → Step
set_key generated c =
    if c.private_key == "" then (record c { private_key = generated }, true) else (c, false)

pub default_port : Step
default_port c =
    if c.wg_port == 0 then (record c { wg_port = default_wg_port }, true) else (c, false)

pub set_port : Option ℕ → Step
unfolding default_port
set_port none c = default_port c
set_port (some port) c =
    if port == c.wg_port then default_port c else (record c { wg_port = port }, true)

pub default_iface : Step
default_iface c =
    if c.wg_iface == "" then (record c { wg_iface = wg_interface_default }, true) else (c, false)

pub set_iface : Option String → Step
unfolding default_iface
set_iface none c = default_iface c
set_iface (some name) c =
    if name == c.wg_iface then default_iface c else (record c { wg_iface = name }, true)

pub fill_black_list : Step
fill_black_list c =
    if length c.iface_black_list == 0
    then (record c { iface_black_list = default_interface_blacklist }, true)
    else (c, false)

-- The loop over the difference, which sets `updated` once it runs at all.
pub extend_black_list : List String → Step
extend_black_list extra c =
    let new = slice_diff extra c.iface_black_list in
    if length new == 0
    then (c, false)
    else (record c { iface_black_list = c.iface_black_list ++ new }, true)

abbrev pub then_step : Step → Config × Bool → Config × Bool
then_step f (c, updated) = let (c', more) = f c in (c', updated || more)

unfoldable pub apply : String → ConfigInput → Config → Config × Bool
unfolding set_key set_port set_iface fill_black_list extend_black_list
apply generated input c = then_step (extend_black_list input.extra_iface_black_list) (
    then_step fill_black_list (
      then_step (set_iface input.interface_name)
        (then_step (set_port input.wireguard_port) (set_key generated c))))

pub data Error : Type 0 where
  read_json write_json not_found : Error

-- What is at a path: nothing, a file that cannot be read or decoded, or a configuration.
pub data File : Type 0 where
  missing unreadable : File
  holds : Config → File

-- `&Config{}`
abbrev pub empty_config : Config
empty_config = record { private_key = ""; wg_iface = ""; wg_port = 0; iface_black_list = [] }

-- The file at the path, and which of the writes to come will work, in their order. WriteJson
-- writes a temporary file and renames it, so a write that fails leaves the file as it was.
pub record Disk : Type 0 where
  pub file : File
  pub writes : ℕ → Bool

pub file_exists : File → Bool
file_exists missing = false
file_exists unreadable = true
file_exists (holds _) = true

pub read_config_file : File → Result Error Config
read_config_file missing = err read_json
read_config_file unreadable = err read_json
read_config_file (holds c) = ok c

unfoldable pub write_out_config : Config → Disk → Disk × Result Error (Unit {0})
write_out_config c d =
    let later : ℕ → Bool = λ n. d.writes (suc n) in
    if d.writes 0
    then (record { file = holds c; writes = later }, ok tt)
    else (record d { writes = later }, err write_json)

-- The configuration, if it was written.
pub write_then : Config → Disk → Disk × Result Error Config
unfolding write_out_config
write_then c d = let (d', r) = write_out_config c d in (d', r >>= (λ _. ok c))

pub save_if : Bool → Config → Disk → Disk × Result Error Config
unfolding write_then
save_if updated c d = if updated then write_then c d else (d, ok c)

pub applied : (Config → Config × Bool) → Result Error Config → Disk → Disk × Result Error Config
unfolding save_if
applied f (err e) d = (d, err e)
applied f (ok c) d = let (c', updated) = f c in save_if updated c' d

-- `update`
unfoldable pub update : String → ConfigInput → Disk → Disk × Result Error Config
unfolding applied read_config_file
update generated input d = applied (apply generated input) (read_config_file d.file) d

-- `createNewConfig` where there is no file, which both callers have checked.
unfoldable pub create_new_config : String → ConfigInput → Disk → Disk × Result Error Config
unfolding file_exists read_config_file write_then
create_new_config generated input d =
    if file_exists d.file
    then (d, read_config_file d.file >>= (λ c. ok (apply generated input c).0))
    else write_then (apply generated input empty_config).0 d

abbrev pub no_input : ConfigInput
no_input = record {
  config_path = "";
  interface_name = none;
  wireguard_port = none;
  extra_iface_black_list = [];
}

-- The new configuration, written once more by the caller. Where that fails the caller returns the
-- error, with the file of the first write on the disk.
pub created : Disk × Result Error Config → Disk × Result Error Config
unfolding write_then
created (d, err e) = (d, err e)
created (d, ok c) = write_then c d

unfoldable pub read_config : String → Disk → Disk × Result Error Config
unfolding update create_new_config created file_exists
read_config generated d =
    if file_exists d.file
    then applied (apply generated no_input) (read_config_file d.file) d
    else created (create_new_config generated no_input d)

unfoldable pub update_config : String → ConfigInput → Disk → Disk × Result Error Config
unfolding update file_exists
update_config generated input d =
    if file_exists d.file then update generated input d else (d, err not_found)

unfoldable pub update_or_create_config : String → ConfigInput → Disk → Disk × Result Error Config
unfolding update create_new_config created file_exists
update_or_create_config generated input d =
    if file_exists d.file
    then update generated input d
    else created (create_new_config generated input d)
