-- ===== src/Ebpf/Features.antt =====
-- client/internal/ebpf/ebpf: the flag byte as a set of two features, and when the program is
-- attached.
use punch.Common.{
  ℕ, ◌%◌, ◌≡◌, refl, ap, ◌∙◌, Bool, true, false, ◌||◌, Option, none, some, List, [], ◌∷◌, arith,
  if◌then◌else◌,
}
use punch.Ebpf.{
  Kernel, GeneralManager, Failure, initial, load_wg_proxy, load_dns_fwd, free_wg_proxy,
  free_dns_fwd, put, nb_features, close_link,
}

-- The features of a flag byte.
pub record FeatureSet : Type 0 where
  pub wg : Bool
  pub dns : Bool

abbrev pub flags_of : FeatureSet → ℕ
flags_of s = if s.wg then (if s.dns then 3 else 1) else (if s.dns then 2 else 0)

pub data Call : Type 0 where
  load_wg : ℕ → ℕ → Call
  load_dns : Option (ℕ × ℕ × ℕ × ℕ) → ℕ → Call
  free_wg free_dns : Call

unfoldable pub call : Kernel → Call → GeneralManager → GeneralManager × Option Failure
unfolding load_wg_proxy load_dns_fwd free_wg_proxy free_dns_fwd
call k (load_wg proxy wg) tf = load_wg_proxy k proxy wg tf
call k (load_dns ip port) tf = load_dns_fwd k ip port tf
call k free_wg tf = free_wg_proxy k tf
call k free_dns tf = free_dns_fwd k tf

-- The features that a call asks for.
abbrev pub want : Call → FeatureSet → FeatureSet
want (load_wg _ _) s = record s { wg = true }
want (load_dns _ _) s = record s { dns = true }
want free_wg s = record s { wg = false }
want free_dns s = record s { dns = false }

-- The manager stands for the set `s`: its flags are those of `s`, and it is attached if any is on.
pub record Holds (s : FeatureSet) (tf : GeneralManager) : Type 0 where
  pub flags : tf.feature_flags ≡ flags_of s
  pub attached : tf.link ≡ false → flags_of s ≡ 0

-- What the kernel reads: the byte in the map, if a program is attached.
abbrev pub seen : GeneralManager → Option ℕ
seen tf = if tf.link then tf.features else none

-- What the kernel should read for a set of features: nothing is attached for the empty set.
abbrev pub should_see : FeatureSet → Option ℕ
should_see s = if s.wg || s.dns then some (flags_of s) else none

-- The set after a call, by what the call returned: a load that fails before it sets its flag
-- leaves the set alone, and all others take effect, also those that then fail.
abbrev pub settle : Call → Option Failure → FeatureSet → FeatureSet
settle c none s = want c s
settle c (some (put nb_features)) s = want c s
settle c (some close_link) s = want c s
settle c (some _) s = s

-- The byte that the kernel reads after a call, of what it read before: a call without an error
-- leaves that of the set wanted, one that fails to close the program leaves no program, and any
-- other failure leaves the byte that was there.
abbrev pub shown_after : Call → Option Failure → FeatureSet → Option ℕ → Option ℕ
shown_after c none s shown = should_see (want c s)
shown_after c (some close_link) s shown = none
shown_after c (some _) s shown = shown

module _ (k : Kernel) (tf : GeneralManager) where
  call_at :
      (c : Call) (wg dns : Bool)
      → let s : FeatureSet = record { wg = wg; dns = dns } in
        Holds s tf → Holds (settle c (call k c tf).1 s) (call k c tf).0
  unfolding call
  call_at (load_wg p w) true true h = ground arith
  call_at (load_wg p w) true false h = ground arith
  call_at (load_wg p w) false true h = ground arith
  call_at (load_wg p w) false false h = ground arith
  call_at (load_dns none port) true true h = ground arith
  call_at _ true true h = ground arith
  call_at _ true false h = ground arith
  call_at _ false true h = ground arith
  call_at _ false false h = ground arith

  shown_at :
      (c : Call) (wg dns : Bool)
      → let s : FeatureSet = record { wg = wg; dns = dns } in
        Holds s tf → seen (call k c tf).0 ≡ shown_after c (call k c tf).1 s (seen tf)
  unfolding call
  shown_at (load_wg p w) true true h = ground arith
  shown_at (load_wg p w) true false h = ground arith
  shown_at (load_wg p w) false true h = ground arith
  shown_at (load_wg p w) false false h = ground arith
  shown_at (load_dns none port) true true h = ground arith
  shown_at _ true true h = ground arith
  shown_at _ true false h = ground arith
  shown_at _ false true h = ground arith
  shown_at _ false false h = ground arith

module _ (k : Kernel) (tf : GeneralManager) where
  free_wg_at :
      (wg dns : Bool)
      → let s : FeatureSet = record { wg = wg; dns = dns } in
        Holds s tf → Holds (want free_wg s) (free_wg_proxy k tf).0
  unfolding free_wg_proxy
  free_wg_at true true h = ground arith
  free_wg_at true false h = ground arith
  free_wg_at false true h = ground arith
  free_wg_at false false h = ground arith

  -- `FreeWGProxy` turns the feature off, also where it returns an error.
  pub free_wg-Holds : (s : FeatureSet) → Holds s tf → Holds (want free_wg s) (free_wg_proxy k tf).0
  free_wg-Holds s h = free_wg_at s.wg s.dns h

  -- Where `LoadWgProxy` succeeds, the program is attached and has both ports.
  pub load_wg_proxy_ports :
      (proxy wg : ℕ)
      → (load_wg_proxy k proxy wg tf).1 ≡ none
      → let tf' = (load_wg_proxy k proxy wg tf).0 in
        (tf'.link ≡ true)
        × (tf'.proxy_port ≡ some (proxy % 65536))
        × (tf'.wg_port ≡ some (wg % 65536))
  unfolding load_wg_proxy
  load_wg_proxy_ports proxy wg h = ground arith

-- Whatever fails, a call takes the manager from the set that its flags stand for to the set
-- that `settle` gives for what it returned; a call without an error leaves the kernel with the
-- byte of the set wanted, and with no program attached exactly where that set is empty; and a
-- failure leaves the byte that was there, or no program where closing it failed.
pub call-Holds :
    (k : Kernel) (tf : GeneralManager) (c : Call) (s : FeatureSet)
    → Holds s tf
    → Holds (settle c (call k c tf).1 s) (call k c tf).0
      × (seen (call k c tf).0 ≡ shown_after c (call k c tf).1 s (seen tf))
call-Holds k tf c s h = (call_at k tf c s.wg s.dns h, shown_at k tf c s.wg s.dns h)

pub load_wg-Holds :
    (k : Kernel) (tf : GeneralManager) (proxy wg : ℕ) (s : FeatureSet)
    → Holds s tf
    → (load_wg_proxy k proxy wg tf).1 ≡ none
    → Holds (record s { wg = true }) (load_wg_proxy k proxy wg tf).0
unfolding call
load_wg-Holds k tf proxy wg s h e = rw e at ((call-Holds k tf (load_wg proxy wg) s h).0)

-- A history of calls, each with the kernel's answers to it.
unfoldable pub run : List (Kernel × Call) → GeneralManager → GeneralManager
run [] tf = tf
run ((k, c) ∷ rest) tf = run rest (call k c tf).0

unfoldable pub settle_all : List (Kernel × Call) → GeneralManager → FeatureSet → FeatureSet
settle_all [] tf s = s
settle_all ((k, c) ∷ rest) tf s = settle_all rest (call k c tf).0 (settle c (call k c tf).1 s)

abbrev pub no_features : FeatureSet
no_features = record { wg = false; dns = false }

pub initial-Holds : Holds no_features initial
initial-Holds = ground arith

-- The byte that the kernel reads after a history, by what the calls returned.
unfoldable pub shown_all : List (Kernel × Call) → GeneralManager → FeatureSet → Option ℕ → Option ℕ
shown_all [] tf s shown = shown
shown_all ((k, c) ∷ rest) tf s shown =
    let result = (call k c tf).1 in
    shown_all rest (call k c tf).0 (settle c result s) (shown_after c result s shown)

run_from-Holds :
    (h : List (Kernel × Call)) (tf : GeneralManager) (s : FeatureSet) (shown : Option ℕ)
    → Holds s tf
    → seen tf ≡ shown
    → Holds (settle_all h tf s) (run h tf) × (seen (run h tf) ≡ shown_all h tf s shown)
unfolding run settle_all shown_all
run_from-Holds [] tf s shown holds e = (holds, e)
run_from-Holds ((k, c) ∷ rest) tf s shown holds e =
    let (holds', e') = call-Holds k tf c s holds in
    run_from-Holds rest (call k c tf).0 (settle c (call k c tf).1 s)
      (shown_after c (call k c tf).1 s shown) holds' (e' ∙ ap (shown_after c (call k c tf).1 s) e)

pub run-Holds :
    (h : List (Kernel × Call))
    → Holds (settle_all h initial no_features) (run h initial)
      × (seen (run h initial) ≡ shown_all h initial no_features none)
run-Holds h = run_from-Holds h initial no_features none initial-Holds refl
