-- ===== src/Common/Map.antt =====
-- Go's maps, as association lists. A write to a key that is there replaces its value, so a
-- map that is built by `insert` has one entry for each key, and `length` is Go's `len`.
use Prim.Native.Nat.{ℕ, zero, suc, ◌≤◌, ◌<◌}
use mathlib.Core.Path.{◌≡◌, refl}
use mathlib.Core.Logic.{◌≢◌}
use mathlib.Core.Option.{Option, none, some}
use mathlib.Core.List.{List, [], ◌∷◌}
use native.Mathlib.Omega.{arith}
use punch.Common.Tests.{if◌then◌else◌, is_some}
use punch.Common.Lists.{length}
use punch.Common.Keys.{Eq, ◌==◌, nat_eq}

abbrev pub Map {ℓ κ} : Type ℓ → Type κ → Type (ℓ ⊔ κ)
Map K V = List (K × V)

module _ {ℓ κ} {K : Type ℓ} {V : Type κ} ⦃e : Eq K⦄ where
  unfoldable pub lookup : K → Map K V → Option V
  lookup key [] = none
  lookup key ((at, value) ∷ rest) = if at == key then some value else lookup key rest

  unfoldable pub insert : K → V → Map K V → Map K V
  insert key new [] = (key, new) ∷ []
  insert key new ((at, value) ∷ rest) =
      let later = insert key new rest in if at == key then (at, new) ∷ rest else (at, value) ∷ later

  unfoldable pub erase : K → Map K V → Map K V
  erase key [] = []
  erase key ((at, value) ∷ rest) =
      let later = erase key rest in if at == key then later else (at, value) ∷ later

  pub lookup-insert :
      (key at : K) (new : V) (entries : Map K V)
      → lookup at (insert key new entries) ≡ (if key == at then some new else lookup at entries)
  unfolding lookup insert
  lookup-insert key at new [] = refl
  lookup-insert key at new ((x, value) ∷ rest) =
      ground
        (arith, lookup-insert key at new rest, e.same_iff x key, e.same_iff key at, e.same_iff x at)

  pub lookup-erase :
      (key at : K) (entries : Map K V)
      → lookup at (erase key entries) ≡ (if key == at then none else lookup at entries)
  unfolding lookup erase
  lookup-erase key at [] = ground arith
  lookup-erase key at ((x, value) ∷ rest) =
      ground (arith, lookup-erase key at rest, e.same_iff x key, e.same_iff x at, e.same_iff key at)

  pub length-insert :
      (k : K) (v : V) (m : Map K V)
      → length (insert k v m) ≡ (if is_some (lookup k m) then length m else suc (length m))
  unfolding lookup insert
  length-insert k v [] = refl
  length-insert k v ((i, w) ∷ m) = ground (arith, length-insert k v m)

  pub length-erase-le : (k : K) (m : Map K V) → length (erase k m) ≤ length m
  unfolding erase
  length-erase-le k [] = omega arith
  length-erase-le k ((i, v) ∷ m) = ground (arith, length-erase-le k m)

  pub length-erase-lt : (k : K) (m : Map K V) → lookup k m ≢ none → length (erase k m) < length m
  unfolding lookup erase
  length-erase-lt k [] h = absurd (h refl)
  length-erase-lt k ((i, v) ∷ m) h = ground (arith, length-erase-le k m, length-erase-lt k m)

-- A map that has every key from 1 to n has n entries at least.
pub le-length_of_keys {κ} :
    {V : Type κ} (n : ℕ) (m : Map ℕ V)
    → ((q : ℕ) → 0 < q → q ≤ n → lookup q m ≢ none)
    → n ≤ length m
le-length_of_keys zero m h = omega arith
le-length_of_keys (suc n) m h = omega (
  arith,
  length-erase-lt (suc n) m (h (suc n) (omega arith) (omega arith)),
  le-length_of_keys n (erase (suc n) m)
      λ q pos le miss. h q pos (omega arith) (ground (arith, lookup-erase (suc n) q m)),
)

pub ruleset map_laws = (lookup-insert, lookup-erase)
