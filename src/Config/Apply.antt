-- ===== src/Config/Apply.antt =====
-- client/internal/config.go, `apply`: what it sets, and that it then has nothing left to do.
use punch.Common.{
  ℕ, String, ◌≡◌, refl, sym, ◌∙◌, subst, Bool, true, false, ◌||◌, Option, none, some, List, [], ◌∷◌,
  ◌++◌, ◌==◌, nat_eq, string_eq, eq_refl, length, length-append, arith, Bool-cases, inl, inr,
}
use punch.Config.{
  Config, ConfigInput, Step, contains, slice_diff, set_key, set_port, default_port, set_iface,
  default_iface, fill_black_list, extend_black_list, then_step, apply,
}

-- What an optional input asks for, in terms of what the configuration holds.
abbrev pub Kept : {A : Type 0} → Option A → A → Type 0
Kept none held = Unit {0}
Kept (some wanted) held = wanted ≡ held

-- Nothing is left to do for the input.
pub record IsSettled (input : ConfigInput) (c : Config) : Type 0 where
  pub has_key : (c.private_key == "") ≡ false
  pub has_port : (c.wg_port == 0) ≡ false
  pub has_iface : (c.wg_iface == "") ≡ false
  pub port_kept : Kept input.wireguard_port c.wg_port
  pub iface_kept : Kept input.interface_name c.wg_iface
  pub has_list : (length c.iface_black_list == 0) ≡ false
  pub list_kept : (length (slice_diff input.extra_iface_black_list c.iface_black_list) == 0) ≡ true

-- An input that does not ask for the port 0 or for an interface with an empty name.
pub record IsUsable (generated : String) (input : ConfigInput) : Type 0 where
  pub key_usable : (generated == "") ≡ false
  pub port_usable : (port : ℕ) → input.wireguard_port ≡ some port → (port == 0) ≡ false
  pub name_usable : (name : String) → input.interface_name ≡ some name → (name == "") ≡ false

contains-append :
    (xs ys : List String) (x : String) → contains (xs ++ ys) x ≡ (contains xs x || contains ys x)
unfolding contains
contains-append [] ys x = refl
contains-append (y ∷ xs) ys x = ground (arith, contains-append xs ys x)

Covers : List String → List String → Type 0
Covers zs ys = (x : String) → contains ys x ≡ true → contains zs x ≡ true

slice_diff-covered :
    (xs ys zs : List String)
    → Covers zs ys
    → Covers zs (slice_diff xs ys)
    → length (slice_diff xs zs) ≡ 0
unfolding slice_diff contains Covers
slice_diff-covered [] ys zs old new = refl
slice_diff-covered (x ∷ xs) ys zs old new = elim (Bool-cases (contains ys x)) [
  | inl has ↦
      ground
        (arith, old x has, slice_diff-covered xs ys zs old (λ y h. new y (rw (has, slice_diff) h)))
  | inr has_not ↦
      let first : contains zs x ≡ true = new x (rw (has_not, slice_diff, eq_refl x) refl) in
      let rest = λ (y : String) (h : contains (slice_diff xs ys) y ≡ true).
        new y (rw (has_not, slice_diff) (ground (arith, h))) in
      ground (arith, first, slice_diff-covered xs ys zs old rest)
]

set_port-Kept :
    (port : Option ℕ) (c : Config)
    → ((n : ℕ) → port ≡ some n → (n == 0) ≡ false)
    → ((set_port port c).0.wg_port == 0 ≡ false) × Kept port (set_port port c).0.wg_port
unfolding set_port default_port
set_port-Kept none c usable = (ground arith, tt)
set_port-Kept (some n) c usable = (ground (arith, usable n refl), ground (arith, usable n refl))

set_iface-Kept :
    (name : Option String) (c : Config)
    → ((n : String) → name ≡ some n → (n == "") ≡ false)
    → ((set_iface name c).0.wg_iface == "" ≡ false) × Kept name (set_iface name c).0.wg_iface
unfolding set_iface default_iface
set_iface-Kept none c usable = elim (Bool-cases (c.wg_iface == "")) [
  | inl empty ↦ rw (empty, set_iface) (refl, tt)
  | inr named ↦ rw (named, set_iface) (named, tt)
]
set_iface-Kept (some n) c usable = elim (Bool-cases (n == c.wg_iface)) [
  | inl same ↦
      let e = (string_eq.same_iff n c.wg_iface).0 same in
      let named : (c.wg_iface == "") ≡ false =
        subst (λ (x : String). (x == "") ≡ false) e (usable n refl) in
      rw (same, set_iface, named) (named, e)
  | inr differ ↦ rw (differ, set_iface) (usable n refl, refl)
]

fill_black_list-has : (c : Config) → (length (fill_black_list c).0.iface_black_list == 0) ≡ false
unfolding fill_black_list
fill_black_list-has c = ground arith

set_key-has :
    (generated : String) (c : Config)
    → (generated == "") ≡ false
    → ((set_key generated c).0.private_key == "") ≡ false
unfolding set_key
set_key-has generated c usable = elim (Bool-cases (c.private_key == "")) [
  | inl empty ↦ rw (empty, set_key) usable
  | inr has ↦ rw (has, set_key) has
]

extend_black_list-Kept :
    (extra : List String) (c : Config)
    → (length c.iface_black_list == 0) ≡ false
    → let after = (extend_black_list extra c).0.iface_black_list in
      ((length after == 0) ≡ false) × ((length (slice_diff extra after) == 0) ≡ true)
unfolding extend_black_list Covers
extend_black_list-Kept extra c has =
    let new = slice_diff extra c.iface_black_list in
    elim (Bool-cases (length new == 0)) [
      | inl nothing ↦ rw (nothing, extend_black_list) (has, nothing)
      | inr some_new ↦
          rw (some_new, extend_black_list)
            (
              ground (arith, length-append c.iface_black_list new, has),
              ground (
                arith,
                slice_diff-covered extra c.iface_black_list (c.iface_black_list ++ new)
                    (λ x h.
                      unfold Covers in ground (arith, contains-append c.iface_black_list new x, h))
                    (λ x h. ground (arith, contains-append c.iface_black_list new x, h)),
              ),
            )
    ]

-- Each step leaves the fields of the steps before it alone.
set_port-others : (port : Option ℕ) (c : Config) → (set_port port c).0.private_key ≡ c.private_key
unfolding set_port default_port
set_port-others none c = ground arith
set_port-others (some n) c = ground arith

set_iface-others :
    (name : Option String) (c : Config)
    → ((set_iface name c).0.private_key ≡ c.private_key)
      × ((set_iface name c).0.wg_port ≡ c.wg_port)
unfolding set_iface default_iface
set_iface-others none c = (ground arith, ground arith)
set_iface-others (some n) c = (ground arith, ground arith)

SameNames : Config → Config → Type 0
SameNames c' c =
    (c'.private_key ≡ c.private_key) × (c'.wg_port ≡ c.wg_port) × (c'.wg_iface ≡ c.wg_iface)

fill_black_list-SameNames : (c : Config) → SameNames (fill_black_list c).0 c
unfolding fill_black_list SameNames
fill_black_list-SameNames c = (ground arith, ground arith, ground arith)

extend_black_list-SameNames :
    (extra : List String) (c : Config) → SameNames (extend_black_list extra c).0 c
unfolding extend_black_list SameNames
extend_black_list-SameNames extra c = (ground arith, ground arith, ground arith)

-- After `apply` with a usable input every field is filled in, the input is in effect, and
-- nothing of the extra black list is missing.
pub apply-IsSettled :
    (generated : String) (input : ConfigInput) (c : Config)
    → IsUsable generated input
    → IsSettled input (apply generated input c).0
unfolding apply SameNames
apply-IsSettled generated input c u =
    let c1 = (set_key generated c).0 in
    let c2 = (set_port input.wireguard_port c1).0 in
    let c3 = (set_iface input.interface_name c2).0 in
    let c4 = (fill_black_list c3).0 in
    let (key5, port5, iface5) = extend_black_list-SameNames input.extra_iface_black_list c4 in
    let (key4, port4, iface4) = fill_black_list-SameNames c3 in
    let (key3, port3) = set_iface-others input.interface_name c2 in
    let key = key5 ∙ key4 ∙ key3 ∙ set_port-others input.wireguard_port c1 in
    let port = port5 ∙ port4 ∙ port3 in
    let iface = iface5 ∙ iface4 in
    let (has_port, port_kept) = set_port-Kept input.wireguard_port c1 u.port_usable in
    let (has_iface, iface_kept) = set_iface-Kept input.interface_name c2 u.name_usable in
    let (has_list, list_kept) =
      extend_black_list-Kept input.extra_iface_black_list c4 (fill_black_list-has c3) in
    record {
      has_key =
          subst (λ (x : String). (x == "") ≡ false) (sym key)
            (set_key-has generated c u.key_usable);
      has_port = subst (λ (x : ℕ). (x == 0) ≡ false) (sym port) has_port;
      has_iface = subst (λ (x : String). (x == "") ≡ false) (sym iface) has_iface;
      port_kept = subst (λ (x : ℕ). Kept input.wireguard_port x) (sym port) port_kept;
      iface_kept = subst (λ (x : String). Kept input.interface_name x) (sym iface) iface_kept;
      has_list = has_list;
      list_kept = list_kept;
    }

set_port-noop :
    (port : Option ℕ) (c : Config)
    → Kept port c.wg_port
    → (c.wg_port == 0) ≡ false
    → set_port port c ≡ (c, false)
unfolding set_port default_port
set_port-noop none c k has = rw (set_port, has) refl
set_port-noop (some n) c k has = rw (k, eq_refl c.wg_port, has) refl

set_iface-noop :
    (name : Option String) (c : Config)
    → Kept name c.wg_iface
    → (c.wg_iface == "") ≡ false
    → set_iface name c ≡ (c, false)
unfolding set_iface default_iface
set_iface-noop none c k has = rw has refl
set_iface-noop (some n) c k has = rw (k, eq_refl c.wg_iface, has) refl

-- Where nothing is left to do `apply` changes nothing and reports no update.
pub apply-settled :
    (generated : String) (input : ConfigInput) (c : Config)
    → IsSettled input c
    → apply generated input c ≡ (c, false)
unfolding apply set_key fill_black_list extend_black_list
apply-settled generated input c s =
    rw
      (
        s.has_key,
        set_port-noop input.wireguard_port c s.port_kept s.has_port,
        set_iface-noop input.interface_name c s.iface_kept s.has_iface,
        s.has_list,
        s.list_kept,
      )
      refl

-- A step that reports no update has changed nothing.
IsHonest : Step → Type 0
IsHonest f = (c : Config) → (f c).1 ≡ false → (f c).0 ≡ c

set_key-IsHonest : (generated : String) → IsHonest (set_key generated)
unfolding set_key IsHonest
set_key-IsHonest generated c h = ground (arith, h)

set_port-IsHonest : (port : Option ℕ) → IsHonest (set_port port)
unfolding set_port default_port IsHonest
set_port-IsHonest none c h = ground (arith, h)
set_port-IsHonest (some n) c h = ground (arith, h)

set_iface-IsHonest : (name : Option String) → IsHonest (set_iface name)
unfolding set_iface default_iface IsHonest
set_iface-IsHonest none c h = ground (arith, h)
set_iface-IsHonest (some n) c h = ground (arith, h)

fill_black_list-IsHonest : IsHonest fill_black_list
unfolding fill_black_list IsHonest
fill_black_list-IsHonest c h = ground (arith, h)

extend_black_list-IsHonest : (extra : List String) → IsHonest (extend_black_list extra)
unfolding extend_black_list IsHonest
extend_black_list-IsHonest extra c h = ground (arith, h)

or-false : (a b : Bool) → (a || b) ≡ false → (a ≡ false) × (b ≡ false)
or-false true b h = absurd (ground (arith, h))
or-false false b h = (refl, h)

then_step-honest :
    (f : Step) (c : Config) (r : Config × Bool)
    → IsHonest f
    → (r.1 ≡ false → r.0 ≡ c)
    → (then_step f r).1 ≡ false
    → (then_step f r).0 ≡ c
unfolding IsHonest
then_step-honest f c (c', updated) honest before h =
    let (quiet, more) = or-false updated (f c').1 h in honest c' more ∙ before quiet

-- `apply` says that it updated the configuration wherever it has changed it.
pub apply-honest :
    (generated : String) (input : ConfigInput) (c : Config)
    → (apply generated input c).1 ≡ false
    → (apply generated input c).0 ≡ c
unfolding apply IsHonest
apply-honest generated input c =
    then_step-honest (extend_black_list input.extra_iface_black_list) c _
      (extend_black_list-IsHonest input.extra_iface_black_list)
      (then_step-honest fill_black_list c _ fill_black_list-IsHonest (
        then_step-honest (set_iface input.interface_name) c _
          (set_iface-IsHonest input.interface_name)
          (then_step-honest (set_port input.wireguard_port) c _
            (set_port-IsHonest input.wireguard_port) (set_key-IsHonest generated c))))
