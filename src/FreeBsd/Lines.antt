-- ===== src/FreeBsd/Lines.antt =====
-- iface/freebsd/iface.go: what parseIfconfigOutput reads of a line, said of the line alone.
use punch.Common.{
  ◌+◌, ◌≡◌, inl, inr, refl, Bool, true, false, not, ◌&&◌, Option, none, some, List, [], ◌∷◌, ◌++◌,
  nat_eq, length, get_elem?, arith, if◌then◌else◌, Bool-cases, is_some, ltb,
}
use mathlib.Core.List.{append-nil}
use punch.Text.{Text, text, text_eq}
use punch.Text.Fields.{fields, contains_text, trim_suffix}
use punch.Common.Panics.{ok, err, panic, ◌>>=◌}
use punch.FreeBsd.{
  Outcome, Found, parse_line, mtu_index, read_mtu, read_flags, read_group, read_inet, read_line,
}

pub is_flags : Text → Bool
is_flags line = contains_text (text ": flags") line

pub is_mtu : Text → Bool
is_mtu line = contains_text (text "mtu") line

pub is_groups : Text → Bool
is_groups line = contains_text (text "groups:") line

pub is_inet : Text → Bool
is_inet line = contains_text (text "inet ") line

pub second : Text → Option Text
second line = get_elem? (fields line) 1

-- The field behind the first "mtu".
pub behind_mtu : Text → Option Text
behind_mtu line = get_elem? (fields line) (mtu_index 0 (fields line) + 1)

pub trimmed : Option Text → Option Text
trimmed none = none
trimmed (some name) = some (trim_suffix (text ":") name)

-- What one line says of each part of the interface.
abbrev pub when : Bool → Option Text → Option Text
when b o = if b then o else none

pub name_in : Text → Option Text
name_in line = when (is_flags line) (trimmed (get_elem? (fields line) 0))

pub mtu_in : Text → Option Text
mtu_in line = when (is_flags line && is_mtu line) (behind_mtu line)

pub group_in : Text → Option Text
group_in line = when (is_groups line) (second line)

pub ip_in : Text → Option Text
ip_in line = when (is_inet line) (second line)

-- The line has the fields that its words call for.
pub flags_ok : Text → Bool
flags_ok line =
    if is_flags line
    then not (ltb (length (fields line)) 4)
      && (if is_mtu line then is_some (behind_mtu line) else true)
    else true

pub group_ok : Text → Bool
group_ok line = if is_groups line then is_some (second line) else true

pub inet_ok : Text → Bool
inet_ok line = if is_inet line then is_some (second line) else true

pub has_fields : Text → Bool
has_fields line = flags_ok line && (group_ok line && inet_ok line)

unfoldable pub all_have_fields : List Text → Bool
all_have_fields [] = true
all_have_fields (line ∷ lines) = has_fields line && all_have_fields lines

abbrev pub or_old : Text → Option Text → Text
or_old old none = old
or_old old (some new) = new

abbrev pub add_some : Option Text → List Text → List Text
add_some none ws = ws
add_some (some w) ws = w ∷ ws

unfoldable pub collect : (Text → Option Text) → List Text → List Text
collect part [] = []
collect part (line ∷ lines) = add_some (part line) (collect part lines)

unfoldable pub last_or : Text → List Text → Text
last_or old [] = old
last_or old (w ∷ ws) = last_or w ws

pub last_or-add_some :
    (old : Text) (o : Option Text) (ws : List Text)
    → last_or old (add_some o ws) ≡ last_or (or_old old o) ws
unfolding last_or
last_or-add_some old none ws = refl
last_or-add_some old (some w) ws = refl

unfoldable pub step : Text → Found → Found
step line f = record {
  name = or_old f.name (name_in line);
  mtu = or_old f.mtu (mtu_in line);
  group = or_old f.group (group_in line);
  ips = f.ips ++ add_some (ip_in line) [];
}

unfoldable pub found : List Text → Found → Found
found lines f = record {
  name = last_or f.name (collect name_in lines);
  mtu = last_or f.mtu (collect mtu_in lines);
  group = last_or f.group (collect group_in lines);
  ips = f.ips ++ collect ip_in lines;
}

-- An error of a line, or a panic.
abbrev pub is_refused : {A : Type 0} → Outcome A → Bool
is_refused (ok _) = false
is_refused (err parse_line) = true
is_refused (err _) = false
is_refused panic = true

pub bind-refused :
    {A B : Type 0} (m : Outcome A) (k : A → Outcome B)
    → is_refused m ≡ true
    → is_refused (m >>= k) ≡ true
bind-refused (ok a) k h = cc
bind-refused (err parse_line) k h = refl
bind-refused (err _) k h = h
bind-refused panic k h = refl

pub head-is_some : (ws : List Text) → ltb (length ws) 4 ≡ false → is_some (get_elem? ws 0) ≡ true
head-is_some [] h = cc
head-is_some (w ∷ ws) h = refl

pub read_flags-step :
    (line : Text) (f : Found)
    → flags_ok line ≡ true
    → read_flags line f
      ≡ ok (record f { name = or_old f.name (name_in line); mtu = or_old f.mtu (mtu_in line) })
unfolding read_flags read_mtu flags_ok name_in mtu_in behind_mtu trimmed is_flags is_mtu
read_flags-step line f h = ground (arith, h, head-is_some (fields line))

pub second-is_some : (ws : List Text) → is_some (get_elem? ws 1) ≡ not (ltb (length ws) 2)
second-is_some [] = refl
second-is_some (w ∷ []) = refl
second-is_some (w ∷ v ∷ ws) = ground arith

pub read_group-step :
    (line : Text) (f : Found)
    → group_ok line ≡ true
    → read_group line f ≡ ok (record f { group = or_old f.group (group_in line) })
unfolding read_group group_ok group_in second is_groups
read_group-step line f h = ground (arith, h, second-is_some (fields line))

pub read_inet-step :
    (line : Text) (f : Found)
    → inet_ok line ≡ true
    → read_inet line f ≡ ok (record f { ips = f.ips ++ add_some (ip_in line) [] })
unfolding read_inet inet_ok ip_in second is_inet
read_inet-step line f h = ground (arith, h, second-is_some (fields line), append-nil f.ips)

pub read_flags-refused :
    (line : Text) (f : Found) → flags_ok line ≡ false → is_refused (read_flags line f) ≡ true
unfolding read_flags read_mtu flags_ok behind_mtu is_flags is_mtu
read_flags-refused line f h = ground (arith, h, head-is_some (fields line))

pub read_group-refused :
    (line : Text) (f : Found) → group_ok line ≡ false → is_refused (read_group line f) ≡ true
unfolding read_group group_ok second is_groups
read_group-refused line f h = ground (arith, h, second-is_some (fields line))

pub read_inet-refused :
    (line : Text) (f : Found) → inet_ok line ≡ false → is_refused (read_inet line f) ≡ true
unfolding read_inet inet_ok second is_inet
read_inet-refused line f h = ground (arith, h, second-is_some (fields line))

pub read_line-step :
    (line : Text) (f : Found) → has_fields line ≡ true → read_line line f ≡ ok (step line f)
unfolding read_line has_fields step
read_line-step line f h =
    rw
      (
        read_flags-step line f (ground (arith, h)),
        read_group-step line
            (record f { name = or_old f.name (name_in line); mtu = or_old f.mtu (mtu_in line) })
            (ground (arith, h)),
      )
      (read_inet-step line _ (ground (arith, h)))

pub read_line-refused :
    (line : Text) (f : Found) → has_fields line ≡ false → is_refused (read_line line f) ≡ true
unfolding read_line has_fields
read_line-refused line f h = elim (Bool-cases (flags_ok line)) [
  | inr a ↦
      bind-refused (read_flags line f >>= read_group line) (read_inet line)
        (bind-refused (read_flags line f) (read_group line) (read_flags-refused line f a))
  | inl a ↦ rw (read_flags-step line f a) (elim (Bool-cases (group_ok line)) [
    | inr b ↦ bind-refused (read_group line _) (read_inet line) (read_group-refused line _ b)
    | inl b ↦
        rw
          (read_group-step line
            (record f { name = or_old f.name (name_in line); mtu = or_old f.mtu (mtu_in line) }) b)
          (read_inet-refused line _ (ground (arith, h, a, b)))
  ])
]
