-- ===== src/Text/Fields.antt =====
-- Go's strings.Fields, Contains and TrimSuffix, strconv.Atoi and bufio's lines, on bytes.
use punch.Common.{
  ℕ, zero, suc, ◌+◌, ◌-◌, ◌*◌, ◌^◌, Bool, true, false, ◌&&◌, ◌||◌, Option, none, some, List, [],
  ◌∷◌, ◌==◌, nat_eq, leb, length, if◌then◌else◌, ◌≤◌, arith,
}
use punch.Text.{Text, has_prefix, is_space, split_lines, same_text}

-- The byte in front of the words of the rest; `gap` says that a space follows or the end.
abbrev pub add_byte : ℕ → Bool → List Text → List Text
add_byte c gap [] = (c ∷ []) ∷ []
add_byte c gap (w ∷ ws) = if gap then (c ∷ []) ∷ w ∷ ws else (c ∷ w) ∷ ws

abbrev pub starts_with_space : Text → Bool
starts_with_space [] = true
starts_with_space (c ∷ s) = is_space c

unfoldable pub fields : Text → List Text
unfolding is_space
fields [] = []
fields (c ∷ s) =
    let rest = fields s in if is_space c then rest else add_byte c (starts_with_space s) rest

unfoldable pub contains_text : Text → Text → Bool
unfolding has_prefix
contains_text part [] = has_prefix [] part
contains_text part (c ∷ s) = has_prefix (c ∷ s) part || contains_text part s

unfoldable pub trim_suffix : Text → Text → Text
unfolding same_text
trim_suffix suffix [] = []
trim_suffix suffix (c ∷ s) =
    let rest = trim_suffix suffix s in if same_text (c ∷ s) suffix then [] else c ∷ rest

-- The lines of a bufio.Scanner: without "\r" at their end, and none after a last newline.
drop_cr : Text → Text
drop_cr [] = []
drop_cr (c ∷ []) = if c == 13 then [] else c ∷ []
drop_cr (c ∷ d ∷ s) = c ∷ drop_cr (d ∷ s)

scanned : List Text → List Text
unfolding drop_cr
scanned [] = []
scanned ([] ∷ []) = []
scanned ((c ∷ s) ∷ []) = drop_cr (c ∷ s) ∷ []
scanned (l ∷ m ∷ lines) = drop_cr l ∷ scanned (m ∷ lines)

unfoldable pub scan_lines : Text → List Text
unfolding scanned split_lines
scan_lines s = scanned (split_lines s)

-- An `int`: `negsuc n` is -(n + 1).
pub data ℤ : Type 0 where
  pos : ℕ → ℤ
  negsuc : ℕ → ℤ

digits : ℕ → Text → Option ℕ
digits n [] = some n
digits n (c ∷ s) =
    let rest = digits (10 * n + (c - 48)) s in if leb 48 c && leb c 57 then rest else none

-- With a digit at least; a number of more than 63 bits is an error.
magnitude : ℕ → Text → Option ℕ
unfolding digits
magnitude limit [] = none
magnitude limit (c ∷ s) = elim (digits 0 (c ∷ s)) [
  | none ↦ none
  | some n ↦ if leb n limit then some n else none
]

negated : Option ℕ → Option ℤ
negated none = none
negated (some zero) = some (pos 0)
negated (some (suc n)) = some (negsuc n)

positive : Option ℕ → Option ℤ
positive none = none
positive (some n) = some (pos n)

unfoldable pub atoi : Text → Option ℤ
unfolding magnitude negated positive
atoi [] = none
atoi (c ∷ s) =
    if c == 45
    then negated (magnitude (2 ^ 63) s)
    else positive (magnitude (2 ^ 63 - 1) (if c == 43 then s else c ∷ s))

-- A word has a byte, and no space in it.
abbrev pub IsWord : Text → Type 0
IsWord s = 1 ≤ length s

abbrev pub All {ℓ κ} : {A : Type ℓ} → (A → Type κ) → List A → Type κ
All P [] = Unit
All P (x ∷ xs) = P x × All P xs

add_byte-IsWord :
    (c : ℕ) (gap : Bool) (ws : List Text) → All IsWord ws → All IsWord (add_byte c gap ws)
add_byte-IsWord c gap [] h = (omega arith, tt)
add_byte-IsWord c true (w ∷ ws) h = (omega arith, h)
add_byte-IsWord c false (w ∷ ws) h = (omega arith, h.1)

skip-IsWord :
    (space : Bool) (xs ys : List Text)
    → All IsWord xs
    → All IsWord ys
    → All IsWord (if space then xs else ys)
skip-IsWord true xs ys h k = h
skip-IsWord false xs ys h k = k

pub fields-IsWord : (s : Text) → All IsWord (fields s)
unfolding fields
fields-IsWord [] = tt
fields-IsWord (c ∷ s) =
    skip-IsWord (is_space c) (fields s) _ (fields-IsWord s)
      (add_byte-IsWord c _ (fields s) (fields-IsWord s))
