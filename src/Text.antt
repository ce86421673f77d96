-- ===== src/Text.antt =====
-- Go's strings and encoding/hex on texts that are their bytes; white space is ASCII's.
pub mod Fields
pub mod Split
mod Tests
use Prim.Native.Char.{code}
use punch.Common.{
  ℕ, String, ◌+◌, ◌/◌, ◌%◌, Bool, true, false, ◌&&◌, ◌||◌, List, [], ◌∷◌, ◌==◌, nat_eq, Eq, ltb,
  leb, length, if◌then◌else◌, ◌≡◌, ◌↔◌, arith, refl,
}

abbrev pub Text : Type 0
Text = List ℕ

abbrev pub text : String → Text
text String.[] = []
text (String.◌∷◌ c s) = code c ∷ text s

unfoldable pub same_text : Text → Text → Bool
same_text [] [] = true
same_text [] (_ ∷ _) = false
same_text (_ ∷ _) [] = false
same_text (x ∷ s) (y ∷ t) = x == y && same_text s t

unfoldable pub has_prefix : Text → Text → Bool
has_prefix s [] = true
has_prefix [] (_ ∷ _) = false
has_prefix (a ∷ s) (b ∷ prefix) = a == b && has_prefix s prefix

unfoldable pub is_space : ℕ → Bool
is_space c = c == 32 || leb 9 c && leb c 13

trim_left : Text → Text
unfolding is_space
trim_left [] = []
trim_left (c ∷ s) = let rest = trim_left s in if is_space c then rest else c ∷ s

-- Without the white space at its end.
trim_right : Text → Text
unfolding is_space
trim_right [] = []
trim_right (c ∷ s) =
    let rest = trim_right s in if length rest == 0 && is_space c then [] else c ∷ rest

unfoldable pub trim_space : Text → Text
unfolding trim_left trim_right
trim_space s = trim_right (trim_left s)

split_at : ℕ → List Text → List Text
split_at c [] = (c ∷ []) ∷ []
split_at c (line ∷ lines) = if c == 10 then [] ∷ line ∷ lines else (c ∷ line) ∷ lines

-- strings.Split by the newline.
unfoldable pub split_lines : Text → List Text
unfolding split_at
split_lines [] = [] ∷ []
split_lines (c ∷ s) = split_at c (split_lines s)

hex_digit : ℕ → ℕ
hex_digit n = if ltb n 10 then 48 + n else 87 + n

unfoldable pub hex_text : List ℕ → Text
unfolding hex_digit
hex_text [] = []
hex_text (b ∷ bs) = hex_digit (b / 16) ∷ hex_digit (b % 16) ∷ hex_text bs

pub same_text_iff : (s t : Text) → (same_text s t ≡ true) ↔ (s ≡ t)
unfolding same_text
same_text_iff [] [] = (λ h. refl, λ e. refl)
same_text_iff [] (y ∷ t) = (λ h. absurd (ground (arith, h)), λ e. absurd (ground (arith, e)))
same_text_iff (x ∷ s) [] = (λ h. absurd (ground (arith, h)), λ e. absurd (ground (arith, e)))
same_text_iff (x ∷ s) (y ∷ t) =
    (λ h. ground (arith, same_text_iff s t, h), λ e. ground (arith, same_text_iff s t, e))

instance abbrev pub text_eq : Eq Text
text_eq = record { same = same_text; same_iff = same_text_iff }
