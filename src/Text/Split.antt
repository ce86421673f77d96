-- ===== src/Text/Split.antt =====
-- Go's strings.Split by one byte, Contains of one byte, and Trim by the bytes of a cutset.
use punch.Common.{
  ℕ, ◌≡◌, refl, ap, inl, inr, Bool, false, ◌&&◌, ◌||◌, length-append, List, [], ◌∷◌, ◌++◌, ◌==◌,
  nat_eq, if◌then◌else◌, length, arith, Bool-cases,
}
use punch.Text.{Text, is_space, trim_left, trim_right, trim_space}

unfoldable pub has : ℕ → Text → Bool
has c [] = false
has c (b ∷ s) = b == c || has c s

abbrev pub onto_first : ℕ → List Text → List Text
onto_first b [] = (b ∷ []) ∷ []
onto_first b (part ∷ parts) = (b ∷ part) ∷ parts

unfoldable pub split_on : ℕ → Text → List Text
split_on c [] = [] ∷ []
split_on c (b ∷ s) = let parts = split_on c s in if b == c then [] ∷ parts else onto_first b parts

unfoldable pub trim_start : Text → Text → Text
unfolding has
trim_start cutset [] = []
trim_start cutset (b ∷ s) = let rest = trim_start cutset s in if has b cutset then rest else b ∷ s

unfoldable pub trim_end : Text → Text → Text
unfolding has
trim_end cutset [] = []
trim_end cutset (b ∷ s) =
    let rest = trim_end cutset s in if length rest == 0 && has b cutset then [] else b ∷ rest

unfoldable pub trim : Text → Text → Text
unfolding trim_start trim_end
trim cutset s = trim_end cutset (trim_start cutset s)

onto_first-append :
    (b : ℕ) (x : Text) (xs ys : List Text)
    → onto_first b ((x ∷ xs) ++ ys) ≡ onto_first b (x ∷ xs) ++ ys
onto_first-append b x xs ys = refl

-- What split_on gives is never empty.
first_part : (c : ℕ) (s : Text) → (x : Text) × (xs : List Text) × (split_on c s ≡ x ∷ xs)
unfolding split_on
first_part c [] = ([], [], refl)
first_part c (b ∷ s) = elim (Bool-cases (b == c)) [
  | inl e ↦ ([], split_on c s, rw (e, split_on))
  | inr e ↦ let (x, xs, p) = first_part c s in (b ∷ x, xs, rw (e, p, split_on))
]

pub split_on-append : (c : ℕ) (s t : Text) → split_on c (s ++ c ∷ t) ≡ split_on c s ++ split_on c t
unfolding split_on
split_on-append c [] t = ground arith
split_on-append c (b ∷ s) t =
    let (x, xs, p) = first_part c s in
    elim (Bool-cases (b == c)) [
      | inl e ↦ rw (e, split_on) (ap (λ (parts : List Text). [] ∷ parts) (split_on-append c s t))
      | inr e ↦ rw (e, split_on-append c s t, p)
    ]

pub split_on-absent : (c : ℕ) (s : Text) → has c s ≡ false → split_on c s ≡ s ∷ []
unfolding split_on has
split_on-absent c [] h = refl
split_on-absent c (b ∷ s) h = ground (arith, split_on-absent c s, h)

pub trim_end-kept :
    (cutset s t : Text)
    → trim_end cutset t ≡ t
    → (length t == 0) ≡ false
    → trim_end cutset (s ++ t) ≡ s ++ t
unfolding trim_end
trim_end-kept cutset [] t h n = h
trim_end-kept cutset (b ∷ s) t h n =
    rw (trim_end-kept cutset s t h n) (ground (arith, n, length-append s t))

pub has-append : (c : ℕ) (s t : Text) → has c (s ++ t) ≡ (has c s || has c t)
unfolding has
has-append c [] t = refl
has-append c (b ∷ s) t = ground (arith, has-append c s t)

-- A text that none of the cutset's two bytes stands in is kept by trim_end.
pub trim_end-clean :
    (c d : ℕ) (s : Text) → has c s ≡ false → has d s ≡ false → trim_end (c ∷ d ∷ []) s ≡ s
unfolding trim_end has
trim_end-clean c d [] h h' = refl
trim_end-clean c d (b ∷ s) h h' =
    rw (trim_end-clean c d s (ground (arith, h)) (ground (arith, h'))) (ground (arith, h, h'))

pub trim_start-clean :
    (c d b : ℕ) (s t : Text)
    → has c (b ∷ s) ≡ false
    → has d (b ∷ s) ≡ false
    → trim_start (c ∷ d ∷ []) (b ∷ t) ≡ b ∷ t
unfolding trim_start has
trim_start-clean c d b s t h h' = ground (arith, h, h')

trim_left-behind :
    (c : ℕ) (s t : Text) → is_space c ≡ false → (r : Text) × (trim_left (s ++ c ∷ t) ≡ r ++ c ∷ t)
unfolding trim_left
trim_left-behind c [] t h = ([], rw h)
trim_left-behind c (b ∷ s) t h = elim (Bool-cases (is_space b)) [
  | inl e ↦ let (r, p) = trim_left-behind c s t h in (r, rw (e, p))
  | inr e ↦ (b ∷ s, rw e)
]

trim_right-nonempty :
    (c : ℕ) (s t : Text) → is_space c ≡ false → (length (trim_right (s ++ c ∷ t)) == 0) ≡ false
unfolding trim_right
trim_right-nonempty c [] t h = ground (arith, h)
trim_right-nonempty c (b ∷ s) t h = ground (arith, trim_right-nonempty c s t h)

-- A text with a byte that is no space is not blank.
pub trim_space-nonempty :
    (c : ℕ) (s t : Text) → is_space c ≡ false → (length (trim_space (s ++ c ∷ t)) == 0) ≡ false
unfolding trim_space
trim_space-nonempty c s t h =
    let (r, p) = trim_left-behind c s t h in rw p (trim_right-nonempty c r t h)
