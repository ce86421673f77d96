-- ===== src/KernelModule/Names.antt =====
-- iface/module_linux.go: pathToName's loop ends, at the part of the base name before its first dot.
use punch.Common.{
  ℕ, zero, suc, ◌≡◌, ◌<◌, ◌≤◌, inl, inr, refl, ap, ◌∙◌, Bool, true, false, Option, some, [], ◌∷◌,
  ◌==◌, nat_eq, length, arith, if◌then◌else◌, Bool-cases,
}
use punch.Text.{Text, text, text_eq, same_text_iff}
use punch.Text.Fields.{trim_suffix}
use punch.KernelModule.{
  trim_slashes, has_byte, behind_slash, base, ext, trim_exts, clean_name, or_empty, path_to_name,
}

-- The text before its first dot.
pub before_dot : Text → Text
before_dot [] = []
before_dot (c ∷ s) = let rest = before_dot s in if c == 46 then [] else c ∷ rest

before_last_dot : Text → Text
unfolding has_byte
before_last_dot [] = []
before_last_dot (c ∷ s) =
    let rest = before_last_dot s in
    if has_byte 46 s then c ∷ rest else if c == 46 then [] else c ∷ rest

length-ext : (s : Text) → length (ext s) ≤ length s
unfolding ext
length-ext [] = omega arith
length-ext (c ∷ s) = ground (arith, length-ext s)

ext-dotted :
    (s : Text) → has_byte 47 s ≡ false → (ext s == []) ≡ (if has_byte 46 s then false else true)
unfolding ext has_byte
ext-dotted [] h = ground (arith, same_text_iff [] [])
ext-dotted (c ∷ s) h = ground (arith, ext-dotted s, same_text_iff (c ∷ s) [], same_text_iff [] [])

no-slash : (c : ℕ) (s : Text) → has_byte 47 (c ∷ s) ≡ false → has_byte 47 s ≡ false
unfolding has_byte
no-slash c s h = ground (arith, h)

not-ext : (c : ℕ) (s : Text) → ((c ∷ s) == ext s) ≡ false
not-ext c s = elim (Bool-cases ((c ∷ s) == ext s)) [
  | inl e ↦ absurd (
      omega
        (arith, length-ext s, ap (λ (t : Text). length t) ((same_text_iff (c ∷ s) (ext s)).0 e)))
  | inr e ↦ e
]

ext-deeper : (c : ℕ) (s : Text) → has_byte 47 s ≡ false → has_byte 46 s ≡ true → ext (c ∷ s) ≡ ext s
unfolding ext
ext-deeper c s h d = rw (h, d)

ext-here :
    (c : ℕ) (s : Text)
    → has_byte 47 s ≡ false
    → has_byte 46 s ≡ false
    → (c == 46) ≡ true
    → ext (c ∷ s) ≡ c ∷ s
unfolding ext
ext-here c s h d e = rw (h, d, e)

trim-deeper :
    (c : ℕ) (s suffix : Text)
    → ((c ∷ s) == suffix) ≡ false
    → trim_suffix suffix (c ∷ s) ≡ c ∷ trim_suffix suffix s
unfolding trim_suffix
trim-deeper c s suffix h = rw h

trim-ext :
    (s : Text)
    → has_byte 47 s ≡ false
    → has_byte 46 s ≡ true
    → trim_suffix (ext s) s ≡ before_last_dot s
unfolding has_byte trim_suffix before_last_dot
trim-ext [] h d = refl
trim-ext (c ∷ s) h d = elim (Bool-cases (has_byte 46 s)) [
  | inl e ↦ rw e (
      ap (λ (x : Text). trim_suffix x (c ∷ s)) (ext-deeper c s (no-slash c s h) e)
      ∙ trim-deeper c s (ext s) (not-ext c s)
      ∙ ap (λ (t : Text). c ∷ t) (trim-ext s (no-slash c s h) e))
  | inr e ↦ ground (arith, d, e, ext-here c s (no-slash c s h) e, same_text_iff (c ∷ s) (c ∷ s))
]

-- One round of the loop: it shortens the text and keeps what is before the first dot.
length-before_last_dot : (s : Text) → has_byte 46 s ≡ true → length (before_last_dot s) < length s
unfolding has_byte before_last_dot
length-before_last_dot [] d = cc
length-before_last_dot (c ∷ s) d = ground (arith, length-before_last_dot s, d)

before_dot-before_last_dot : (s : Text) → before_dot (before_last_dot s) ≡ before_dot s
unfolding has_byte before_dot before_last_dot
before_dot-before_last_dot [] = refl
before_dot-before_last_dot (c ∷ s) = ground (arith, before_dot-before_last_dot s)

slash-before_last_dot : (s : Text) → has_byte 47 s ≡ false → has_byte 47 (before_last_dot s) ≡ false
unfolding has_byte before_last_dot
slash-before_last_dot [] h = refl
slash-before_last_dot (c ∷ s) h = ground (arith, slash-before_last_dot s, h)

before_dot-undotted : (s : Text) → has_byte 46 s ≡ false → before_dot s ≡ s
unfolding has_byte before_dot
before_dot-undotted [] h = refl
before_dot-undotted (c ∷ s) h = ground (arith, before_dot-undotted s, h)

trim_exts-before_dot :
    (fuel : ℕ) (s : Text)
    → has_byte 47 s ≡ false
    → length s < fuel
    → trim_exts fuel s ≡ some (before_dot s)
unfolding trim_exts
trim_exts-before_dot zero s h l = absurd (omega arith)
trim_exts-before_dot (suc fuel) s h l = elim (Bool-cases (has_byte 46 s)) [
  | inl d ↦
      rw (ext-dotted s h, d, trim-ext s h d)
        (trim_exts-before_dot fuel (before_last_dot s) (slash-before_last_dot s h)
            (omega (arith, length-before_last_dot s d))
          ∙ ap (λ (t : Text). some t) (before_dot-before_last_dot s))
  | inr d ↦ rw (ext-dotted s h, d, before_dot-undotted s d) refl
]

-- Base's result has no slash, unless it is the single one.
slash-behind_slash : (s : Text) → has_byte 47 (behind_slash s) ≡ false
unfolding has_byte behind_slash
slash-behind_slash [] = refl
slash-behind_slash (c ∷ s) = ground (arith, slash-behind_slash s)

trim_exts-base :
    (s : Text) → trim_exts (suc (length (base s))) (base s) ≡ some (before_dot (base s))
unfolding base trim_slashes trim_exts before_dot
trim_exts-base [] = trim_exts-before_dot 2 (text ".") refl (omega arith)
trim_exts-base (c ∷ s) =
    named (behind_slash (trim_slashes (c ∷ s))) _ (slash-behind_slash (trim_slashes (c ∷ s)))
  where
    named :
        (name : Text) (empty : Bool)
        → has_byte 47 name ≡ false
        → let b : Text = if empty then text "/" else name in
          trim_exts (suc (length b)) b ≡ some (before_dot b)
    named name true h = refl
    named name false h = trim_exts-before_dot (suc (length name)) name h (omega arith)

-- pathToName ends for every path: its loop of extensions gives what the base name has before its
-- first dot, without white space around it and with underscores for dashes.
pub path_to_name-before_dot : (s : Text) → path_to_name s ≡ clean_name (before_dot (base s))
unfolding path_to_name
path_to_name-before_dot s = ap (λ (o : Option Text). clean_name (or_empty o)) (trim_exts-base s)
