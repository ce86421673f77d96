-- ===== src/Config/Files.antt =====
-- client/internal/config.go: the configuration on the disk.
use punch.Common.{
  ℕ, suc, String, ◌⊎◌, inl, inr, ◌≡◌, refl, sym, ap, ◌∙◌, subst, Bool, true, false, string_eq,
  Result, ok, err,
}
use punch.Config.{
  Config, ConfigInput, apply, Disk, File, Error, write_json, missing, unreadable, holds,
  empty_config, file_exists, read_config_file, write_out_config, write_then, save_if, applied,
  update, create_new_config, created, update_or_create_config,
}
use punch.Config.Apply.{IsSettled, IsUsable, apply-IsSettled, apply-settled, apply-honest}

-- With the configuration that a call returns: the file holds it, all that the input asks for is
-- in it, and the same call again, whichever writes would work, returns it and writes nothing. An
-- error leaves the file as it was, but for one case: there was none, and of the two writes of a
-- new file only the second failed; then the file holds all that the input asks for.
abbrev pub Saved : ConfigInput → Disk → Disk × Result Error Config → Type 0
Saved input d (d', err e) =
    (d'.file ≡ d.file)
    ⊎ ((d.file ≡ missing)
        × (d.writes 0 ≡ true)
        × (d.writes 1 ≡ false)
        × ((c : Config) × (d'.file ≡ holds c) × IsSettled input c))
Saved input d (d', ok c) =
    (d'.file ≡ holds c)
    × IsSettled input c
    × ((again : String) (writes : ℕ → Bool)
        → update_or_create_config again input (record { file = d'.file; writes = writes })
          ≡ (record { file = d'.file; writes = writes }, ok c))

on_disk : File → (ℕ → Bool) → Disk
on_disk file writes = record { file = file; writes = writes }

again-same :
    (again : String) (input : ConfigInput) (c : Config) (writes : ℕ → Bool)
    → IsSettled input c
    → update_or_create_config again input (record { file = holds c; writes = writes })
      ≡ (record { file = holds c; writes = writes }, ok c)
unfolding update_or_create_config update file_exists read_config_file applied save_if
again-same again input c writes s = rw (apply-settled again input c s) refl

later : (ℕ → Bool) → ℕ → Bool
later writes n = writes (suc n)

write_then-works :
    (c : Config) (file : File) (writes : ℕ → Bool)
    → writes 0 ≡ true
    → write_then c (on_disk file writes) ≡ (on_disk (holds c) (later writes), ok c)
unfolding write_then write_out_config on_disk later
write_then-works c file writes e = rw e refl

write_then-fails :
    (c : Config) (file : File) (writes : ℕ → Bool)
    → writes 0 ≡ false
    → write_then c (on_disk file writes) ≡ (on_disk file (later writes), err write_json)
unfolding write_then write_out_config on_disk later
write_then-fails c file writes e = rw e refl

save_if-Saved :
    (input : ConfigInput) (c c' : Config) (updated first : Bool) (writes : ℕ → Bool)
    → writes 0 ≡ first
    → IsSettled input c'
    → (updated ≡ false → c' ≡ c)
    → Saved input (on_disk (holds c) writes) (save_if updated c' (on_disk (holds c) writes))
unfolding save_if on_disk
save_if-Saved input c c' true true writes e s honest =
    subst (Saved input (on_disk (holds c) writes)) (sym (write_then-works c' (holds c) writes e))
      (refl, s, λ again w. again-same again input c' w s)
save_if-Saved input c c' true false writes e s honest =
    subst (Saved input (on_disk (holds c) writes)) (sym (write_then-fails c' (holds c) writes e))
      (inl refl)
save_if-Saved input c c' false first writes e s honest = (
  ap (λ (x : Config). holds x) (sym (honest refl)),
  s,
  λ again w.
      subst
        (λ (x : Config).
          update_or_create_config again input (on_disk (holds x) w) ≡ (on_disk (holds x) w, ok c'))
        (honest refl) (again-same again input c' w s),
)

created-Saved :
    (input : ConfigInput) (c : Config) (first second : Bool) (writes : ℕ → Bool)
    → writes 0 ≡ first
    → writes 1 ≡ second
    → IsSettled input c
    → Saved input (on_disk missing writes) (created (write_then c (on_disk missing writes)))
unfolding created on_disk later
created-Saved input c true true writes e e' s =
    subst (Saved input (on_disk missing writes))
      (sym (
        ap created (write_then-works c missing writes e)
        ∙ write_then-works c (holds c) (later writes) e'))
      (refl, s, λ again w. again-same again input c w s)
created-Saved input c true false writes e e' s =
    subst (Saved input (on_disk missing writes))
      (sym (
        ap created (write_then-works c missing writes e)
        ∙ write_then-fails c (holds c) (later writes) e'))
      (inr (refl, e, e', (c, refl, s)))
created-Saved input c false second writes e e' s =
    subst (Saved input (on_disk missing writes))
      (sym (ap created (write_then-fails c missing writes e))) (inl refl)

on_disk-Saved :
    (generated : String) (input : ConfigInput) (file : File) (writes : ℕ → Bool)
    → IsUsable generated input
    → Saved input
        (on_disk file writes)
        (update_or_create_config generated input (on_disk file writes))
unfolding update_or_create_config update create_new_config file_exists read_config_file applied
    on_disk created
on_disk-Saved generated input missing writes u =
    created-Saved input (apply generated input empty_config).0 _ _ writes refl refl
      (apply-IsSettled generated input empty_config u)
on_disk-Saved generated input unreadable writes u = inl refl
on_disk-Saved generated input (holds c) writes u =
    save_if-Saved input c (apply generated input c).0 (apply generated input c).1 _ writes refl
      (apply-IsSettled generated input c u) (apply-honest generated input c)

-- UpdateOrCreateConfig with a usable input, whatever is at the path and whichever of its writes
-- fail: where it returns a configuration, the file holds it, it has all fields and what the input
-- asks for, and the same call again changes nothing. An error leaves the file as it was, unless
-- there was none and only the second write of the new one fails: then the new file stays.
pub update_or_create_config-Saved :
    (generated : String) (input : ConfigInput) (d : Disk)
    → IsUsable generated input
    → Saved input d (update_or_create_config generated input d)
unfolding on_disk
update_or_create_config-Saved generated input d u = on_disk-Saved generated input d.file d.writes u
