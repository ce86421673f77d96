-- ===== src/JsonFile/Writes.antt =====
-- util/file.go: WriteJson leaves the file as it was or whole, whatever fails.
use punch.Common.{
  ℕ, suc, ◌+◌, ◌<◌, ◌≤◌, ◌≡◌, ◌≢◌, ◌⊎◌, inl, inr, refl, ap, Bool, true, false, Option, none, some,
  List, [], ◌∷◌, ◌++◌, ◌==◌, nat_eq, length, take, arith, if◌then◌else◌, ◌&&◌, ◌||◌, not,
  Bool-cases,
}
use punch.Common.Map.{lookup, insert, erase, lookup-insert, lookup-erase}
use punch.Text.{Text, text, text_eq, same_text_iff}
use punch.JsonFile.{
  Files, Error, Progress, Host, mkdir, marshal, create_temp, close_temp, write, rename, not_opened,
  whole, stops_after, split_before, split_path, made_dir, prepare_config_file_dir, fill_star,
  join_path, temp_path, exists, remove_temp, write_file, move, rename_temp, write_temp, after_write,
  write_by_temp, write_in, write_json,
}

length-split_before :
    (c : ℕ) (d : Text × Text)
    → length (split_before c d).0 + length (split_before c d).1 ≡ suc (length d.0 + length d.1)
length-split_before c ([], name) = ground arith
length-split_before c (d ∷ dir, name) = omega arith

length-split_path : (s : Text) → length (split_path s).0 + length (split_path s).1 ≡ length s
unfolding split_path
length-split_path [] = refl
length-split_path (c ∷ s) = omega (arith, length-split_before c (split_path s), length-split_path s)

length-append-le : (s t : Text) → length t ≤ length (s ++ t)
length-append-le [] t = omega arith
length-append-le (c ∷ s) t = omega (arith, length-append-le s t)

length-fill_star : (random s : Text) → length s ≤ suc (length (fill_star random s))
unfolding fill_star
length-fill_star random [] = omega arith
length-fill_star random (c ∷ s) =
    ground (arith, length-fill_star random s, length-append-le random s)

length-join_path : (dir name : Text) → length dir + length name ≤ length (join_path dir name)
unfolding join_path
length-join_path [] name = omega arith
length-join_path (c ∷ []) name = ground arith
length-join_path (c ∷ d ∷ dir) name = omega (arith, length-join_path (d ∷ dir) name)

length-temp_path :
    (h : Host) (dir name : Text) → length dir + length name < length (temp_path h dir name)
unfolding temp_path fill_star
length-temp_path h dir name = omega (
  arith,
  length-join_path dir (fill_star h.random (text ".*" ++ name)),
  length-fill_star h.random (42 ∷ name),
)

made_dir-le :
    (h : Host) (d : Text × Text) (dir name : Text)
    → made_dir h d ≡ some (dir, name)
    → length d.0 + length d.1 ≤ length dir + length name
made_dir-le h ([], n) dir name e = ground arith
made_dir-le h (c ∷ d, n) dir name e = ground arith

temp_path-ne :
    (h : Host) (file dir name : Text)
    → prepare_config_file_dir h file ≡ some (dir, name)
    → temp_path h dir name ≢ file
unfolding prepare_config_file_dir
temp_path-ne h file dir name e same = omega (
  arith,
  length-temp_path h dir name,
  made_dir-le h (split_path file) dir name e,
  length-split_path file,
  ap (λ (s : Text). length s) same,
)

-- Why a step may fail: the operating system's answer, a value that has no JSON form, or a name
-- that is taken.
abbrev pub Reason : Host → Option (List ℕ) → Files → Error → Type 0
Reason h object fs mkdir = h.makes_dirs ≡ false
Reason h object fs marshal = object ≡ none
Reason h object fs create_temp = (h.creates ≡ false) ⊎ ((p : Text) × (exists p fs ≡ true))
Reason h object fs close_temp = h.closes ≡ false
Reason h object fs write = h.writes ≢ whole
Reason h object fs rename = h.renames ≡ false
Reason h object fs _ = ⊥

-- After an error all files that were there are as they were, and there are no others unless the
-- temporary file could not be closed, found or removed.
pub record IsKept (h : Host) (fs fs' : Files) : Type 0 where
  pub kept : (p : Text) → exists p fs ≡ true → lookup p fs' ≡ lookup p fs
  pub tidied :
      h.closes ≡ true → h.stats ≡ true → h.removes ≡ true → (p : Text) → lookup p fs' ≡ lookup p fs

abbrev pub Written : Host → Text → Option (List ℕ) → Files → Files × Option Error → Type 0
Written h file object fs (fs', none) =
    (bs : List ℕ) × (object ≡ some bs)
    × ((p : Text) → lookup p fs' ≡ (if file == p then some bs else lookup p fs))
Written h file object fs (fs', some e) = Reason h object fs e × IsKept h fs fs'

lookup-remove_temp :
    (h : Host) (temp p : Text) (fs : Files)
    → lookup p (remove_temp h temp fs)
      ≡ (if ((exists temp fs && h.stats) && h.removes) && temp == p then none else lookup p fs)
unfolding remove_temp
lookup-remove_temp h temp p fs = ground (arith, lookup-erase temp p fs)

-- With a new temporary file, whatever it holds.
removed-IsKept :
    (h : Host) (temp : Text) (bs : List ℕ) (fs fs' : Files)
    → lookup temp fs ≡ none
    → ((p : Text) → lookup p fs' ≡ (if temp == p then some bs else lookup p fs))
    → IsKept h fs (remove_temp h temp fs')
removed-IsKept h temp bs fs fs' new e = record {
  kept =
      λ p old. ground (arith, lookup-remove_temp h temp p fs', e p, e temp, same_text_iff temp p);
  tidied = λ c s r p. ground (
    arith,
    lookup-remove_temp h temp p fs',
    e p,
    e temp,
    same_text_iff temp p,
    same_text_iff temp temp,
  );
}

move-Written :
    (h : Host) (temp file : Text) (bs : List ℕ) (fs fs' : Files)
    → lookup temp fs ≡ none
    → temp ≢ file
    → ((p : Text) → lookup p fs' ≡ (if temp == p then some bs else lookup p fs))
    → (p : Text)
    → lookup p (remove_temp h temp (move temp file fs'))
      ≡ (if file == p then some bs else lookup p fs)
unfolding move
move-Written h temp file bs fs fs' new ne e p = ground (
  arith,
  lookup-remove_temp h temp p (insert file bs (erase temp fs')),
  lookup-insert file p bs (erase temp fs'),
  lookup-insert file temp bs (erase temp fs'),
  lookup-erase temp p fs',
  e p,
  e temp,
  lookup-erase temp temp fs',
  same_text_iff temp p,
  same_text_iff temp temp,
  same_text_iff file temp,
  same_text_iff file p,
)

module _ (h : Host) (temp file : Text) (fs : Files) (new : lookup temp fs ≡ none) (ne : temp ≢ file)
    (object : Option (List ℕ)) where
  lookup-filled :
      (bs p : List ℕ)
      → lookup p (insert temp bs (insert temp [] fs)) ≡ (if temp == p then some bs else lookup p fs)
  lookup-filled bs p =
      ground (arith, lookup-insert temp p bs (insert temp [] fs), lookup-insert temp p [] fs)

  renamed-Written :
      (bs : List ℕ) (renames : Bool)
      → object ≡ some bs
      → h.renames ≡ renames
      → let fs' : Files = insert temp bs (insert temp [] fs) in
        Written h file object fs (
          if renames
          then (remove_temp h temp (move temp file fs'), none)
          else (remove_temp h temp fs', some rename))
  renamed-Written bs true o r = (bs, o, move-Written h temp file bs fs _ new ne (lookup-filled bs))
  renamed-Written bs false o r = (r, removed-IsKept h temp bs fs _ new (lookup-filled bs))

  after_write-Written :
      (bs : List ℕ) (w : Progress)
      → object ≡ some bs
      → h.writes ≡ w
      → Written h file object fs
          (after_write h temp file (write_file w temp bs (insert temp [] fs)))
  unfolding write_file rename_temp
  after_write-Written bs not_opened o e = (
    λ all. cc,
    removed-IsKept h temp [] fs (insert temp [] fs) new λ p. lookup-insert temp p [] fs,
  )
  after_write-Written bs (stops_after n) o e =
      (λ all. cc, removed-IsKept h temp (take n bs) fs _ new (lookup-filled (take n bs)))
  after_write-Written bs whole o e = renamed-Written bs h.renames o refl

  closed-Written :
      (bs : List ℕ) (closes : Bool)
      → object ≡ some bs
      → h.closes ≡ closes
      → Written h file object fs (
          if closes
          then write_temp h temp file bs (insert temp [] fs)
          else (insert temp [] fs, some close_temp))
  unfolding write_temp
  closed-Written bs true o c = after_write-Written bs h.writes o refl
  closed-Written bs false o c = (
    c,
    record {
      kept = λ p old. ground (arith, lookup-insert temp p [] fs, same_text_iff temp p);
      tidied = λ c'. cc;
    },
  )

unchanged-IsKept : (h : Host) (fs : Files) → IsKept h fs fs
unchanged-IsKept h fs = record { kept = λ p old. refl; tidied = λ c s r p. refl }

refused-Reason :
    (h : Host) (object : Option (List ℕ)) (temp : Text) (fs : Files)
    → (exists temp fs || not h.creates) ≡ true
    → Reason h object fs create_temp
refused-Reason h object temp fs e = elim (Bool-cases (exists temp fs)) [
  | inl old ↦ inr (temp, old)
  | inr new ↦ inl (ground arith)
]

write_by_temp-Written :
    (h : Host) (temp file : Text) (bs : List ℕ) (fs : Files) (refused : Bool)
    → temp ≢ file
    → (exists temp fs || not h.creates) ≡ refused
    → Written h file (some bs) fs (
        if refused
        then (fs, some create_temp)
        else if h.closes
        then write_temp h temp file bs (insert temp [] fs)
        else (insert temp [] fs, some close_temp))
write_by_temp-Written h temp file bs fs true ne e =
    (refused-Reason h (some bs) temp fs e, unchanged-IsKept h fs)
write_by_temp-Written h temp file bs fs false ne e =
    closed-Written h temp file fs (ground arith) ne (some bs) bs h.closes refl refl

made_dir-Reason : (h : Host) (d : Text × Text) → made_dir h d ≡ none → h.makes_dirs ≡ false
made_dir-Reason h ([], name) e = cc
made_dir-Reason h (c ∷ dir, name) e = ground arith

prepare-Reason :
    (h : Host) (file : Text) → prepare_config_file_dir h file ≡ none → h.makes_dirs ≡ false
unfolding prepare_config_file_dir
prepare-Reason h file e = made_dir-Reason h (split_path file) e

write_in-Written :
    (h : Host) (file : Text) (object : Option (List ℕ)) (fs : Files) (d : Option (Text × Text))
    → prepare_config_file_dir h file ≡ d
    → Written h file object fs (write_in h file object fs d)
unfolding write_by_temp
write_in-Written h file object fs none e = (prepare-Reason h file e, unchanged-IsKept h fs)
write_in-Written h file none fs (some d) e = (refl, unchanged-IsKept h fs)
write_in-Written h file (some bs) fs (some (dir, name)) e =
    write_by_temp-Written h (temp_path h dir name) file bs fs _ (temp_path-ne h file dir name e)
      refl

pub write_json-Written :
    (h : Host) (file : Text) (object : Option (List ℕ)) (fs : Files)
    → Written h file object fs (write_json h file object fs)
unfolding write_json
write_json-Written h file object fs = write_in-Written h file object fs _ refl
