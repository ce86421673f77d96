-- ===== src/JsonFile/Direct.antt =====
-- util/file.go: what DirectWriteJson and CopyFileContents leave of the file that they write.
use punch.Common.{
  ℕ, ◌≡◌, ◌≢◌, ◌⊎◌, inl, inr, refl, ◌∙◌, Bool, true, false, Option, none, some, List, [], ◌==◌,
  nat_eq, take, arith, if◌then◌else◌, not, Option-cases,
}
use punch.Common.Map.{lookup, insert, lookup-insert}
use punch.Text.{Text, text_eq, same_text_iff}
use punch.JsonFile.{
  Files, Error, Progress, Host, not_opened, whole, stops_after, exists, open_or_create_file,
  overwrite, overwrite_in, fill, direct_write_json, copy_out, copy_end, copy_over,
  copy_file_contents, open_file, create, truncate,
}

abbrev Others : Text → Files → Files → Type 0
Others file fs fs' = (p : Text) → file ≢ p → lookup p fs' ≡ lookup p fs

insert-Others : (file : Text) (bs : List ℕ) (fs : Files) → Others file fs (insert file bs fs)
insert-Others file bs fs p ne = ground (arith, lookup-insert file p bs fs, same_text_iff file p)

lookup-insert_self :
    (file : Text) (bs : List ℕ) (fs : Files) → lookup file (insert file bs fs) ≡ some bs
lookup-insert_self file bs fs =
    ground (arith, lookup-insert file file bs fs, same_text_iff file file)

-- What an error leaves at the path: what was there, an empty file, or a beginning of the JSON form.
abbrev pub Remains : Option (List ℕ) → Option (List ℕ) → Option (List ℕ) → Type 0
Remains object old new =
    (new ≡ old)
    ⊎ (new ≡ some [])
    ⊎ ((bs : List ℕ) × (n : ℕ) × (object ≡ some bs) × (new ≡ some (take n bs)))

abbrev pub Overwritten : Text → Option (List ℕ) → Files → Files × Option Error → Type 0
Overwritten file object fs (fs', none) =
    (bs : List ℕ) × (object ≡ some bs) × (lookup file fs' ≡ some bs) × Others file fs fs'
Overwritten file object fs (fs', some e) =
    Remains object (lookup file fs) (lookup file fs') × Others file fs fs'

-- What openOrCreateFile leaves: the path as it was, or with a new, empty file.
abbrev Opened : Text → Files → Files → Type 0
Opened file fs fs' =
    ((lookup file fs' ≡ lookup file fs) ⊎ (lookup file fs' ≡ some [])) × Others file fs fs'

abbrev Leaves : Text → Files → Files × Option Error → Type 0
Leaves file fs r = Opened file fs r.0

if-Leaves :
    (file : Text) (fs : Files) (b : Bool) (x y : Files × Option Error)
    → Leaves file fs x
    → Leaves file fs y
    → Leaves file fs (if b then x else y)
if-Leaves file fs true x y l r = l
if-Leaves file fs false x y l r = r

open-Leaves : (h : Host) (file : Text) (fs : Files) → Leaves file fs (open_or_create_file h file fs)
unfolding open_or_create_file
open-Leaves h file fs =
    let same : Opened file fs fs = (inl refl, λ p ne. refl) in
    if-Leaves file fs (not h.stats) _ _ same (
      if-Leaves file fs (exists file fs) _ _ (if-Leaves file fs h.opens _ _ same same) (
        if-Leaves file fs (not h.creates) _ _ same
          (inr (lookup-insert_self file [] fs), insert-Others file [] fs)))

insert-Kept :
    (file : Text) (bs : List ℕ) (fs fs' : Files)
    → Others file fs fs'
    → Others file fs (insert file bs fs')
insert-Kept file bs fs fs' o p ne = insert-Others file bs fs' p ne ∙ o p ne

fill-Overwritten :
    (w : Progress) (file : Text) (bs : List ℕ) (fs fs' : Files)
    → lookup file fs' ≡ some []
    → Others file fs fs'
    → Overwritten file (some bs) fs (fill w file bs fs')
fill-Overwritten not_opened file bs fs fs' e o = (inr (inl e), o)
fill-Overwritten (stops_after n) file bs fs fs' e o =
    (inr (inr (bs, n, refl, lookup-insert_self file (take n bs) fs')), insert-Kept file _ fs fs' o)
fill-Overwritten whole file bs fs fs' e o =
    (bs, refl, lookup-insert_self file bs fs', insert-Kept file bs fs fs' o)

Opened-Remains :
    (object : Option (List ℕ)) (file : Text) (fs fs' : Files)
    → Opened file fs fs'
    → Remains object (lookup file fs) (lookup file fs') × Others file fs fs'
Opened-Remains object file fs fs' (inl e, o) = (inl e, o)
Opened-Remains object file fs fs' (inr e, o) = (inr (inl e), o)

truncated-Overwritten :
    (h : Host) (file : Text) (bs : List ℕ) (fs fs' : Files) (truncates : Bool)
    → Opened file fs fs'
    → Overwritten file
        (some bs)
        fs
        (if truncates then fill h.writes file bs (insert file [] fs') else (fs', some truncate))
truncated-Overwritten h file bs fs fs' true k =
    fill-Overwritten h.writes file bs fs (insert file [] fs') (lookup-insert_self file [] fs')
      (insert-Kept file [] fs fs' k.1)
truncated-Overwritten h file bs fs fs' false k = Opened-Remains (some bs) file fs fs' k

overwrite-Overwritten :
    (h : Host) (file : Text) (object : Option (List ℕ)) (fs : Files) (opened : Files × Option Error)
    → Leaves file fs opened
    → Overwritten file object fs (overwrite h file object opened)
overwrite-Overwritten h file object fs (fs', some e) k = Opened-Remains object file fs fs' k
overwrite-Overwritten h file none fs (fs', none) k = Opened-Remains none file fs fs' k
overwrite-Overwritten h file (some bs) fs (fs', none) k =
    truncated-Overwritten h file bs fs fs' h.truncates k

prepared-Overwritten :
    (h : Host) (file : Text) (object : Option (List ℕ)) (fs : Files) (d : Option (Text × Text))
    → Overwritten file object fs (overwrite_in h file object fs d)
prepared-Overwritten h file object fs none = (inl refl, λ p ne. refl)
prepared-Overwritten h file object fs (some d) =
    overwrite-Overwritten h file object fs _ (open-Leaves h file fs)

-- DirectWriteJson changes no other path. With no error the file holds the JSON form of the
-- value; an error leaves what was there, an empty file, or a beginning of the JSON form.
pub direct_write_json-Overwritten :
    (h : Host) (file : Text) (object : Option (List ℕ)) (fs : Files)
    → Overwritten file object fs (direct_write_json h file object fs)
unfolding direct_write_json
direct_write_json-Overwritten h file object fs = prepared-Overwritten h file object fs _

-- A copy without an error: the destination holds the source's bytes, unless it is the source.
abbrev pub Copied : Text → Text → Files → Files × Option Error → Type 0
Copied src dst fs (fs', none) =
    (bs : List ℕ) × (lookup src fs ≡ some bs)
    × ((p : Text)
        → lookup p fs' ≡ (if dst == p then some (if src == dst then [] else bs) else lookup p fs))
Copied src dst fs (fs', some e) = Others dst fs fs'

end-Copied :
    (src dst : Text) (fs : Files) (bs old : List ℕ) (end : Option Error)
    → lookup src fs ≡ some old
    → bs ≡ (if src == dst then [] else old)
    → Copied src dst fs (insert dst bs (insert dst [] fs), end)
end-Copied src dst fs bs old (some e) l r = insert-Kept dst bs fs _ (insert-Others dst [] fs)
end-Copied src dst fs bs old none l r = (
  old,
  l,
  λ p. ground (arith, r, lookup-insert dst p bs (insert dst [] fs), lookup-insert dst p [] fs),
)

opened-Copied :
    (h : Host) (src dst : Text) (fs : Files) (opens refused : Bool)
    → Copied src dst fs (copy_over h src dst (insert dst [] fs))
    → Copied src dst fs (
        if not opens
        then (fs, some open_file)
        else if refused
        then (fs, some create)
        else copy_over h src dst (insert dst [] fs))
opened-Copied h src dst fs false refused k = λ p ne. refl
opened-Copied h src dst fs true true k = λ p ne. refl
opened-Copied h src dst fs true false k = k

copy_out-Copied :
    (h : Host) (src dst : Text) (fs : Files) (w : Progress) (read : Option (List ℕ)) (old : List ℕ)
    → lookup src fs ≡ some old
    → ((bs : List ℕ) → read ≡ some bs → bs ≡ (if src == dst then [] else old))
    → Copied src dst fs (copy_out h w dst read (insert dst [] fs))
copy_out-Copied h src dst fs w none old l r = insert-Others dst [] fs
copy_out-Copied h src dst fs not_opened (some bs) old l r = insert-Others dst [] fs
copy_out-Copied h src dst fs (stops_after n) (some bs) old l r =
    insert-Kept dst _ fs _ (insert-Others dst [] fs)
copy_out-Copied h src dst fs whole (some bs) old l r =
    end-Copied src dst fs bs old (copy_end h) l (r bs refl)

over-Copied :
    (h : Host) (src dst : Text) (fs : Files) (old : List ℕ)
    → lookup src fs ≡ some old
    → Copied src dst fs (copy_over h src dst (insert dst [] fs))
over-Copied h src dst fs old l = copy_out-Copied h src dst fs h.writes _ old l λ bs e.
    ground (arith, e, l, lookup-insert dst src [] fs, same_text_iff dst src, same_text_iff src dst)

-- CopyFileContents changes no path but the destination. With no error the destination holds what
-- the source held, unless they are the same path: then the file is empty.
pub copy_file_contents-Copied :
    (h : Host) (src dst : Text) (fs : Files) → Copied src dst fs (copy_file_contents h src dst fs)
unfolding copy_file_contents
copy_file_contents-Copied h src dst fs = elim (Option-cases (lookup src fs)) [
  | inl e ↦ rw e (λ p ne. refl)
  | inr (old, e) ↦
      rw e (opened-Copied h src dst fs h.opens (not h.creates) (over-Copied h src dst fs old e))
]
