-- ===== src/JsonFile.antt =====
-- util/file.go: JSON files, written by way of a temporary file or in place, and copies of files.
pub mod Writes
pub mod Direct
mod Tests
use punch.Common.{
  ℕ, ◌+◌, Bool, true, false, not, ◌&&◌, ◌||◌, Option, none, some, List, [], ◌∷◌, ◌++◌, ◌==◌, nat_eq,
  take, if◌then◌else◌, is_some, Result, ok, err,
}
use punch.Common.Map.{Map, lookup, insert, erase}
use punch.Text.{Text, text, text_eq}

-- What the files of the disk hold, by their paths. Modes and directories are left out.
abbrev pub Files : Type 0
Files = Map Text (List ℕ)

pub data Error : Type 0 where
  mkdir marshal create_temp close_temp write rename stat create chmod open_file truncate : Error
  read unmarshal copy sync close_copy : Error

-- How far a write gets: the file may not be opened, or the write may stop after some bytes.
pub data Progress : Type 0 where
  not_opened whole : Progress
  stops_after : ℕ → Progress

-- The operating system's answers to one call: whether each step works. `random` is the last
-- text that CreateTemp tries.
pub record Host : Type 0 where
  pub makes_dirs : Bool
  pub random : Text
  pub creates : Bool
  pub closes : Bool
  pub writes : Progress
  pub renames : Bool
  pub stats : Bool
  pub removes : Bool
  pub chmods : Bool
  pub opens : Bool
  pub truncates : Bool
  pub reads : Bool
  pub syncs : Bool

-- filepath.Split by a "/": a byte goes to the directory where a slash is at it or behind it.
abbrev pub split_before : ℕ → Text × Text → Text × Text
split_before c ([], name) = if c == 47 then (c ∷ [], name) else ([], c ∷ name)
split_before c (d ∷ dir, name) = (c ∷ d ∷ dir, name)

unfoldable pub split_path : Text → Text × Text
split_path [] = ([], [])
split_path (c ∷ s) = split_before c (split_path s)

-- filepath.Dir of a path with no directory is ".".
abbrev pub made_dir : Host → Text × Text → Option (Text × Text)
made_dir h ([], name) = some (text ".", name)
made_dir h (c ∷ dir, name) = if h.makes_dirs then some (c ∷ dir, name) else none

unfoldable pub prepare_config_file_dir : Host → Text → Option (Text × Text)
unfolding split_path
prepare_config_file_dir h file = made_dir h (split_path file)

-- CreateTemp's name for a pattern: the random text takes the place of the last "*".
has_star : Text → Bool
has_star [] = false
has_star (c ∷ s) = c == 42 || has_star s

pub fill_star : Text → Text → Text
unfolding has_star
fill_star random [] = []
fill_star random (c ∷ s) =
    let later = fill_star random s in if c == 42 && not (has_star s) then random ++ s else c ∷ later

pub join_path : Text → Text → Text
join_path [] name = 47 ∷ name
join_path (c ∷ []) name = if c == 47 then c ∷ name else c ∷ 47 ∷ name
join_path (c ∷ d ∷ dir) name = c ∷ join_path (d ∷ dir) name

unfoldable pub temp_path : Host → Text → Text → Text
unfolding fill_star join_path
temp_path h dir name = join_path dir (fill_star h.random (text ".*" ++ name))

abbrev pub exists : Text → Files → Bool
exists path fs = is_some (lookup path fs)

-- The deferred function of WriteJson.
unfoldable pub remove_temp : Host → Text → Files → Files
remove_temp h temp fs = if (exists temp fs && h.stats) && h.removes then erase temp fs else fs

-- os.WriteFile on a path, which empties a file that it opens: the files, and whether it worked.
unfoldable pub write_file : Progress → Text → List ℕ → Files → Files × Bool
write_file not_opened path bs fs = (fs, false)
write_file (stops_after n) path bs fs = (insert path (take n bs) fs, false)
write_file whole path bs fs = (insert path bs fs, true)

unfoldable pub move : Text → Text → Files → Files
move old new fs = elim (lookup old fs) [ none ↦ fs | some bs ↦ insert new bs (erase old fs) ]

-- What WriteJson does with the files once the temporary file is written.
unfoldable pub rename_temp : Host → Text → Text → Files → Files × Option Error
unfolding move remove_temp
rename_temp h temp file fs =
    if h.renames
    then (remove_temp h temp (move temp file fs), none)
    else (remove_temp h temp fs, some rename)

abbrev pub after_write : Host → Text → Text → Files × Bool → Files × Option Error
after_write h temp file (fs, true) = rename_temp h temp file fs
after_write h temp file (fs, false) = (remove_temp h temp fs, some write)

unfoldable pub write_temp : Host → Text → Text → List ℕ → Files → Files × Option Error
unfolding write_file rename_temp remove_temp
write_temp h temp file bs fs = after_write h temp file (write_file h.writes temp bs fs)

-- CreateTemp refuses a name that is there; its file is empty at first.
unfoldable pub write_by_temp : Host → Text → Text → List ℕ → Files → Files × Option Error
unfolding write_temp
write_by_temp h temp file bs fs =
    if exists temp fs || not h.creates
    then (fs, some create_temp)
    else if h.closes
    then write_temp h temp file bs (insert temp [] fs)
    else (insert temp [] fs, some close_temp)

-- `object` is what MarshalIndent makes of the value, if it can.
abbrev pub write_in :
    Host → Text → Option (List ℕ) → Files → Option (Text × Text) → Files × Option Error
write_in h file object fs none = (fs, some mkdir)
write_in h file none fs (some _) = (fs, some marshal)
write_in h file (some bs) fs (some (dir, name)) = write_by_temp h (temp_path h dir name) file bs fs

unfoldable pub write_json : Host → Text → Option (List ℕ) → Files → Files × Option Error
unfolding prepare_config_file_dir temp_path write_by_temp
write_json h file object fs = write_in h file object fs (prepare_config_file_dir h file)

-- openOrCreateFile: the files, and whether it gives an open file.
unfoldable pub open_or_create_file : Host → Text → Files → Files × Option Error
open_or_create_file h file fs =
    if not h.stats
    then (fs, some stat)
    else if exists file fs
    then (if h.opens then (fs, none) else (fs, some open_file))
    else if not h.creates
    then (fs, some create)
    else (insert file [] fs, if h.chmods then none else some chmod)

-- A write to the open file, which is empty.
abbrev pub fill : Progress → Text → List ℕ → Files → Files × Option Error
fill not_opened file bs fs = (fs, some write)
fill (stops_after n) file bs fs = (insert file (take n bs) fs, some write)
fill whole file bs fs = (insert file bs fs, none)

abbrev pub overwrite : Host → Text → Option (List ℕ) → Files × Option Error → Files × Option Error
overwrite h file object (fs, some e) = (fs, some e)
overwrite h file none (fs, none) = (fs, some marshal)
overwrite h file (some bs) (fs, none) =
    if h.truncates then fill h.writes file bs (insert file [] fs) else (fs, some truncate)

abbrev pub overwrite_in :
    Host → Text → Option (List ℕ) → Files → Option (Text × Text) → Files × Option Error
overwrite_in h file object fs none = (fs, some mkdir)
overwrite_in h file object fs (some _) = overwrite h file object (open_or_create_file h file fs)

unfoldable pub direct_write_json : Host → Text → Option (List ℕ) → Files → Files × Option Error
unfolding open_or_create_file prepare_config_file_dir
direct_write_json h file object fs = overwrite_in h file object fs (prepare_config_file_dir h file)

-- `decode` is json.Unmarshal into the value asked for.
unfoldable pub read_json : {A : Type 0} → (List ℕ → Option A) → Host → Text → Files → Result Error A
read_json decode h file fs = elim (lookup file fs) [
  | none ↦ err open_file
  | some bs ↦
      if not h.opens
      then err open_file
      else if not h.reads
      then err read
      else elim (decode bs) [ none ↦ err unmarshal | some a ↦ ok a ]
]

-- The end of a copy: Sync, then Close, whose error counts where no other came before it.
abbrev pub copy_end : Host → Option Error
copy_end h = if not h.syncs then some sync else if h.closes then none else some close_copy

abbrev pub copy_out : Host → Progress → Text → Option (List ℕ) → Files → Files × Option Error
copy_out h w dst none fs = (fs, some copy)
copy_out h not_opened dst (some bs) fs = (fs, some copy)
copy_out h (stops_after n) dst (some bs) fs = (insert dst (take n bs) fs, some copy)
copy_out h whole dst (some bs) fs = (insert dst bs fs, copy_end h)

-- The source is read after Create has emptied the destination.
abbrev pub copy_over : Host → Text → Text → Files → Files × Option Error
copy_over h src dst emptied =
    copy_out h h.writes dst (if h.reads then lookup src emptied else none) emptied

unfoldable pub copy_file_contents : Host → Text → Text → Files → Files × Option Error
copy_file_contents h src dst fs =
    if not (exists src fs && h.opens)
    then (fs, some open_file)
    else if not h.creates
    then (fs, some create)
    else copy_over h src dst (insert dst [] fs)
