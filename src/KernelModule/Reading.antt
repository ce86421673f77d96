-- ===== src/KernelModule/Reading.antt =====
-- iface/module_linux.go: the names of modules, and what the lists of them say.
use punch.Common.{
  ℕ, zero, suc, Bool, true, false, not, ◌&&◌, ◌||◌, Option, none, some, List, [], ◌∷◌, ◌==◌, nat_eq,
  length, get_elem?, if◌then◌else◌,
}
use punch.Common.Panics
use punch.Common.Panics.{ok, err, panic, ◌>>=◌}
use punch.Text.{Text, text, text_eq, same_text, trim_space}
use punch.Text.Fields.{fields, trim_suffix}

-- filepath.Base: what is behind the last slash, once those at the end are gone.
unfoldable pub trim_slashes : Text → Text
trim_slashes [] = []
trim_slashes (c ∷ s) = let rest = trim_slashes s in if rest == [] && c == 47 then [] else c ∷ rest

unfoldable pub has_byte : ℕ → Text → Bool
has_byte b [] = false
has_byte b (c ∷ s) = c == b || has_byte b s

unfoldable pub behind_slash : Text → Text
unfolding has_byte
behind_slash [] = []
behind_slash (c ∷ s) = let rest = behind_slash s in if has_byte 47 s || c == 47 then rest else c ∷ s

unfoldable pub base : Text → Text
unfolding trim_slashes behind_slash same_text
base [] = text "."
base (c ∷ s) =
    let name = behind_slash (trim_slashes (c ∷ s)) in if name == [] then text "/" else name

-- filepath.Ext: from the last dot of the last element on.
unfoldable pub ext : Text → Text
unfolding has_byte
ext [] = []
ext (c ∷ s) =
    let rest = ext s in
    if has_byte 47 s || has_byte 46 s then rest else if c == 46 then c ∷ s else []

-- The loop of pathToName, on fuel.
unfoldable pub trim_exts : ℕ → Text → Option Text
unfolding ext trim_suffix same_text
trim_exts zero s = none
trim_exts (suc fuel) s =
    let rest = trim_exts fuel (trim_suffix (ext s) s) in if ext s == [] then some s else rest

-- strings.ReplaceAll of "-" by "_".
unfoldable pub underscores : Text → Text
underscores [] = []
underscores (c ∷ s) = (if c == 45 then 95 else c) ∷ underscores s

unfoldable pub clean_name : Text → Text
unfolding underscores trim_space
clean_name s = underscores (trim_space s)

abbrev pub or_empty : Option Text → Text
or_empty none = []
or_empty (some s) = s

unfoldable pub path_to_name : Text → Text
unfolding base trim_exts clean_name
path_to_name s = clean_name (or_empty (trim_exts (suc (length (base s))) (base s)))

pub data Error : Type 0 where
  not_opened not_read module_not_found : Error
  no_dependencies init_failed dependency_failed : Error

abbrev pub Outcome : Type 0 → Type 0
Outcome A = Panics.Outcome Error A

-- A file as bufio.Scanner reads it: it may not be opened, and the reading may break off with an
-- error behind the lines.
pub data Lines : Type 0 where
  unopened : Lines
  lines_of : List Text → Bool → Lines

abbrev pub ended : {A : Type 0} → Bool → A → Outcome A
ended broken a = if broken then err not_read else ok a

-- The loop of isBuiltinModule.
unfoldable pub find_builtin : Text → List Text → Bool → Outcome Bool
unfolding path_to_name same_text
find_builtin name [] broken = ended broken false
find_builtin name (line ∷ lines) broken =
    let rest = find_builtin name lines broken in if path_to_name line == name then ok true else rest

unfoldable pub is_builtin_module : Text → Lines → Outcome Bool
unfolding find_builtin
is_builtin_module name unopened = err not_opened
is_builtin_module name (lines_of lines broken) = find_builtin name lines broken

-- The constants in their order, from 1 on.
pub data Status : Type 0 where
  unknown unloaded unloading loading live inuse : Status

abbrev pub at_least_loading : Status → Bool
at_least_loading loading = true
at_least_loading live = true
at_least_loading inuse = true
at_least_loading _ = false

abbrev pub field_at : ℕ → List Text → Outcome Text
field_at i words = elim (get_elem? words i) [ none ↦ panic | some w ↦ ok w ]

unfoldable pub named_status : Text → Status
unfolding same_text
named_status word =
    if word == text "Live"
    then live
    else if word == text "Loading"
    then loading
    else if word == text "Unloading"
    then unloading
    else unloaded

-- The fields of the module's line; `fields[2]` is its reference count.
unfoldable pub line_status : List Text → Outcome Status
unfolding named_status same_text
line_status words = field_at 2 words >>= λ count.
    if not (count == text "0")
    then ok inuse
    else (field_at 4 words >>= λ word. ok (named_status word))

-- The loop of moduleStatus. A blank line has no `fields[0]`.
unfoldable pub find_status : Text → List Text → Bool → Outcome Status
unfolding line_status fields same_text
find_status name [] broken = ended broken unloaded
find_status name (line ∷ lines) broken =
    let rest = find_status name lines broken in
    field_at 0 (fields line) >>= λ first. if first == name then line_status (fields line) else rest

unfoldable pub module_status : Text → Lines → Outcome Status
unfolding find_status
module_status name unopened = err not_opened
module_status name (lines_of lines broken) = find_status name lines broken

pub record Module : Type 0 where
  pub name : Text
  pub path : Text

-- The line of modules.dep for the module, if there is one: `deps`.
unfoldable pub find_deps : Text → List Text → Bool → Outcome (List Text)
unfolding path_to_name fields trim_suffix same_text
find_deps name [] broken = ended broken []
find_deps name (line ∷ lines) broken =
    let rest = find_deps name lines broken in
    field_at 0 (fields line) >>= λ first.
    if path_to_name (trim_suffix (text ":") first) == name then ok (fields line) else rest

-- `join` is filepath.Join with `moduleRoot`. The module itself is left out.
unfoldable pub modules_of : (Text → Text) → Text → List Text → List Module
unfolding path_to_name same_text
modules_of join name [] = []
modules_of join name (v ∷ vs) =
    let rest = modules_of join name vs in
    if path_to_name v == name then rest else record { name = path_to_name v; path = join v } ∷ rest

unfoldable pub to_modules : (Text → Text) → Text → List Text → Outcome (List Module)
unfolding modules_of trim_suffix
to_modules join name [] = err module_not_found
to_modules join name (v ∷ vs) = ok (modules_of join name (trim_suffix (text ":") v ∷ vs))

unfoldable pub get_module_dependencies : (Text → Text) → Text → Lines → Outcome (List Module)
unfolding find_deps to_modules
get_module_dependencies join name unopened = err not_opened
get_module_dependencies join name (lines_of lines broken) =
    find_deps name lines broken >>= to_modules join name
