-- ===== src/KernelModule.antt =====
-- iface/module_linux.go: whether the kernel has a module, and how one is loaded.
mod Reading
unfoldable pub use Reading.*
pub mod Names
pub mod Steps
pub mod Loading
mod Tests
use punch.Common.{
  ℕ, zero, suc, ◌+◌, Bool, true, false, not, ◌&&◌, ◌||◌, Option, none, some, List, [], ◌∷◌, ◌++◌,
  ◌==◌, nat_eq, leb, length, get_elem?, if◌then◌else◌,
}
use punch.Common.Panics
use punch.Common.Panics.{ok, err, panic, ◌>>=◌}
use punch.Text.{Text, text, text_eq, same_text, trim_space}
use punch.Text.Fields.{fields, trim_suffix}

-- finit_module's answer: it loads the module, is not there (ENOSYS), or fails.
pub data Answer : Type 0 where
  loads no_such_call fails : Answer

-- What the kernel and the disk answer, where some paths have been loaded already, in that order.
-- `files` are the regular files below `moduleRoot`, in WalkDir's order.
pub record Kernel : Type 0 where
  pub builtin : Lines
  pub proc_modules : List Text → Lines
  pub dep : Lines
  pub files : List Text
  pub join : Text → Text
  pub opens : Text → Bool
  pub finit : List Text → Text → Answer
  pub reads : Text → Bool
  pub init : List Text → Text → Bool

abbrev pub Loaded : Type 0
Loaded = List Text

-- WalkDir's function never returns an error of its own, so neither does WalkDir. An empty path
-- means that no file was found.
unfoldable pub get_module_path : Text → List Text → Text
unfolding path_to_name same_text
get_module_path name [] = []
get_module_path name (file ∷ files) =
    let rest = get_module_path name files in if path_to_name file == name then file else rest

module _ (k : Kernel) where
  abbrev pub initialised : Loaded → Text → Answer → Loaded × Outcome (Unit {0})
  initialised h path loads = (h ++ path ∷ [], ok tt)
  initialised h path fails = (h, err init_failed)
  initialised h path no_such_call =
      if not (k.reads path)
      then (h, err not_read)
      else if k.init h path
      then (h ++ path ∷ [], ok tt)
      else (h, err init_failed)

  abbrev pub load_unless : Loaded → Text → Outcome Status → Loaded × Outcome (Unit {0})
  load_unless h path (err e) = (h, err e)
  load_unless h path panic = (h, panic)
  load_unless h path (ok state) =
      if at_least_loading state
      then (h, ok tt)
      else if k.opens path
      then initialised h path (k.finit h path)
      else (h, err not_opened)

  unfoldable pub load_module : Text → Text → Loaded → Loaded × Outcome (Unit {0})
  unfolding module_status
  load_module name path h = load_unless h path (module_status name (k.proc_modules h))

  abbrev pub as_dependency : Loaded × Outcome (Unit {0}) → Loaded × Outcome (Unit {0})
  as_dependency (h, err e) = (h, err dependency_failed)
  as_dependency (h, o) = (h, o)

  -- A later step of a function, which an error or a panic of an earlier one leaves out.
  abbrev pub then_load :
      Loaded × Outcome (Unit {0})
      → (Loaded → Loaded × Outcome (Unit {0}))
      → Loaded × Outcome (Unit {0})
  then_load (h, ok _) next = next h
  then_load (h, err e) next = (h, err e)
  then_load (h, panic) next = (h, panic)

  unfoldable pub load_all : List Module → Loaded → Loaded × Outcome (Unit {0})
  unfolding load_module
  load_all [] h = (h, ok tt)
  load_all (dep ∷ deps) h =
      then_load (as_dependency (load_module dep.name dep.path h)) (load_all deps)

  abbrev pub load_deps : Text → Text → Loaded → Outcome (List Module) → Loaded × Outcome (Unit {0})
  load_deps name path h (err e) = (h, err no_dependencies)
  load_deps name path h panic = (h, panic)
  load_deps name path h (ok deps) = then_load (load_all deps h) (load_module name path)

  unfoldable pub load_module_with_dependencies : Text → Text → Loaded → Loaded × Outcome (Unit {0})
  unfolding get_module_dependencies load_all load_module
  load_module_with_dependencies name path h =
      load_deps name path h (get_module_dependencies k.join name k.dep)

  -- Both files are read first; a panic of either comes before the test.
  abbrev pub enabled_by : Outcome Bool → Outcome Status → Outcome Bool
  enabled_by panic status = panic
  enabled_by builtin panic = panic
  enabled_by (ok true) status = ok true
  enabled_by builtin (ok state) = ok (at_least_loading state)
  enabled_by builtin (err e) = ok false

  unfoldable pub is_module_enabled : Text → Loaded → Outcome Bool
  unfolding is_builtin_module module_status
  is_module_enabled name h =
      enabled_by (is_builtin_module name k.builtin) (module_status name (k.proc_modules h))

  abbrev pub loaded : Loaded × Outcome (Unit {0}) → Loaded × Outcome Bool
  loaded (h, ok _) = (h, ok true)
  loaded (h, err e) = (h, err e)
  loaded (h, panic) = (h, panic)

  unfoldable pub load_found : Text → Loaded → Loaded × Outcome Bool
  unfolding get_module_path load_module_with_dependencies same_text
  load_found name h =
      let path = get_module_path name k.files in
      if path == [] then (h, ok false) else loaded (load_module_with_dependencies name path h)

  abbrev pub load_disabled : Text → Loaded → Outcome Bool → Loaded × Outcome Bool
  load_disabled name h (ok true) = (h, ok true)
  load_disabled name h (ok false) = load_found name h
  load_disabled name h (err e) = (h, err e)
  load_disabled name h panic = (h, panic)

  unfoldable pub try_to_load_module : Text → Loaded → Loaded × Outcome Bool
  unfolding is_module_enabled load_found
  try_to_load_module name h = load_disabled name h (is_module_enabled name h)

  -- An error is logged, and means that the module is not loaded.
  abbrev pub logged : Loaded × Outcome Bool → Loaded × Outcome Bool
  logged (h, err e) = (h, ok false)
  logged (h, o) = (h, o)

  -- `disabled` is the environment's NB_WG_KERNEL_DISABLED, `fake` whether a link of the kind can
  -- be asked for.
  unfoldable pub wire_guard_module_is_loaded : Text → Bool → Loaded → Loaded × Outcome Bool
  unfolding try_to_load_module same_text
  wire_guard_module_is_loaded disabled fake h =
      if disabled == text "true"
      then (h, ok false)
      else if fake
      then (h, ok true)
      else logged (try_to_load_module (text "wireguard") h)

  -- `device` is whether /dev/net/tun is there.
  unfoldable pub tun_module_is_loaded : Bool → Loaded → Loaded × Outcome Bool
  unfolding try_to_load_module
  tun_module_is_loaded device h =
      if device then (h, ok true) else logged (try_to_load_module (text "tun") h)
