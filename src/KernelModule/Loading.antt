-- ===== src/KernelModule/Loading.antt =====
-- iface/module_linux.go: what tryToLoadModule leaves in the kernel.
use punch.Common.{
  ◌≡◌, ◌≢◌, refl, ◌∙◌, Bool, true, false, List, [], ◌∷◌, ◌==◌, nat_eq, arith, if◌then◌else◌,
  Bool-cases, inl, inr,
}
use punch.Common.Panics.{ok, err, panic}
use punch.Text.{Text, text_eq, same_text_iff}
use punch.Text.Fields.{All}
use punch.KernelModule.{
  Error, Outcome, Status, Module, Kernel, Loaded, path_to_name, module_status, is_builtin_module,
  get_module_dependencies, get_module_path, load_module, then_load, load_all, load_deps,
  load_module_with_dependencies, enabled_by, is_module_enabled, loaded, load_found, load_disabled,
  try_to_load_module,
}
use punch.KernelModule.Steps.{
  IsShown, IsKernel, Keeps, Ends, load_module-Ends, then-Ends, ShowsAll, load_all-Ends, NamedIn,
  dependencies-NamedIn,
}

module _ (k : Kernel) (law : IsKernel k) where
  -- The module's dependencies are listed, and all of them and the module are loaded.
  pub record IsComplete (name : Text) (h : Loaded) : Type 0 where
    pub deps : List Module
    pub known : get_module_dependencies k.join name k.dep ≡ ok deps
    pub deps_shown : All (λ (d : Module). IsShown k h d.name) deps
    pub shown : IsShown k h name

  load_deps-Ends :
      (name path : Text) (h : Loaded) (o : Outcome (List Module))
      → path_to_name path ≡ name
      → get_module_dependencies k.join name k.dep ≡ o
      → NamedIn k law o
      → Ends k law (IsComplete name) h (load_deps k name path h o)
  load_deps-Ends name path h (err e) n g d = λ m s. s
  load_deps-Ends name path h panic n g d = λ m s. s
  load_deps-Ends name path h (ok deps) n g d =
      complete (then_load k (load_all k deps h) (load_module k name path)) (
        then-Ends k law (ShowsAll k law deps) (λ h'. IsShown k h' name) h (load_all k deps h)
          (load_module k name path) (λ h'. load_module-Ends k law name path h' n)
          (λ h' h'' keep. all_kept h' h'' keep deps) (load_all-Ends k law deps h d))
    where
      all_kept :
          (h' h'' : Loaded)
          → Keeps k law h' h''
          → (ds : List Module) → ShowsAll k law ds h'
          → ShowsAll k law ds h''
      all_kept h' h'' keep [] s = tt
      all_kept h' h'' keep (d ∷ ds) s = (keep d.name s.0, all_kept h' h'' keep ds s.1)

      complete :
          (r : Loaded × Outcome (Unit {0}))
          → Ends k law (λ h'. ShowsAll k law deps h' × IsShown k h' name) h r
          → Ends k law (IsComplete name) h r
      complete (h', ok _) e =
          (record { deps = deps; known = g; deps_shown = e.0.0; shown = e.0.1 }, e.1)
      complete (h', err x) e = e
      complete (h', panic) e = e

  -- What comes of tryToLoadModule, from the modules `h` that were loaded before.
  abbrev pub Tried : Text → Loaded → Loaded × Outcome Bool → Type 0
  Tried name h (h', ok true) =
      (is_module_enabled k name h' ≡ ok true)
      × (is_module_enabled k name h ≡ ok false → IsComplete name h')
      × ((m : Text) → IsShown k h m → IsShown k h' m)
  Tried name h (h', ok false) =
      (h' ≡ h) × (is_module_enabled k name h ≡ ok false) × (get_module_path name k.files ≡ [])
  Tried name h (h', err e) =
      (is_module_enabled k name h ≡ ok false) × ((m : Text) → IsShown k h m → IsShown k h' m)
  Tried name h (h', panic) = (m : Text) → IsShown k h m → IsShown k h' m

  -- The built-in modules do not depend on what is loaded.
  shown-enabled :
      (name : Text) (builtin : Outcome Bool) (status : Outcome Status) (h' : Loaded)
      → enabled_by k builtin status ≡ ok false
      → IsShown k h' name
      → enabled_by k builtin (module_status name (k.proc_modules h')) ≡ ok true
  shown-enabled name (ok b) status h' e s = rw (s.listed) (ground (arith, s.up, e))
  shown-enabled name (err x) status h' e s = rw (s.listed) (ground (arith, s.up, e))
  shown-enabled name panic status h' e s = cc

  path_to_name-get_module_path :
      (name : Text) (files : List Text)
      → get_module_path name files ≢ []
      → path_to_name (get_module_path name files) ≡ name
  unfolding get_module_path
  path_to_name-get_module_path name [] h = absurd (h refl)
  path_to_name-get_module_path name (f ∷ files) h = elim (Bool-cases (path_to_name f == name)) [
    | inl e ↦ rw e ((same_text_iff (path_to_name f) name).0 e)
    | inr e ↦ rw e (path_to_name-get_module_path name files (λ n. h (rw e n)))
  ]

  enabled_after :
      (name : Text) (h h' : Loaded)
      → is_module_enabled k name h ≡ ok false
      → IsShown k h' name
      → is_module_enabled k name h' ≡ ok true
  unfolding is_module_enabled
  enabled_after name h h' off s = shown-enabled name (is_builtin_module name k.builtin) _ h' off s

  load_found-Tried :
      (name : Text) (h : Loaded)
      → is_module_enabled k name h ≡ ok false
      → Tried name h (load_found k name h)
  unfolding load_found load_module_with_dependencies
  load_found-Tried name h off =
      path-Tried (get_module_path name k.files) _ refl (path_to_name-get_module_path name k.files)
        refl
    where
      loaded-Tried :
          (r : Loaded × Outcome (Unit {0}))
          → Ends k law (IsComplete name) h r
          → Tried name h (loaded k r)
      loaded-Tried (h', ok _) e = (enabled_after name h h' off e.0.shown, λ o. e.0, e.1)
      loaded-Tried (h', err x) e = (off, e)
      loaded-Tried (h', panic) e = e

      path-Tried :
          (path : Text) (missing : Bool)
          → get_module_path name k.files ≡ path
          → (path ≢ [] → path_to_name path ≡ name)
          → (path == []) ≡ missing
          → Tried name h (
              if missing
              then (h, ok false)
              else loaded k (load_deps k name path h (get_module_dependencies k.join name k.dep)))
      path-Tried path true g n e = (refl, off, g ∙ (same_text_iff path []).0 e)
      path-Tried path false g n e = loaded-Tried _ (
          load_deps-Ends name path h _ (n (λ m. ground (arith, e, (same_text_iff path []).1 m)))
            refl (dependencies-NamedIn k law name k.dep))

  enabled_by-ne-err :
      (builtin : Outcome Bool) (status : Outcome Status) (x : Error)
      → enabled_by k builtin status ≢ err x
  enabled_by-ne-err (ok true) (ok s) x e = cc
  enabled_by-ne-err (ok true) (err y) x e = cc
  enabled_by-ne-err (ok false) (ok s) x e = cc
  enabled_by-ne-err (ok false) (err y) x e = cc
  enabled_by-ne-err (ok b) panic x e = ground (arith, e)
  enabled_by-ne-err (err z) (ok s) x e = cc
  enabled_by-ne-err (err z) (err y) x e = cc
  enabled_by-ne-err (err z) panic x e = cc
  enabled_by-ne-err panic s x e = cc

  enabled-ne-err : (name : Text) (h : Loaded) (x : Error) → is_module_enabled k name h ≢ err x
  unfolding is_module_enabled
  enabled-ne-err name h x e = enabled_by-ne-err (is_builtin_module name k.builtin) _ x e

  enabled-Tried :
      (name : Text) (h : Loaded) (o : Outcome Bool)
      → is_module_enabled k name h ≡ o
      → Tried name h (load_disabled k name h o)
  enabled-Tried name h (ok true) e = (e, λ off. cc, λ m s. s)
  enabled-Tried name h (ok false) e = load_found-Tried name h e
  enabled-Tried name h (err x) e = absurd (enabled-ne-err name h x e)
  enabled-Tried name h panic e = λ m s. s

  pub try_to_load_module-Tried :
      (name : Text) (h : Loaded) → Tried name h (try_to_load_module k name h)
  unfolding try_to_load_module
  try_to_load_module-Tried name h = enabled-Tried name h _ refl
