-- ===== src/KernelModule/Steps.antt =====
-- iface/module_linux.go: what each step of the loading leaves in the kernel.
use punch.Common.{
  ◌≡◌, refl, subst, Bool, true, false, not, List, [], ◌∷◌, ◌++◌, ◌==◌, nat_eq, if◌then◌else◌,
  Bool-cases, inl, inr,
}
use punch.Common.Panics.{ok, err, panic, ◌>>=◌}
use punch.Text.{Text, text, text_eq}
use punch.Text.Fields.{All, trim_suffix}
use punch.KernelModule.{
  Outcome, Status, at_least_loading, Module, Kernel, Loaded, Lines, Answer, loads, no_such_call,
  fails, path_to_name, module_status, modules_of, to_modules, find_deps, lines_of, unopened,
  get_module_dependencies, initialised, load_unless, load_module, as_dependency, then_load,
  load_all, init_failed, not_read, not_opened,
}

-- The module is listed as loading, live or in use.
pub record IsShown (k : Kernel) (h : Loaded) (name : Text) : Type 0 where
  pub state : Status
  pub listed : module_status name (k.proc_modules h) ≡ ok state
  pub up : at_least_loading state ≡ true

-- The kernel lists a module that it has loaded from a file under the file's name, and goes on
-- listing it while others are loaded. Joining a path to the root keeps the name.
pub record IsKernel (k : Kernel) : Type 0 where
  pub finit_shows :
      (h : Loaded) (path : Text)
      → k.finit h path ≡ loads
      → IsShown k (h ++ path ∷ []) (path_to_name path)
  pub init_shows :
      (h : Loaded) (path : Text)
      → k.init h path ≡ true
      → IsShown k (h ++ path ∷ []) (path_to_name path)
  pub stays : (h : Loaded) (path name : Text) → IsShown k h name → IsShown k (h ++ path ∷ []) name
  pub joins : (path : Text) → path_to_name (k.join path) ≡ path_to_name path

module _ (k : Kernel) (law : IsKernel k) where
  abbrev pub Keeps : Loaded → Loaded → Type 0
  Keeps h h' = (name : Text) → IsShown k h name → IsShown k h' name

  -- With no error the property holds of what is loaded; anyway no module is gone.
  abbrev pub Ends : {A : Type 0} → (Loaded → Type 0) → Loaded → Loaded × Outcome A → Type 0
  Ends P h (h', ok _) = P h' × Keeps h h'
  Ends P h (h', err e) = Keeps h h'
  Ends P h (h', panic) = Keeps h h'

  initialised-Ends :
      (h : Loaded) (path : Text) (a : Answer)
      → k.finit h path ≡ a
      → Ends (λ h'. IsShown k h' (path_to_name path)) h (initialised k h path a)
  initialised-Ends h path loads e = (law.finit_shows h path e, λ name s. law.stays h path name s)
  initialised-Ends h path fails e = λ name s. s
  initialised-Ends h path no_such_call e = read-Ends (not (k.reads path)) (k.init h path) refl
    where
      read-Ends :
          (unread works : Bool)
          → k.init h path ≡ works
          → Ends
              (λ h'. IsShown k h' (path_to_name path))
              h
              (if unread
                then (h, err not_read)
                else if works
                then (h ++ path ∷ [], ok tt)
                else (h, err init_failed))
      read-Ends true works i = λ name s. s
      read-Ends false true i = (law.init_shows h path i, λ name s. law.stays h path name s)
      read-Ends false false i = λ name s. s

  load_unless-Ends :
      (name path : Text) (h : Loaded) (o : Outcome Status)
      → path_to_name path ≡ name
      → module_status name (k.proc_modules h) ≡ o
      → Ends (λ h'. IsShown k h' name) h (load_unless k h path o)
  load_unless-Ends name path h (err x) n e = λ m s. s
  load_unless-Ends name path h panic n e = λ m s. s
  load_unless-Ends name path h (ok state) n e =
      state-Ends (at_least_loading state) (k.opens path) refl
    where
      state-Ends :
          (up opens : Bool)
          → at_least_loading state ≡ up
          → Ends
              (λ h'. IsShown k h' name)
              h
              (if up
                then (h, ok tt)
                else if opens
                then initialised k h path (k.finit h path)
                else (h, err not_opened))
      state-Ends true opens u = (record { state = state; listed = e; up = u }, λ m s. s)
      state-Ends false true u =
          subst
            (λ (m : Text). Ends (λ h'. IsShown k h' m) h (initialised k h path (k.finit h path))) n
            (initialised-Ends h path (k.finit h path) refl)
      state-Ends false false u = λ m s. s

  pub load_module-Ends :
      (name path : Text) (h : Loaded)
      → path_to_name path ≡ name
      → Ends (λ h'. IsShown k h' name) h (load_module k name path h)
  unfolding load_module
  load_module-Ends name path h n = load_unless-Ends name path h _ n refl

  pub then-Ends :
      (P Q : Loaded → Type 0) (h : Loaded) (r : Loaded × Outcome (Unit {0}))
      (next : Loaded → Loaded × Outcome (Unit {0}))
      → ((h' : Loaded) → Ends Q h' (next h'))
      → ((h' h'' : Loaded) → Keeps h' h'' → P h' → P h'')
      → Ends P h r
      → Ends (λ h'. P h' × Q h') h (then_load k r next)
  then-Ends P Q h (h', ok _) next ends keep e = after (next h') (ends h')
    where
      after : (r : Loaded × Outcome (Unit {0})) → Ends Q h' r → Ends (λ h''. P h'' × Q h'') h r
      after (h'', ok _) q = ((keep h' h'' q.1 e.0, q.0), λ name s. q.1 name (e.1 name s))
      after (h'', err x) q = λ name s. q name (e.1 name s)
      after (h'', panic) q = λ name s. q name (e.1 name s)
  then-Ends P Q h (h', err x) next ends keep e = e
  then-Ends P Q h (h', panic) next ends keep e = e

  abbrev pub ShowsAll : List Module → Loaded → Type 0
  ShowsAll deps h = All (λ (d : Module). IsShown k h d.name) deps

  abbrev pub AreNamed : List Module → Type 0
  AreNamed deps = All (λ (d : Module). path_to_name d.path ≡ d.name) deps

  dependency-Ends :
      (P : Loaded → Type 0) (h : Loaded) (r : Loaded × Outcome (Unit {0}))
      → Ends P h r
      → Ends P h (as_dependency k r)
  dependency-Ends P h (h', ok _) e = e
  dependency-Ends P h (h', err x) e = e
  dependency-Ends P h (h', panic) e = e

  pub load_all-Ends :
      (deps : List Module) (h : Loaded) → AreNamed deps → Ends (ShowsAll deps) h (load_all k deps h)
  unfolding load_all
  load_all-Ends [] h n = (tt, λ name s. s)
  load_all-Ends (d ∷ deps) h n =
      then-Ends (λ h'. IsShown k h' d.name) (ShowsAll deps) h _ (load_all k deps)
        (λ h'. load_all-Ends deps h' n.1) (λ h' h'' keep. keep d.name)
        (dependency-Ends (λ h'. IsShown k h' d.name) h _ (load_module-Ends d.name d.path h n.0))

  modules_of-AreNamed : (name : Text) (vs : List Text) → AreNamed (modules_of k.join name vs)
  unfolding modules_of
  modules_of-AreNamed name [] = tt
  modules_of-AreNamed name (v ∷ vs) = elim (Bool-cases (path_to_name v == name)) [
    | inl e ↦ rw e (modules_of-AreNamed name vs)
    | inr e ↦ rw e (law.joins v, modules_of-AreNamed name vs)
  ]

  abbrev pub NamedIn : Outcome (List Module) → Type 0
  NamedIn (ok deps) = AreNamed deps
  NamedIn (err e) = Unit
  NamedIn panic = Unit

  to_modules-NamedIn :
      (name : Text) (o : Outcome (List Text)) → NamedIn (o >>= to_modules k.join name)
  unfolding to_modules
  to_modules-NamedIn name (ok []) = tt
  to_modules-NamedIn name (ok (v ∷ vs)) = modules_of-AreNamed name (trim_suffix (text ":") v ∷ vs)
  to_modules-NamedIn name (err e) = tt
  to_modules-NamedIn name panic = tt

  pub dependencies-NamedIn :
      (name : Text) (file : Lines) → NamedIn (get_module_dependencies k.join name file)
  unfolding get_module_dependencies
  dependencies-NamedIn name unopened = tt
  dependencies-NamedIn name (lines_of lines broken) =
      to_modules-NamedIn name (find_deps name lines broken)
