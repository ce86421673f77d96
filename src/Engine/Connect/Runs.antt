-- ===== src/Engine/Connect/Runs.antt =====
-- client/internal/connect.go: in which order `run` calls the server and the engine, and how it ends.
use punch.Common.{
  ℕ, ◌≡◌, ◌≤◌, ◌⊎◌, inl, inr, refl, Bool, true, false, Option, none, some, List, [], ◌∷◌, ◌++◌,
  Result, ok, err, arith, if◌then◌else◌,
}
use punch.WgProxy.Lookup.{LeastFree}
use punch.Engine.{free_port, PortError, start_port}
use punch.Engine.Port.{Found, free_port-Found}
use punch.Engine.Connect.{
  Attempt, Event, registers, starts, stops, RunError, Calls, stop_error, with_port, with_config,
  operation, and_then, retry, run,
}

-- An engine is started only right behind a registration, with its port, and stopped only right
-- behind its start.
abbrev pub AreOrdered : Option Event → List Event → Type 0
AreOrdered last [] = Unit {0}
AreOrdered last (registers p ∷ events) = AreOrdered (some (registers p)) events
AreOrdered last (starts p ∷ events) =
    (last ≡ some (registers p)) × AreOrdered (some (starts p)) events
AreOrdered last (stops ∷ events) =
    ((p : ℕ) × (last ≡ some (starts p))) × AreOrdered (some stops) events

abbrev pub SomeOf : (Attempt → Type 0) → List Attempt → Type 0
SomeOf P [] = ⊥
SomeOf P (a ∷ later) = P a ⊎ SomeOf P later

-- A port that is used is the least one from the configured one on that could be listened on then.
abbrev pub HasPort : ℕ → List Attempt → Event → Type 0
HasPort wg_port attempts stops = Unit {0}
HasPort wg_port attempts (registers p) =
    SomeOf (λ a. LeastFree a.can_listen (start_port wg_port) 65536 p) attempts
HasPort wg_port attempts (starts p) =
    SomeOf (λ a. LeastFree a.can_listen (start_port wg_port) 65536 p) attempts

abbrev pub HavePorts : ℕ → List Attempt → List Event → Type 0
HavePorts wg_port attempts [] = Unit {0}
HavePorts wg_port attempts (event ∷ events) =
    HasPort wg_port attempts event × HavePorts wg_port attempts events

abbrev pub last_of : Option Event → List Event → Option Event
last_of last [] = last
last_of last (event ∷ events) = last_of (some event) events

-- With no error the context was done, or an engine was stopped at the end.
abbrev pub Ended : List Attempt → Calls → Type 0
Ended attempts (events, none) =
    SomeOf (λ a. a.stopped ≡ true) attempts ⊎ (last_of none events ≡ some stops)
Ended attempts (events, some e) = Unit {0}

pub record IsRun (wg_port : ℕ) (attempts : List Attempt) (calls : Calls) : Type 0 where
  pub ordered : (last : Option Event) → AreOrdered last calls.0
  pub have_ports : HavePorts wg_port attempts calls.0
  pub ended : Ended attempts calls

module _ (wg_port : ℕ) where
  with_port-IsRun :
      (a : Attempt) (p : ℕ) (r s t : Bool)
      → LeastFree a.can_listen (start_port wg_port) 65536 p
      → IsRun wg_port (a ∷ []) (with_port p r s t)
  unfolding with_port stop_error
  with_port-IsRun a p false s t l = record {
    ordered = λ last. tt;
    have_ports = (inl l, tt);
    ended = tt;
  }
  with_port-IsRun a p true false t l = record {
    ordered = λ last. (refl, tt);
    have_ports = (inl l, (inl l, tt));
    ended = tt;
  }
  with_port-IsRun a p true true false l = record {
    ordered = λ last. (refl, ((p, refl), tt));
    have_ports = (inl l, (inl l, (tt, tt)));
    ended = tt;
  }
  with_port-IsRun a p true true true l = record {
    ordered = λ last. (refl, ((p, refl), tt));
    have_ports = (inl l, (inl l, (tt, tt)));
    ended = inr refl;
  }

  with_config-IsRun :
      (a : Attempt) (r : Result PortError ℕ)
      → Found a.can_listen wg_port r
      → IsRun wg_port (a ∷ []) (with_config a r)
  unfolding with_config
  with_config-IsRun a (err e) f = record { ordered = λ last. tt; have_ports = tt; ended = tt }
  with_config-IsRun a (ok p) f = with_port-IsRun a p _ _ _ f

  operation-IsRun :
      (a : Attempt) → start_port wg_port ≤ 65536 → IsRun wg_port (a ∷ []) (operation wg_port a)
  unfolding operation
  operation-IsRun a le = by_stopped a.stopped refl
    where
      by_stopped :
          (stopped : Bool)
          → a.stopped ≡ stopped
          → IsRun wg_port
              (a ∷ [])
              (if stopped then ([], none) else with_config a (free_port a.can_listen wg_port))
      by_stopped true e = record { ordered = λ last. tt; have_ports = tt; ended = inl (inl e) }
      by_stopped false e = with_config-IsRun a _ (free_port-Found a.can_listen wg_port le)

  AreOrdered-append :
      (last : Option Event) (xs ys : List Event)
      → AreOrdered last xs
      → ((l : Option Event) → AreOrdered l ys)
      → AreOrdered last (xs ++ ys)
  AreOrdered-append last [] ys o next = next last
  AreOrdered-append last (registers p ∷ xs) ys o next = AreOrdered-append _ xs ys o next
  AreOrdered-append last (starts p ∷ xs) ys o next = (o.0, AreOrdered-append _ xs ys o.1 next)
  AreOrdered-append last (stops ∷ xs) ys o next = (o.0, AreOrdered-append _ xs ys o.1 next)

  HavePorts-append :
      (attempts : List Attempt) (xs ys : List Event)
      → HavePorts wg_port attempts xs
      → HavePorts wg_port attempts ys
      → HavePorts wg_port attempts (xs ++ ys)
  HavePorts-append attempts [] ys h h' = h'
  HavePorts-append attempts (event ∷ xs) ys h h' = (h.0, HavePorts-append attempts xs ys h.1 h')

  HavePorts-mono :
      (some_of others : List Attempt) (events : List Event)
      → ((P : Attempt → Type 0) → SomeOf P some_of → SomeOf P others)
      → HavePorts wg_port some_of events
      → HavePorts wg_port others events
  HavePorts-mono some_of others [] more h = tt
  HavePorts-mono some_of others (stops ∷ events) more h =
      (tt, HavePorts-mono some_of others events more h.1)
  HavePorts-mono some_of others (registers p ∷ events) more h =
      (more _ h.0, HavePorts-mono some_of others events more h.1)
  HavePorts-mono some_of others (starts p ∷ events) more h =
      (more _ h.0, HavePorts-mono some_of others events more h.1)

  first-SomeOf :
      (a : Attempt) (later : List Attempt) (P : Attempt → Type 0)
      → SomeOf P (a ∷ [])
      → SomeOf P (a ∷ later)
  first-SomeOf a later P (inl h) = inl h
  first-SomeOf a later P (inr h) = absurd h

  last_of-append :
      (last : Option Event) (xs ys : List Event)
      → last_of none ys ≡ some stops
      → last_of last (xs ++ ys) ≡ some stops
  last_of-append last [] [] h = absurd (ground (arith, h))
  last_of-append last [] (event ∷ ys) h = h
  last_of-append last (event ∷ xs) ys h = last_of-append (some event) xs ys h

  ended-first :
      (a : Attempt) (later : List Attempt) (events : List Event)
      → Ended (a ∷ []) (events, none)
      → Ended (a ∷ later) (events, none)
  ended-first a later events (inl h) = inl (first-SomeOf a later _ h)
  ended-first a later events (inr h) = inr h

  ended-later :
      (a : Attempt) (later : List Attempt) (xs ys : List Event) (o : Option RunError)
      → Ended later (ys, o)
      → Ended (a ∷ later) (xs ++ ys, o)
  ended-later a later xs ys (some e) h = tt
  ended-later a later xs ys none (inl h) = inl (inr h)
  ended-later a later xs ys none (inr h) = inr (last_of-append none xs ys h)

  and_then-IsRun :
      (a : Attempt) (later : List Attempt) (calls rest : Calls)
      → IsRun wg_port (a ∷ []) calls
      → IsRun wg_port later rest
      → IsRun wg_port (a ∷ later) (and_then calls rest)
  unfolding and_then
  and_then-IsRun a later (xs, none) rest h h' = record {
    ordered = h.ordered;
    have_ports = HavePorts-mono (a ∷ []) (a ∷ later) xs (first-SomeOf a later) h.have_ports;
    ended = ended-first a later xs h.ended;
  }
  and_then-IsRun a later (xs, some e) (ys, o) h h' = record {
    ordered = λ last. AreOrdered-append last xs ys (h.ordered last) h'.ordered;
    have_ports =
        HavePorts-append (a ∷ later) xs ys
          (HavePorts-mono (a ∷ []) (a ∷ later) xs (first-SomeOf a later) h.have_ports)
          (HavePorts-mono later (a ∷ later) ys (λ P. inr) h'.have_ports);
    ended = ended-later a later xs ys o h'.ended;
  }

  retry-IsRun :
      (a : Attempt) (later : List Attempt)
      → start_port wg_port ≤ 65536
      → IsRun wg_port (a ∷ later) (retry wg_port a later)
  unfolding retry
  retry-IsRun a [] le = operation-IsRun a le
  retry-IsRun a (b ∷ later) le =
      and_then-IsRun a (b ∷ later) (operation wg_port a) (retry wg_port b later)
        (operation-IsRun a le) (retry-IsRun b later le)

  -- However the attempts of `run` go: the server is asked to register before every start of an
  -- engine, with the same port, the least from the configured one on that was free in one of the
  -- attempts; an engine is stopped only right behind its start; and `run` returns no error only
  -- where the context was done at an attempt or the last call was the Stop of an engine. The
  -- configured port must not be above 65536.
  pub run-IsRun :
      (key_ok : Bool) (a : Attempt) (later : List Attempt)
      → start_port wg_port ≤ 65536
      → IsRun wg_port (a ∷ later) (run key_ok wg_port a later)
  unfolding run
  run-IsRun false a later le = record { ordered = λ last. tt; have_ports = tt; ended = tt }
  run-IsRun true a later le = retry-IsRun a later le
