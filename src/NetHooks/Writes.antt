-- ===== src/NetHooks/Writes.antt =====
-- util/net/listener_nonios.go: when the write hooks are called, over the life of one socket.
use punch.Common.{
  ℕ, String, ◌≡◌, refl, ap, ◌∙◌, true, false, ◌||◌, Option, none, some, List, [], ◌∷◌, ◌++◌, ◌==◌,
  string_eq, if◌then◌else◌, arith, Bool-cases, inl, inr,
}
use mathlib.Core.List.{append-nil}
use punch.NetHooks.{
  Hooks, PacketConn, Call, call_hooks, has, call_write_hooks, add_listener_write_hook,
  remove_listener_hooks,
}

-- What happens while a socket is open.
pub data Event : Type 0 where
  writes : String → Event
  adds : ℕ → Event
  removes : Event

-- The hooks that are registered when an address is written to for the first time.
pub hooks_at_first : String → Hooks → List Event → Option (List ℕ)
hooks_at_first a hs [] = none
hooks_at_first a hs (writes b ∷ es) =
    let later = hooks_at_first a hs es in if b == a then some hs.listener_write else later
hooks_at_first a hs (adds hook ∷ es) = hooks_at_first a (add_listener_write_hook hook hs) es
hooks_at_first a hs (removes ∷ es) = hooks_at_first a (remove_listener_hooks hs) es

module _ {I : Type 0} (resolve : String → Option I) where
  -- The calls of each write, with its address.
  unfoldable pub run : Hooks → PacketConn → List Event → List (String × List (Call I))
  run hs c [] = []
  run hs c (writes a ∷ es) =
      let (c', calls) = call_write_hooks resolve hs a c in (a, calls) ∷ run hs c' es
  run hs c (adds hook ∷ es) = run (add_listener_write_hook hook hs) c es
  run hs c (removes ∷ es) = run (remove_listener_hooks hs) c es

  unfoldable pub calls_for : String → List (String × List (Call I)) → List (Call I)
  calls_for a [] = []
  calls_for a ((b, calls) ∷ rest) =
      let later = calls_for a rest in if b == a then calls ++ later else later

  unfoldable pub expected : ℕ → String → Option (List ℕ) → List (Call I)
  expected id a none = []
  expected id a (some hooks) = call_hooks resolve id hooks (resolve a)

  -- One write, by whether the address has been seen.
  calls-seen :
      (hs : Hooks) (a : String) (c : PacketConn)
      → has a c.seen ≡ true
      → (call_write_hooks resolve hs a c).1 ≡ []
  unfolding call_write_hooks
  calls-seen hs a c s = ground (arith, s)

  calls-unseen :
      (hs : Hooks) (a : String) (c : PacketConn)
      → has a c.seen ≡ false
      → (call_write_hooks resolve hs a c).1 ≡ call_hooks resolve c.id hs.listener_write (resolve a)
  unfolding call_write_hooks
  calls-unseen hs a c s = rw s refl

  has-written :
      (hs : Hooks) (a b : String) (c : PacketConn)
      → has a (call_write_hooks resolve hs b c).0.seen ≡ (has a c.seen || b == a)
  unfolding call_write_hooks
  has-written hs a b c = ground (arith, string_eq.same_iff b a)

  id-written :
      (hs : Hooks) (b : String) (c : PacketConn) → (call_write_hooks resolve hs b c).0.id ≡ c.id
  unfolding call_write_hooks
  id-written hs b c = ground arith

  seen-silent :
      (a : String) (hs : Hooks) (c : PacketConn) (es : List Event)
      → has a c.seen ≡ true
      → calls_for a (run hs c es) ≡ []
  unfolding calls_for run
  seen-silent a hs c [] s = refl
  seen-silent a hs c (writes b ∷ es) s =
      let rest : calls_for a (run hs (call_write_hooks resolve hs b c).0 es) ≡ [] =
        seen-silent a hs (call_write_hooks resolve hs b c).0 es
          (has-written hs a b c ∙ ground (arith, s)) in
      elim (Bool-cases (b == a)) [
        | inl e ↦ rw (e, rest) (ground (arith, calls-seen hs a c s, (string_eq.same_iff b a).0 e))
        | inr e ↦ rw e rest
      ]
  seen-silent a hs c (adds hook ∷ es) s = seen-silent a (add_listener_write_hook hook hs) c es s
  seen-silent a hs c (removes ∷ es) s = seen-silent a (remove_listener_hooks hs) c es s

  pub run-calls_for :
      (a : String) (hs : Hooks) (c : PacketConn) (es : List Event)
      → has a c.seen ≡ false
      → calls_for a (run hs c es) ≡ expected c.id a (hooks_at_first a hs es)
  unfolding calls_for run expected hooks_at_first
  run-calls_for a hs c [] s = refl
  run-calls_for a hs c (writes b ∷ es) s = elim (Bool-cases (b == a)) [
    | inl e ↦
        let k : b ≡ a = (string_eq.same_iff b a).0 e in
        let rest : calls_for a (run hs (call_write_hooks resolve hs b c).0 es) ≡ [] =
          seen-silent a hs (call_write_hooks resolve hs b c).0 es
            (has-written hs a b c ∙ ground (arith, s, e)) in
        rw (e, rest, append-nil)
          (ap (λ (x : String). (call_write_hooks resolve hs x c).1) k ∙ calls-unseen hs a c s)
    | inr e ↦ rw e (
        run-calls_for a hs (call_write_hooks resolve hs b c).0 es
          (has-written hs a b c ∙ ground (arith, s, e))
        ∙ ap (λ (id : ℕ). expected id a (hooks_at_first a hs es)) (id-written hs b c))
  ]
  run-calls_for a hs c (adds hook ∷ es) s = run-calls_for a (add_listener_write_hook hook hs) c es s
  run-calls_for a hs c (removes ∷ es) s = run-calls_for a (remove_listener_hooks hs) c es s
