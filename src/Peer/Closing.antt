-- ===== src/Peer/Closing.antt =====
-- client/internal/peer/conn.go: no call of Close returns, and one that has locked the mutex keeps it.
use punch.Common.{
  ℕ, ◌≡◌, ◌≢◌, ◌⊎◌, inl, inr, refl, sym, subst, ◌∙◌, Bool, true, false, none, some, List, [], ◌∷◌,
  ◌++◌, nat_eq, length, get_elem?, arith, get_elem?-set, get_elem?-append, nat_eqb_iff,
  get_elem?-length, Option-cases,
}
use punch.Peer.{
  Conn, OpenAt, CloseAt, Event, ConnConfig, opener, closer, setting_context, locking_configure,
  configuring, waiting, disconnected, closed, locking_cleanup, open_goes, cancelled, called_close,
  close_goes, new_conn, open_step, close_step, step, run,
}
use punch.Engine.{OfferAnswer}

-- The goroutine in Open has the mutex at two places.
abbrev holds : OpenAt → Bool
holds setting_context = true
holds configuring = true
holds _ = false

-- Close at one of its first two locks.
abbrev pub blocks : CloseAt → Bool
blocks CloseAt.locking = true
blocks locking_cleanup = true
blocks _ = false

record IsStalled (c : Conn) : Type 0 where
  pending : (i : ℕ) (at : CloseAt) → get_elem? c.closing i ≡ some at → blocks at ≡ true
  owner : (i : ℕ) → get_elem? c.closing i ≡ some locking_cleanup → c.mu ≡ some (closer i)
  held : holds c.opening ≡ true → c.mu ≡ some opener
  open_still : c.opening ≢ closed

new-IsStalled : (config : ConnConfig) (answer : OfferAnswer) → IsStalled (new_conn config answer)
unfolding new_conn
new-IsStalled config answer = record {
  pending = λ i at h. cc;
  owner = λ i h. cc;
  held = λ h. cc;
  open_still = λ e. cc;
}

-- A step of Open leaves the closers alone. It frees the mutex only where it has it.
open-IsStalled :
    (works : Bool) (at : OpenAt) (c c' : Conn)
    → c.opening ≡ at
    → open_step works at c ≡ some c'
    → IsStalled c
    → IsStalled c'
unfolding open_step
open-IsStalled works OpenAt.locking c c' o e s = record {
  pending = λ i at h. ground (arith, e, o, h, s.pending i at);
  owner = λ i h. ground (arith, e, o, h, s.owner i, s.held);
  held = λ h. ground (arith, e, o, h, s.held);
  open_still = λ h. ground (arith, e, o, h, s.open_still);
}
open-IsStalled works at c c' o e s = record {
  pending = λ i at' h. ground (arith, e, o, h, s.pending i at');
  owner = λ i h. ground (arith, e, o, h, s.owner i, s.held);
  held = λ h. ground (arith, e, o, h, s.held);
  open_still = λ h. ground (arith, e, o, h, s.open_still);
}

close-IsStalled :
    (i : ℕ) (at : CloseAt) (c c' : Conn)
    → get_elem? c.closing i ≡ some at
    → close_step i at c ≡ some c'
    → IsStalled c
    → IsStalled c'
unfolding close_step
close-IsStalled i CloseAt.locking c c' g e s = record {
  pending = λ j at h.
      ground (
        arith,
        e,
        g,
        h,
        s.pending j at,
        get_elem?-set c.closing i j locking_cleanup CloseAt.locking,
      );
  owner = λ j h.
      ground
        (arith, e, g, h, s.owner j, get_elem?-set c.closing i j locking_cleanup CloseAt.locking);
  held = λ h. ground (arith, e, h, s.held);
  open_still = λ h. ground (arith, e, h, s.open_still);
}
close-IsStalled i at c c' g e s = ground (arith, e, g, s.pending i at, s.owner i)

append-IsStalled :
    (c : Conn) → IsStalled c → IsStalled (record c { closing = c.closing ++ CloseAt.locking ∷ [] })
append-IsStalled c s = record {
  pending =
      λ i at h. ground (arith, h, s.pending i at, get_elem?-append c.closing CloseAt.locking i);
  owner = λ i h. ground (arith, h, s.owner i, get_elem?-append c.closing CloseAt.locking i);
  held = s.held;
  open_still = s.open_still;
}

goes-IsStalled :
    (i : ℕ) (c c' : Conn) → step (close_goes i) c ≡ some c' → IsStalled c → IsStalled c'
unfolding step
goes-IsStalled i c c' e s = elim (Option-cases (get_elem? c.closing i)) [
  | inl g ↦ absurd (ground (arith, e, g))
  | inr (at, g) ↦ close-IsStalled i at c c' g (ground (arith, e, g)) s
]

step-IsStalled : (ev : Event) (c c' : Conn) → step ev c ≡ some c' → IsStalled c → IsStalled c'
unfolding step
step-IsStalled (open_goes works) c c' e s = open-IsStalled works c.opening c c' refl e s
step-IsStalled cancelled c c' e s = record {
  pending = λ i at h. ground (arith, e, h, s.pending i at);
  owner = λ i h. ground (arith, e, h, s.owner i);
  held = λ h. ground (arith, e, h, s.held);
  open_still = λ h. ground (arith, e, h, s.open_still);
}
step-IsStalled called_close c c' e s = subst IsStalled (ground (arith, e)) (append-IsStalled c s)
step-IsStalled (close_goes i) c c' e s = goes-IsStalled i c c' e s

-- A closer that has locked the mutex stays at cleanup's lock; Open is where it is, or leaves its
-- select for the context, and calls UpdatePeer no more.
pub record IsStuck (i : ℕ) (c c' : Conn) : Type 0 where
  pub at_cleanup : get_elem? c'.closing i ≡ some locking_cleanup
  pub keeps_mutex : c'.mu ≡ some (closer i)
  pub no_update : c'.updates ≡ c.updates
  pub open_stays : (c'.opening ≡ c.opening) ⊎ ((c.opening ≡ waiting) × (c'.opening ≡ disconnected))

-- A blocked lock: nobody but the owner could free the mutex.
open-IsStuck :
    (i : ℕ) (works : Bool) (at : OpenAt) (c c' : Conn)
    → c.opening ≡ at
    → IsStalled c
    → get_elem? c.closing i ≡ some locking_cleanup
    → open_step works at c ≡ some c'
    → IsStuck i c c'
unfolding open_step
open-IsStuck i works OpenAt.locking c c' o s g e = absurd (ground (arith, e, s.owner i g))
open-IsStuck i works setting_context c c' o s g e = absurd (ground (arith, o, s.held, s.owner i g))
open-IsStuck i works locking_configure c c' o s g e = absurd (ground (arith, e, s.owner i g))
open-IsStuck i works configuring c c' o s g e = absurd (ground (arith, o, s.held, s.owner i g))
open-IsStuck i works waiting c c' o s g e = record {
  at_cleanup = ground (arith, e, g);
  keeps_mutex = ground (arith, e, s.owner i g);
  no_update = ground (arith, e);
  open_stays = inr (o, ground (arith, e));
}
open-IsStuck i works at c c' o s g e = absurd (cc)

blocked-close :
    (i j : ℕ) (at : CloseAt) (c : Conn)
    → blocks at ≡ true
    → c.mu ≡ some (closer i)
    → close_step j at c ≡ none
unfolding close_step
blocked-close i j CloseAt.locking c b m = ground (arith, m)
blocked-close i j locking_cleanup c b m = ground (arith, m)
blocked-close i j at c b m = cc

goes-none :
    (i j : ℕ) (c : Conn)
    → IsStalled c
    → get_elem? c.closing i ≡ some locking_cleanup
    → step (close_goes j) c ≡ none
unfolding step
goes-none i j c s g = elim (Option-cases (get_elem? c.closing j)) [
  | inl e ↦ ground (arith, e)
  | inr (at, e) ↦ ground (arith, e, blocked-close i j at c (s.pending j at e) (s.owner i g))
]

step-IsStuck :
    (i : ℕ) (ev : Event) (c c' : Conn)
    → IsStalled c
    → get_elem? c.closing i ≡ some locking_cleanup
    → step ev c ≡ some c'
    → IsStuck i c c'
unfolding step
step-IsStuck i (open_goes works) c c' s g e = open-IsStuck i works c.opening c c' refl s g e
step-IsStuck i cancelled c c' s g e = record {
  at_cleanup = ground (arith, e, g);
  keeps_mutex = ground (arith, e, s.owner i g);
  no_update = ground (arith, e);
  open_stays = inl (ground (arith, e));
}
step-IsStuck i called_close c c' s g e = record {
  at_cleanup = ground (
    arith,
    e,
    g,
    get_elem?-append c.closing CloseAt.locking i,
    nat_eqb_iff (length c.closing) i,
    get_elem?-length c.closing,
  );
  keeps_mutex = ground (arith, e, s.owner i g);
  no_update = ground (arith, e);
  open_stays = inl (ground (arith, e));
}
step-IsStuck i (close_goes j) c c' s g e = absurd (ground (arith, e, goes-none i j c s g))

IsStuck-trans : (i : ℕ) (c c' c'' : Conn) → IsStuck i c c' → IsStuck i c' c'' → IsStuck i c c''
IsStuck-trans i c c' c'' a b = record {
  at_cleanup = b.at_cleanup;
  keeps_mutex = b.keeps_mutex;
  no_update = b.no_update ∙ a.no_update;
  open_stays = opens a.open_stays b.open_stays;
}
  where
    opens :
        (c'.opening ≡ c.opening) ⊎ ((c.opening ≡ waiting) × (c'.opening ≡ disconnected))
        → (c''.opening ≡ c'.opening) ⊎ ((c'.opening ≡ waiting) × (c''.opening ≡ disconnected))
        → (c''.opening ≡ c.opening) ⊎ ((c.opening ≡ waiting) × (c''.opening ≡ disconnected))
    opens (inl x) (inl y) = inl (y ∙ x)
    opens (inl x) (inr (w, d)) = inr (sym x ∙ w, d)
    opens (inr (w, d)) (inl y) = inr (w, y ∙ d)
    opens (inr (w, d)) (inr (w', d')) = absurd (cc)

run-IsStuck :
    (i : ℕ) (es : List Event) (c c' : Conn)
    → IsStalled c
    → get_elem? c.closing i ≡ some locking_cleanup
    → run es c ≡ some c'
    → IsStuck i c c'
unfolding run
run-IsStuck i [] c c' s g e =
    let p : c ≡ c' = ground (arith, e) in
    subst (IsStuck i c) p (record {
      at_cleanup = g;
      keeps_mutex = s.owner i g;
      no_update = refl;
      open_stays = inl refl;
    })
run-IsStuck i (ev ∷ es) c c' s g e = elim (Option-cases (step ev c)) [
  | inl n ↦ absurd (ground (arith, e, n))
  | inr (d, n) ↦
      let stuck = step-IsStuck i ev c d s g n in
      IsStuck-trans i c d c' stuck
        (run-IsStuck i es d c' (step-IsStalled ev c d n s) stuck.at_cleanup (ground (arith, e, n)))
]

run-IsStalled : (es : List Event) (c c' : Conn) → IsStalled c → run es c ≡ some c' → IsStalled c'
unfolding run
run-IsStalled [] c c' s e = subst IsStalled (ground (arith, e)) s
run-IsStalled (ev ∷ es) c c' s e = elim (Option-cases (step ev c)) [
  | inl n ↦ absurd (ground (arith, e, n))
  | inr (d, n) ↦ run-IsStalled es d c' (step-IsStalled ev c d n s) (ground (arith, e, n))
]

-- What holds of a connection whenever, from its making on.
pub record IsDeadlocked (c : Conn) : Type 0 where
  pub unreturned : (i : ℕ) (at : CloseAt) → get_elem? c.closing i ≡ some at → blocks at ≡ true
  pub not_closed : c.opening ≢ closed
  pub stuck :
      (i : ℕ)
      → get_elem? c.closing i ≡ some locking_cleanup
      → (es : List Event) (c' : Conn) → run es c ≡ some c'
      → IsStuck i c c'

-- No call of Close on a connection ever returns, whatever the goroutines do and in any order, nor
-- does Open ever return that the connection was closed: a Close that has locked the mutex
-- waits in cleanup for it for ever, and no one else gets it. An Open that has not called
-- UpdatePeer by then never does, and stays where it is; one that waits can only end by the
-- context.
pub run-IsDeadlocked :
    (config : ConnConfig) (answer : OfferAnswer) (es : List Event) (c : Conn)
    → run es (new_conn config answer) ≡ some c
    → IsDeadlocked c
run-IsDeadlocked config answer es c e =
    let s = run-IsStalled es (new_conn config answer) c (new-IsStalled config answer) e in
    record {
      unreturned = s.pending;
      not_closed = s.open_still;
      stuck = λ i g es' c' e'. run-IsStuck i es' c c' s g e';
    }
