-- ===== src/WgProxy/Ports.antt =====
-- client/internal/wgproxy/proxy_ebpf.go: the ports that `nextFreePort` gives out.
use punch.Common.{
  ℕ, zero, suc, ◌+◌, ◌-◌, ◌%◌, ◌≤◌, ◌<◌, ◌≡◌, ◌≢◌, refl, ◌∙◌, inl, inr, Option, none, some, arith,
  length, if◌then◌else◌, Result, ok, err, Option-cases, ◌==◌, nat_eq, Bool-cases,
}
use punch.Common.Map.{
  Map, lookup, le-length_of_keys, length-insert, lookup-insert, length-erase-le, lookup-erase,
}
use punch.WgProxy.{
  Error, WgEbpfProxy, out_of_fuel, next_port, search_port, next_free_port, insert_at,
  store_turn_conn, remove_turn_conn, max_turn_conns,
}

-- The port that is tried in round `i`, after the port `last`.
abbrev pub candidate : ℕ → ℕ → ℕ
candidate last i = (last + i) % 65535 + 1

next_port-candidate : (last : ℕ) → last ≤ 65535 → next_port last ≡ candidate last 0
unfolding next_port
next_port-candidate last h = ground arith

module _ {C : Type 0} (store : Map ℕ C) where
  abbrev pub Taken : ℕ → Type 0
  Taken port = lookup port store ≢ none

  -- `port` is the first candidate after `last` that is not in the store.
  pub record NextFree (last port : ℕ) : Type 0 where
    pub round : ℕ
    pub at_round : port ≡ candidate last round
    pub skipped : (i : ℕ) → i < round → Taken (candidate last i)
    pub fresh : lookup port store ≡ none

  abbrev Found : ℕ → ℕ → Option ℕ → Type 0
  Found last fuel none = (i : ℕ) → i < fuel → Taken (candidate last i)
  Found last fuel (some port) = NextFree last port

  -- The candidates after the next one are those after this one, one round later.
  candidate-next :
      (last i : ℕ) → last ≤ 65535 → candidate (candidate last 0) i ≡ candidate last (suc i)
  candidate-next last i h = omega arith

  Taken-later :
      (last rounds : ℕ)
      → last ≤ 65535
      → Taken (candidate last 0)
      → ((i : ℕ) → i < rounds → Taken (candidate (candidate last 0) i))
      → (i : ℕ) → i < suc rounds
      → Taken (candidate last i)
  Taken-later last rounds h now later zero lt = now
  Taken-later last rounds h now later (suc i) lt =
      rw (← candidate-next last i h) (later i (omega arith))

  Found-step :
      (last fuel : ℕ) (r : Option ℕ)
      → last ≤ 65535
      → Taken (candidate last 0)
      → Found (candidate last 0) fuel r
      → Found last (suc fuel) r
  Found-step last fuel none h now later = Taken-later last fuel h now later
  Found-step last fuel (some port) h now n = record {
    round = suc n.round;
    at_round = n.at_round ∙ candidate-next last n.round h;
    skipped = Taken-later last n.round h now n.skipped;
    fresh = n.fresh;
  }

  search_port-Found : (fuel last : ℕ) → last ≤ 65535 → Found last fuel (search_port fuel last store)
  unfolding search_port
  search_port-Found zero last h = λ i lt. elim lt [ ]
  search_port-Found (suc fuel) last h =
      rw (next_port-candidate last h) (elim (Option-cases (lookup (candidate last 0) store)) [
        | inl e ↦
            rw e (record { round = 0; at_round = refl; skipped = λ i lt. elim lt [ ]; fresh = e })
        | inr (c, e) ↦ rw e (
            Found-step last fuel _ h (λ p. cc)
              (search_port-Found fuel (candidate last 0) (omega arith)))
      ])

  -- Were all candidates taken, every port would be, and the store would be full.
  full_of_Taken :
      (last : ℕ)
      → last ≤ 65535
      → ((i : ℕ) → i < 65535 → Taken (candidate last i))
      → 65535 ≤ length store
  full_of_Taken last h taken = le-length_of_keys 65535 store λ q pos le.
      let i = (q - 1 + 65535 - last % 65535) % 65535 in
      let e : candidate last i ≡ q = omega arith in rw e at (taken i (omega arith))

-- What holds of a proxy between two calls.
pub record IsSound {C : Type 0} (p : WgEbpfProxy C) : Type 0 where
  pub last_in_range : p.last_used_port ≤ 65535
  pub not_overfull : length p.turn_conn_store ≤ 65535
  pub ports_in_range : (q : ℕ) → lookup q p.turn_conn_store ≢ none → (0 < q) × (q ≤ 65535)

module _ {C : Type 0} where
  -- A failure for want of ports, or a port that is free and in range.
  abbrev pub Allotted : WgEbpfProxy C → WgEbpfProxy C × Result Error ℕ → Type 0
  Allotted p (p', err e) = (p' ≡ p) × (e ≡ max_turn_conns) × (length p.turn_conn_store ≡ 65535)
  Allotted p (p', ok port) =
      (p' ≡ record p { last_used_port = port })
      × NextFree p.turn_conn_store p.last_used_port port
      × (length p.turn_conn_store < 65535)

  Allotted-of :
      (p : WgEbpfProxy C) (r : Option ℕ)
      → IsSound p
      → length p.turn_conn_store ≢ 65535
      → Found p.turn_conn_store p.last_used_port 65535 r
      → Allotted p (elim r [
        | none ↦ (p, err out_of_fuel)
        | some port ↦ (record p { last_used_port = port }, ok port)
      ])
  Allotted-of p none sound h taken = absurd (
      omega (
        arith,
        sound.not_overfull,
        full_of_Taken p.turn_conn_store p.last_used_port sound.last_in_range taken,
      ))
  Allotted-of p (some port) sound h n = (refl, n, omega (arith, sound.not_overfull))

  -- `nextFreePort` always ends: it fails exactly when 65535 connections are stored, and leaves
  -- the proxy alone then; otherwise it returns the first port, in the cyclic order from 1 to
  -- 65535 behind the port that was last given out, that no stored connection has.
  pub next_free_port-Allotted : (p : WgEbpfProxy C) → IsSound p → Allotted p (next_free_port p)
  unfolding next_free_port
  next_free_port-Allotted p sound = elim (Bool-cases (length p.turn_conn_store == 65535)) [
    | inl full ↦ rw full (refl, refl, ground arith)
    | inr room ↦ rw room (
        Allotted-of p _ sound (λ e. ground arith)
          (search_port-Found p.turn_conn_store 65535 p.last_used_port sound.last_in_range))
  ]

  -- What `storeTurnConn` leaves: the proxy as it was, for want of ports, or one connection more.
  abbrev pub Stored : C → WgEbpfProxy C → WgEbpfProxy C × Result Error ℕ → Type 0
  Stored c p (p', err e) = (p' ≡ p) × (e ≡ max_turn_conns) × (length p.turn_conn_store ≡ 65535)
  Stored c p (p', ok port) =
      IsSound p'
      × (0 < port)
      × (port ≤ 65535)
      × (lookup port p.turn_conn_store ≡ none)
      × ((q : ℕ)
          → lookup q p'.turn_conn_store
            ≡ (if port == q then some c else lookup q p.turn_conn_store))

  Stored-of :
      (c : C) (p p' : WgEbpfProxy C) (port : ℕ)
      → IsSound p
      → p' ≡ record p { last_used_port = port }
      → NextFree p.turn_conn_store p.last_used_port port
      → length p.turn_conn_store < 65535
      → Stored c p (insert_at c (p', ok port))
  unfolding insert_at
  Stored-of c p p' port sound e n room =
      let low : 0 < port = omega (arith, n.at_round) in
      let high : port ≤ 65535 = omega (arith, n.at_round) in
      let laws = λ (q : ℕ). lookup-insert port q c p.turn_conn_store in
      (
        rw e (record {
          last_in_range = high;
          not_overfull = ground (arith, length-insert port c p.turn_conn_store, n.fresh);
          ports_in_range = λ q stored. ground (arith, laws q, sound.ports_in_range q, low, high);
        }),
        low,
        high,
        n.fresh,
        λ q. rw e (laws q),
      )

  insert_at-Stored :
      (c : C) (p : WgEbpfProxy C) (r : WgEbpfProxy C × Result Error ℕ)
      → IsSound p
      → Allotted p r
      → Stored c p (insert_at c r)
  insert_at-Stored c p (p', err e) sound a = unfold insert_at in a
  insert_at-Stored c p (p', ok port) sound a =
      let (e, n, room) = a in Stored-of c p p' port sound e n room

  -- `storeTurnConn` keeps the proxy sound; where it succeeds the port is from 1 to 65535 and
  -- had no connection, and of all ports it alone has another connection afterwards, the one
  -- given; it fails exactly where 65535 connections are stored, and changes nothing then.
  pub store_turn_conn-Stored :
      (c : C) (p : WgEbpfProxy C) → IsSound p → Stored c p (store_turn_conn c p)
  unfolding store_turn_conn
  store_turn_conn-Stored c p sound =
      insert_at-Stored c p (next_free_port p) sound (next_free_port-Allotted p sound)

  pub remove_turn_conn-IsSound :
      (port : ℕ) (p : WgEbpfProxy C) → IsSound p → IsSound (remove_turn_conn port p)
  unfolding remove_turn_conn
  remove_turn_conn-IsSound port p sound = record {
    last_in_range = sound.last_in_range;
    not_overfull = omega (arith, length-erase-le port p.turn_conn_store, sound.not_overfull);
    ports_in_range =
        λ q stored. ground (arith, lookup-erase port q p.turn_conn_store, sound.ports_in_range q);
  }
