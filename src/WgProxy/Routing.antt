-- ===== src/WgProxy/Routing.antt =====
-- client/internal/wgproxy/proxy_ebpf.go: where packets go, over any course of events.
use punch.Common.{ℕ, ◌≤◌, ◌%◌, ◌≡◌, ◌≢◌, some, List, [], ◌∷◌, arith, nat_eq, Result, ok, err}
use punch.Common.Map.{lookup, lookup-erase}
use punch.WgProxy.{
  Error, WgEbpfProxy, Endpoint, Event, add, from_turn, turn_ends, from_wg, to_turn, to_endpoint,
  add_turn_conn, store_turn_conn, remove_turn_conn, route, send_pkg, step, run,
}
use punch.WgProxy.Ports.{IsSound, Stored, store_turn_conn-Stored, remove_turn_conn-IsSound}

module _ {C : Type 0} where
  -- The goroutine of the endpoint on `port` does not end in these events.
  abbrev pub NeverEnds : ℕ → List (Event C) → Type 0
  NeverEnds port [] = Unit
  NeverEnds port (turn_ends q ∷ es) = (q ≢ port) × NeverEnds port es
  NeverEnds port (add c ∷ es) = NeverEnds port es
  NeverEnds port (from_turn q bytes ∷ es) = NeverEnds port es
  NeverEnds port (from_wg q bytes ∷ es) = NeverEnds port es

  -- `p'` is sound, and every connection of `p` has its port still.
  record KeepsConns (p p' : WgEbpfProxy C) : Type 0 where
    sound : IsSound p'
    keeps :
        (port : ℕ) (c : C)
        → lookup port p.turn_conn_store ≡ some c
        → lookup port p'.turn_conn_store ≡ some c

  to_endpoint-KeepsConns :
      (c : C) (p : WgEbpfProxy C) (r : WgEbpfProxy C × Result Error ℕ)
      → IsSound p
      → Stored c p r
      → KeepsConns p (to_endpoint r).0
  unfolding to_endpoint
  to_endpoint-KeepsConns c p (p', err e) sound (same, _, _) =
      rw same (record { sound = sound; keeps = λ port d h. h })
  to_endpoint-KeepsConns c p (p', ok np) sound (sound', low, high, fresh, laws) = record {
    sound = sound';
    keeps = λ port d h. ground (arith, laws port, fresh, h);
  }

  add_turn_conn-KeepsConns :
      (c : C) (p : WgEbpfProxy C) → IsSound p → KeepsConns p (add_turn_conn c p).0
  unfolding add_turn_conn
  add_turn_conn-KeepsConns c p sound =
      to_endpoint-KeepsConns c p (store_turn_conn c p) sound (store_turn_conn-Stored c p sound)

  -- Whatever happens, a sound proxy stays sound.
  pub step-IsSound : (e : Event C) (p : WgEbpfProxy C) → IsSound p → IsSound (step e p).0
  unfolding step
  step-IsSound (add c) p sound = (add_turn_conn-KeepsConns c p sound).sound
  step-IsSound (turn_ends port) p sound = remove_turn_conn-IsSound port p sound
  step-IsSound (from_turn port bytes) p sound = sound
  step-IsSound (from_wg port bytes) p sound = sound

  -- Any events keep the store of the relayed connections sound: each has a port from 1 to 65535,
  -- there are 65535 at most, and the port given out last is not above 65535.
  pub run-IsSound : (es : List (Event C)) (p : WgEbpfProxy C) → IsSound p → IsSound (run es p)
  unfolding run
  run-IsSound [] p sound = sound
  run-IsSound (e ∷ es) p sound = run-IsSound es (step e p).0 (step-IsSound e p sound)

  lookup-run :
      (es : List (Event C)) (p : WgEbpfProxy C) (port : ℕ) (c : C)
      → IsSound p
      → NeverEnds port es
      → lookup port p.turn_conn_store ≡ some c
      → lookup port (run es p).turn_conn_store ≡ some c
  unfolding run step
  lookup-run [] p port c sound n h = h
  lookup-run (add d ∷ es) p port c sound n h =
      let kept = add_turn_conn-KeepsConns d p sound in
      lookup-run es (add_turn_conn d p).0 port c kept.sound n (kept.keeps port c h)
  lookup-run (turn_ends q ∷ es) p port c sound n h =
      lookup-run es (remove_turn_conn q p) port c (remove_turn_conn-IsSound q p sound) n.1
        (ground (arith, lookup-erase q port p.turn_conn_store, n.0, h))
  lookup-run (from_turn q bytes ∷ es) p port c sound n h = lookup-run es p port c sound n h
  lookup-run (from_wg q bytes ∷ es) p port c sound n h = lookup-run es p port c sound n h

  endpoint_of :
      (c : C) (p : WgEbpfProxy C) (r : WgEbpfProxy C × Result Error ℕ) (e : Endpoint)
      → IsSound p
      → Stored c p r
      → (to_endpoint r).1 ≡ ok e
      → IsSound (to_endpoint r).0
        × (lookup e.port (to_endpoint r).0.turn_conn_store ≡ some c)
        × (e.port ≤ 65535)
  unfolding to_endpoint
  endpoint_of c p (p', err x) e sound s h = ground arith
  endpoint_of c p (p', ok np) e sound (sound', low, high, fresh, laws) h =
      let same : np ≡ e.port = ground arith in
      (sound', ground (arith, laws e.port, same), omega (arith, same, high))

  -- Once `AddTurnConn` has returned an endpoint for a connection, what WireGuard sends to its
  -- port goes to that connection, and so does the answer to a packet that `proxyToLocal` sent
  -- for it, after any events in which the endpoint's own goroutine does not end: the port is
  -- given to no other connection, however many are added and end in between.
  pub delivers :
      (c : C) (p : WgEbpfProxy C) (e : Endpoint) (es : List (Event C)) (bytes : List ℕ)
      → IsSound p
      → (add_turn_conn c p).1 ≡ ok e
      → NeverEnds e.port es
      → ((step (from_wg e.port bytes) (run es (add_turn_conn c p).0)).1 ≡ to_turn c bytes)
        × ((sent : List ℕ)
            → route
                (send_pkg (run es (add_turn_conn c p).0) sent e.port).src_port
                (run es (add_turn_conn c p).0)
              ≡ some c)
  unfolding add_turn_conn step route send_pkg
  delivers c p e es bytes sound added never =
      let (sound', stored, small) =
        endpoint_of c p (store_turn_conn c p) e sound (store_turn_conn-Stored c p sound) added in
      let found =
        lookup-run es (to_endpoint (store_turn_conn c p)).0 e.port c sound' never stored in
      let same : e.port % 65536 ≡ e.port = omega arith in
      (rw same (rw found), λ sent. rw same found)
