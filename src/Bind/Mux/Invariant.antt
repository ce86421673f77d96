-- ===== src/Bind/Mux/Invariant.antt =====
-- iface/bind: what holds of the maps of a mux between any two operations, and what Close leaves.
use punch.Common.{
  ℕ, String, ◌≡◌, refl, sym, ◌∙◌, Bool, true, false, none, List, [], ◌∷◌, nat_eq, string_eq, arith,
  get_elem?, if◌then◌else◌, Option-cases, inl, inr, ◌⊎◌,
}
use punch.Common.Map.{lookup}
use punch.Bind.Addr.{udp, other, is_ipv6}
use punch.Bind.Mux.{
  Mux, Net, Op, get, write, read, conn_closes, remove, stun, closes, find_conn, update_conn,
  remove_conn_by_ufrag, close, close_all, read_from, read_held, destinations, step, run,
}
use punch.Bind.Mux.Addresses.{remove_conn_by_ufrag_maps}
use punch.Bind.Mux.Extends.{
  Extends-trans, update_conn-Extends, close_muxed_conn-Keeps, read_held-Keeps, deliver-Extends,
  close_all-Extends,
}
use punch.Bind.Mux.Links.{IsLinked, on_heap-IsLinked, get_conn-IsLinked, write_to-IsLinked}

module _ {B : Type 0} (net : Net B) where
  closed-remove : (ufrag : String) (m : Mux B) → (remove_conn_by_ufrag ufrag m).closed ≡ m.closed
  unfolding remove_conn_by_ufrag
  closed-remove ufrag m = refl

  remove-IsLinked :
      (ufrag : String) (m : Mux B) → IsLinked m → IsLinked (remove_conn_by_ufrag ufrag m)
  remove-IsLinked ufrag m l =
      let (found, maps, heap) = remove_conn_by_ufrag_maps ufrag m in
      record {
        keyed = λ u v6 id h. rw heap (l.keyed u v6 id (ground (arith, found u v6)));
        registered = λ a ids id h k. rw heap (l.registered a ids id (ground (arith, maps a)) k);
        emptied =
            λ c u v6. ground (arith, found u v6, l.emptied (sym (closed-remove ufrag m) ∙ c) u v6);
      }

  -- What Close leaves of an open mux.
  abbrev pub after_close : Mux B → Mux B
  after_close m = record m {
    heap = close_all net m.conns_ipv6 (close_all net m.conns_ipv4 m.heap);
    conns_ipv4 = [];
    conns_ipv6 = [];
    closed = true;
  }

  no_conns : (m : Mux B) (u : String) (v6 : Bool) → find_conn u v6 (after_close m) ≡ none
  unfolding find_conn lookup
  no_conns m u v6 = ground arith

  after_close-IsLinked : (m : Mux B) → IsLinked m → IsLinked (after_close m)
  after_close-IsLinked m l =
      let x =
        Extends-trans (close_all-Extends net m.conns_ipv4 m.heap)
          (close_all-Extends net m.conns_ipv6 _) in
      record {
        keyed = λ u v6 id h. cc (no_conns m u v6);
        registered = λ a ids id h k. x.addrs a id (l.registered a ids id h k);
        emptied = λ c u v6. no_conns m u v6;
      }

  close-IsLinked : (m : Mux B) → IsLinked m → IsLinked (close net m)
  unfolding close
  close-IsLinked m l = elim m.closed as (λ b. IsLinked (if b then m else after_close m)) [
    | true ↦ l
    | false ↦ after_close-IsLinked m l
  ]

  pub read_from_cases :
      (id : ℕ) (held : List ℕ) (room : ℕ) (m : Mux B)
      → ((read_from net id held room m).0 ≡ m)
        ⊎ ((read_from net id held room m).0
            ≡ record m { heap = update_conn id (λ d. (read_held net held room d).0) m.heap })
  unfolding read_from
  read_from_cases id held room m = elim (Option-cases (get_elem? m.heap id)) [
    | inl e ↦ inl (rw (e, read_from))
    | inr (c, e) ↦ inr (rw (e, read_from))
  ]

  read_from-IsLinked :
      (id : ℕ) (held : List ℕ) (room : ℕ) (m : Mux B)
      → IsLinked m
      → IsLinked (read_from net id held room m).0
  read_from-IsLinked id held room m l = elim (read_from_cases id held room m) [
    | inl e ↦ rw e l
    | inr e ↦
        rw e
          (on_heap-IsLinked m _ (update_conn-Extends _ id m.heap (read_held-Keeps net held room)) l)
  ]

  -- Every operation, of the mux or of a connection, keeps the maps linked: a connection is found
  -- under its key only, is registered only at addresses that it lists, and a closed mux finds
  -- none.
  pub step-IsLinked : (o : Op) (m : Mux B) → IsLinked m → IsLinked (step net o m)
  unfolding step
  step-IsLinked (get ufrag addr) m l = get_conn-IsLinked net ufrag addr m l
  step-IsLinked (write id bytes to) m l = write_to-IsLinked net id bytes to m l
  step-IsLinked (read id held room) m l = read_from-IsLinked id held room m l
  step-IsLinked (conn_closes id) m l =
      on_heap-IsLinked m _ (update_conn-Extends _ id m.heap (close_muxed_conn-Keeps net)) l
  step-IsLinked (remove ufrag) m l = remove-IsLinked ufrag m l
  step-IsLinked (stun msg (other text)) m l = l
  step-IsLinked (stun msg (udp a)) m l =
      on_heap-IsLinked m _
        (deliver-Extends net (destinations msg (net.to_string (udp a)) (is_ipv6 (udp a)) m) msg.raw
          a m.heap)
        l
  step-IsLinked closes m l = close-IsLinked m l

  -- Any operations, of the mux or of its connections, in any order, keep its maps linked: a
  -- connection is found under its own key only and is registered only at addresses that it
  -- lists, and a closed mux finds none.
  pub run-IsLinked : (os : List Op) (m : Mux B) → IsLinked m → IsLinked (run net os m)
  unfolding run
  run-IsLinked [] m l = l
  run-IsLinked (o ∷ os) m l = run-IsLinked os (step net o m) (step-IsLinked o m l)
