-- ===== src/Bind/Mux/Closing.antt =====
-- iface/bind/udp_mux.go: what Close leaves of a mux.
use punch.Common.{
  ℕ, String, ◌≡◌, Bool, true, false, not, none, some, List, [], ◌∷◌, ◌==◌, nat_eq, string_eq, arith,
  get_elem?, if◌then◌else◌, Bool-cases, Option-cases, inl, inr, ◌⊎◌, err,
}
use punch.Common.Map.{Map, lookup}
use punch.Bind.Addr.{Addr}
use punch.Bind.Mux.{
  Mux, MuxedConn, Net, closed_pipe, invalid_address, find_conn, get_conn, write_to, update_conn,
  close, close_all, close_muxed_conn,
}
use punch.Bind.Mux.Heap.{get_elem?-update_conn}

module _ {B : Type 0} where
  abbrev pub is_open : List (MuxedConn B) → ℕ → Bool
  is_open heap id = elim (get_elem? heap id) [ none ↦ false | some c ↦ not c.closed ]

module _ {B : Type 0} (net : Net B) where
  close-is_open :
      (id j : ℕ) (heap : List (MuxedConn B))
      → is_open (update_conn id (close_muxed_conn net) heap) j
        ≡ (if id == j then false else is_open heap j)
  unfolding close_muxed_conn
  close-is_open id j heap = elim (Option-cases (get_elem? heap j)) [
    | inl e ↦ ground (arith, get_elem?-update_conn id j (close_muxed_conn net) heap)
    | inr (c, e) ↦ ground (arith, get_elem?-update_conn id j (close_muxed_conn net) heap)
  ]

  -- A connection that is closed stays so.
  close_all-stays :
      (conns : Map String ℕ) (heap : List (MuxedConn B)) (j : ℕ)
      → is_open heap j ≡ false
      → is_open (close_all net conns heap) j ≡ false
  unfolding close_all
  close_all-stays [] heap j h = h
  close_all-stays ((u, id) ∷ rest) heap j h =
      close_all-stays rest (update_conn id (close_muxed_conn net) heap) j
        (ground (arith, close-is_open id j heap))

  close_all-closes :
      (conns : Map String ℕ) (heap : List (MuxedConn B)) (u : String) (id : ℕ)
      → lookup u conns ≡ some id
      → is_open (close_all net conns heap) id ≡ false
  unfolding close_all lookup
  close_all-closes [] heap u id h = cc
  close_all-closes ((w, j) ∷ rest) heap u id h = elim (Bool-cases (w == u)) [
    | inl e ↦
        close_all-stays rest (update_conn j (close_muxed_conn net) heap) id
          (ground (arith, close-is_open j id heap))
    | inr e ↦ close_all-closes rest (update_conn j (close_muxed_conn net) heap) u id (ground arith)
  ]

  closed_in_both :
      (m : Mux B) (u : String) (v6 : Bool) (id : ℕ)
      → find_conn u v6 m ≡ some id
      → is_open (close_all net m.conns_ipv6 (close_all net m.conns_ipv4 m.heap)) id ≡ false
  unfolding find_conn
  closed_in_both m u true id h = close_all-closes m.conns_ipv6 _ u id h
  closed_in_both m u false id h =
      close_all-stays m.conns_ipv6 _ id (close_all-closes m.conns_ipv4 m.heap u id h)

  close_heap :
      (m : Mux B)
      → m.closed ≡ false
      → (close net m).heap ≡ close_all net m.conns_ipv6 (close_all net m.conns_ipv4 m.heap)
  unfolding close
  close_heap m o = ground arith

  write_to-closed :
      (id : ℕ) (bytes : List ℕ) (to : Addr) (m : Mux B)
      → is_open m.heap id ≡ false
      → write_to net id bytes to m ≡ (m, err closed_pipe)
  unfolding write_to
  write_to-closed id bytes to m h = ground arith

  close_closed : (m : Mux B) → (close net m).closed ≡ true
  unfolding close
  close_closed m = ground arith

  close_again : (m : Mux B) → m.closed ≡ true → close net m ≡ m
  unfolding close
  close_again m c = ground arith

  get_conn-refused :
      (ufrag : String) (addr : Addr) (m : Mux B)
      → m.closed ≡ true
      → (get_conn net ufrag addr m ≡ (m, err closed_pipe))
        ⊎ (get_conn net ufrag addr m ≡ (m, err invalid_address))
  unfolding get_conn
  get_conn-refused ufrag addr m c = ground arith

  -- After Close on an open mux every connection that could be found refuses to write, GetConn
  -- refuses every ufrag and changes nothing, and another Close changes nothing either.
  pub close_refuses :
      (m : Mux B)
      → m.closed ≡ false
      → let m' = close net m in
        ((u : String) (v6 : Bool) (id : ℕ) (bytes : List ℕ) (to : Addr)
          → find_conn u v6 m ≡ some id
          → write_to net id bytes to m' ≡ (m', err closed_pipe))
        × ((ufrag : String) (addr : Addr)
            → (get_conn net ufrag addr m' ≡ (m', err closed_pipe))
              ⊎ (get_conn net ufrag addr m' ≡ (m', err invalid_address)))
        × (close net m' ≡ m')
  close_refuses m o = (
    λ u v6 id bytes to h.
        write_to-closed id bytes to (close net m)
          (rw (close_heap m o) (closed_in_both m u v6 id h)),
    λ ufrag addr. get_conn-refused ufrag addr (close net m) (close_closed m),
    close_again (close net m) (close_closed m),
  )
