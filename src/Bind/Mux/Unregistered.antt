-- ===== src/Bind/Mux/Unregistered.antt =====
-- iface/bind/udp_mux.go: a connection that RemoveConnByUfrag of another one has unregistered.
use punch.Common.{
  ℕ, String, ◌≡◌, refl, ◌∙◌, true, false, ◌&&◌, none, List, [], ◌∷◌, ◌==◌, nat_eq, string_eq, arith,
  if◌then◌else◌, Bool-cases, inl, inr,
}
use punch.Common.Map.{lookup}
use punch.Bind.Addr.{Addr, udp, other, is_ipv6}
use punch.Bind.Mux.{
  Mux, MuxedConn, Net, Op, get, write, read, conn_closes, remove, stun, closes, get_conn, write_to,
  read_from, close, add_address, destinations, remove_conn_by_ufrag, step, run,
}
use punch.Bind.Mux.Heap.{lists}
use punch.Bind.Mux.Addresses.{
  member, registered_at, member-append, heap-add_address, lookup-add_address, removed_lists,
  remove_conn_by_ufrag_maps, write_to-listed,
}
use punch.Bind.Mux.Extends.{
  Extends, Extends-trans, update_conn-Extends, append_address-Keeps, close_muxed_conn-Keeps,
  read_held-Keeps, deliver-Extends, close_all-Extends, append-Extends,
}
use punch.Bind.Mux.Links.{
  created_heap, created_address_map, get_conn_cases, write_to_cases, add_address_closed,
}
use punch.Bind.Mux.Invariant.{after_close, read_from_cases}

module _ {B : Type 0} (net : Net B) (addr : String) (id : ℕ) where
  -- The connection `id` lists the address and is not registered there.
  record IsLost (m : Mux B) : Type 0 where
    pub listed : lists addr m.heap id ≡ true
    pub unregistered : member id (registered_at addr m) ≡ false

  -- What leaves the addresses registered as they are, and lists no address less.
  extended-IsLost :
      (m m' : Mux B)
      → Extends m.heap m'.heap
      → m'.address_map ≡ m.address_map
      → IsLost m
      → IsLost m'
  extended-IsLost m m' x same l = record {
    listed = x.addrs addr id l.listed;
    unregistered = rw same l.unregistered;
  }

  get_conn-IsLost :
      (ufrag : String) (to : Addr) (m : Mux B) → IsLost m → IsLost (get_conn net ufrag to m).0
  get_conn-IsLost ufrag to m l = elim (get_conn_cases net ufrag to m) [
    | inl e ↦ rw e l
    | inr (_, e) ↦ rw e (
        extended-IsLost m _
          (rw (created_heap net ufrag (is_ipv6 to) m) (append-Extends net m.heap _))
          (created_address_map net ufrag (is_ipv6 to) m) l)
  ]

  -- A write to another address, or by another connection.
  add_address-unregistered :
      (j : ℕ) (c : MuxedConn B) (to : Addr) (m : Mux B)
      → m.closed ≡ false
      → (id == j && net.to_string to == addr) ≡ false
      → member id (registered_at addr m) ≡ false
      → member id (registered_at addr (add_address j (net.to_string to) m)) ≡ false
  add_address-unregistered j c to m o differs lost = ground (
    arith,
    lookup-add_address net j c [] to m addr o,
    member-append j id (registered_at (net.to_string to) m),
    string_eq.same_iff (net.to_string to) addr,
  )

  add_address-IsLost :
      (j : ℕ) (c : MuxedConn B) (to : Addr) (m : Mux B)
      → (id == j && net.to_string to == addr) ≡ false
      → IsLost m
      → IsLost (add_address j (net.to_string to) m)
  add_address-IsLost j c to m differs l =
      let text = net.to_string to in
      let x = update_conn-Extends _ j m.heap (append_address-Keeps text) in
      elim (Bool-cases m.closed) [
        | inl closed ↦ rw (add_address_closed net j text m closed) (extended-IsLost m _ x refl l)
        | inr o ↦ record {
          listed = rw (heap-add_address net j text m) (x.addrs addr id l.listed);
          unregistered = add_address-unregistered j c to m o differs l.unregistered;
        }
      ]

  write_to-IsLost :
      (j : ℕ) (bytes : List ℕ) (to : Addr) (m : Mux B)
      → IsLost m
      → IsLost (write_to net j bytes to m).0
  write_to-IsLost j bytes to m l = elim (Bool-cases (id == j && net.to_string to == addr)) [
    | inl same ↦
        rw
          (write_to-listed net j bytes to m (
            ground
              (arith, l.listed, nat_eq.same_iff id j, string_eq.same_iff (net.to_string to) addr)))
          l
    | inr differs ↦ elim (write_to_cases net j bytes to m) [
      | inl e ↦ rw e l
      | inr (c, _, e) ↦ rw e (add_address-IsLost j c to m differs l)
    ]
  ]

  read_from-IsLost :
      (j : ℕ) (held : List ℕ) (room : ℕ) (m : Mux B)
      → IsLost m
      → IsLost (read_from net j held room m).0
  read_from-IsLost j held room m l = elim (read_from_cases net j held room m) [
    | inl e ↦ rw e l
    | inr e ↦ rw e (
        extended-IsLost m _ (update_conn-Extends _ j m.heap (read_held-Keeps net held room)) refl l)
  ]

  remove-IsLost : (ufrag : String) (m : Mux B) → IsLost m → IsLost (remove_conn_by_ufrag ufrag m)
  remove-IsLost ufrag m l =
      let (_, maps, heap) = remove_conn_by_ufrag_maps ufrag m in
      record { listed = rw heap l.listed; unregistered = ground (arith, maps addr, l.unregistered) }

  close-IsLost : (m : Mux B) → IsLost m → IsLost (close net m)
  unfolding close
  close-IsLost m l = elim m.closed as (λ b. IsLost (if b then m else after_close net m)) [
    | true ↦ l
    | false ↦
        extended-IsLost m _
          (Extends-trans (close_all-Extends net m.conns_ipv4 m.heap)
            (close_all-Extends net m.conns_ipv6 _))
          refl l
  ]

  step-IsLost : (o : Op) (m : Mux B) → IsLost m → IsLost (step net o m)
  unfolding step
  step-IsLost (get ufrag to) m l = get_conn-IsLost ufrag to m l
  step-IsLost (write j bytes to) m l = write_to-IsLost j bytes to m l
  step-IsLost (read j held room) m l = read_from-IsLost j held room m l
  step-IsLost (conn_closes j) m l =
      extended-IsLost m _ (update_conn-Extends _ j m.heap (close_muxed_conn-Keeps net)) refl l
  step-IsLost (remove ufrag) m l = remove-IsLost ufrag m l
  step-IsLost (stun msg (other text)) m l = l
  step-IsLost (stun msg (udp a)) m l =
      extended-IsLost m _
        (deliver-Extends net (destinations msg (net.to_string (udp a)) (is_ipv6 (udp a)) m) msg.raw
          a m.heap)
        refl l
  step-IsLost closes m l = close-IsLost m l

  run-IsLost : (os : List Op) (m : Mux B) → IsLost m → IsLost (run net os m)
  unfolding run
  run-IsLost [] m l = l
  run-IsLost (o ∷ os) m l = run-IsLost os (step net o m) (step-IsLost o m l)

  -- Where a connection that is removed and another one list the same address, nothing is
  -- registered there afterwards; and after any further operations of the mux and of its
  -- connections, in any order, the other one lists the address still and is not registered there.
  pub remove_unregisters_others :
      (ufrag : String) (os : List Op) (m : Mux B)
      → removed_lists ufrag m addr ≡ true
      → lists addr m.heap id ≡ true
      → let m' = remove_conn_by_ufrag ufrag m in
        (lookup addr m'.address_map ≡ none)
        × (lists addr (run net os m').heap id ≡ true)
        × (member id (registered_at addr (run net os m')) ≡ false)
  remove_unregisters_others ufrag os m gone listed =
      let (_, maps, heap) = remove_conn_by_ufrag_maps ufrag m in
      let m' = remove_conn_by_ufrag ufrag m in
      let lost : lookup addr m'.address_map ≡ none = maps addr ∙ rw gone in
      let later =
        run-IsLost os m'
          (record { listed = rw heap listed; unregistered = ground (arith, lost) }) in
      (lost, later.listed, later.unregistered)
