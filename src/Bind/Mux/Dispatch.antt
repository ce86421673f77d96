-- ===== src/Bind/Mux/Dispatch.antt =====
-- iface/bind/udp_mux.go: to which connections HandleSTUNMessage forwards a packet.
use punch.Common.{
  ℕ, zero, suc, ◌≡◌, refl, ◌∙◌, true, false, Option, none, some, List, [], ◌∷◌, ◌++◌, ◌==◌, nat_eq,
  string_eq, get_elem?, if◌then◌else◌, Bool-cases, Option-cases, inl, inr, ◌⊎◌,
}
use punch.Common.Map.{lookup}
use punch.Bind.Addr.{UdpAddr, udp, is_ipv6}
use punch.Bind.Mux.{
  Mux, MuxedConn, Net, StunMessage, key_of, exists_key, add_destination, by_username, stored_conns,
  destinations, queue_packet, deliver, handle_stun_message, update_conn,
}
use punch.Bind.Mux.Heap.{get_elem?-update_conn, apply_to}

abbrev pub times {ℓ} : {A : Type ℓ} → ℕ → (A → A) → A → A
times zero f a = a
times (suc n) f a = times n f (f a)

abbrev pub count : ℕ → List ℕ → ℕ
count j [] = 0
count j (id ∷ ids) = let rest = count j ids in if id == j then suc rest else rest

module _ {B : Type 0} where
  -- `ids` with the connection `named` behind them, unless one of them has its key.
  abbrev pub WithNamed : List (MuxedConn B) → Option ℕ → List ℕ → List ℕ → Type 0
  WithNamed heap none stored ids = ids ≡ stored
  WithNamed heap (some id) stored ids =
      ((exists_key heap (key_of heap id) stored ≡ true) × (ids ≡ stored))
      ⊎ ((exists_key heap (key_of heap id) stored ≡ false) × (ids ≡ stored ++ id ∷ []))

  add_destination-WithNamed :
      (heap : List (MuxedConn B)) (named : Option ℕ) (stored : List ℕ)
      → WithNamed heap named stored (add_destination heap named stored)
  unfolding add_destination
  add_destination-WithNamed heap none stored = refl
  add_destination-WithNamed heap (some id) stored =
      elim (Bool-cases (exists_key heap (key_of heap id) stored)) [
        | inl e ↦ inl (e, rw e)
        | inr e ↦ inr (e, rw e)
      ]

  -- The packet is queued at `id` once for each time that `id` stands among the destinations.
  pub get_elem?-deliver :
      (net : Net B) (ids bytes : List ℕ) (addr : UdpAddr) (heap : List (MuxedConn B)) (j : ℕ)
      → get_elem? (deliver net ids bytes addr heap) j
        ≡ apply_to (times (count j ids) (queue_packet net bytes addr)) (get_elem? heap j)
  unfolding deliver
  get_elem?-deliver net [] bytes addr heap j = elim (Option-cases (get_elem? heap j)) [
    | inl e ↦ rw (e, apply_to)
    | inr (c, e) ↦ rw (e, apply_to)
  ]
  get_elem?-deliver net (id ∷ ids) bytes addr heap j =
      let f = queue_packet net bytes addr in
      get_elem?-deliver net ids bytes addr (update_conn id f heap) j
      ∙ rw (get_elem?-update_conn id j f heap) (elim (Bool-cases (id == j)) [
        | inl e ↦ rw e (elim (Option-cases (get_elem? heap j)) [
          | inl g ↦ rw (g, apply_to)
          | inr (c, g) ↦ rw (g, apply_to)
        ])
        | inr e ↦ rw e
      ])

  pub handle_stun_message-delivers :
      (net : Net B) (msg : StunMessage) (a : UdpAddr) (m : Mux B)
      → let stored = stored_conns (lookup (net.to_string (udp a)) m.address_map) in
        let named = by_username msg.username (is_ipv6 (udp a)) m in
        let m' = (handle_stun_message net msg (udp a) m).0 in
        (ids : List ℕ) × WithNamed m.heap named stored ids
        × ((j : ℕ)
            → get_elem? m'.heap j
              ≡ apply_to (times (count j ids) (queue_packet net msg.raw a)) (get_elem? m.heap j))
        × (m' ≡ record m { heap = m'.heap })
  unfolding handle_stun_message destinations
  handle_stun_message-delivers net msg a m =
      let stored = stored_conns (lookup (net.to_string (udp a)) m.address_map) in
      let named = by_username msg.username (is_ipv6 (udp a)) m in
      (
        add_destination m.heap named stored,
        add_destination-WithNamed m.heap named stored,
        λ j. get_elem?-deliver net _ msg.raw a m.heap j,
        refl,
      )
