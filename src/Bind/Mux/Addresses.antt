-- ===== src/Bind/Mux/Addresses.antt =====
-- iface/bind/udp_mux.go and udp_muxed_conn.go: the addresses under which connections are
-- registered, by WriteTo and RemoveConnByUfrag.
use punch.Common.{
  ℕ, String, ◌≡◌, refl, Bool, true, false, ◌||◌, none, some, List, [], ◌∷◌, ◌++◌, ◌==◌, nat_eq,
  string_eq, arith, get_elem?, if◌then◌else◌,
}
use punch.Common.Map.{Map, lookup, erase, lookup-insert, lookup-erase}
use punch.Bind.Addr.{Addr}
use punch.Bind.Mux.{
  Mux, MuxedConn, Net, find_conn, write_to, add_address, register_conn_for_address, contains_string,
  update_conn, append_address, remove_conn_by_ufrag, erase_addresses, addresses_of,
}
use punch.Bind.Mux.Heap.{get_elem?-update_conn, lists, contains_string-append}

-- Whether `id` is among the connections registered at an address.
abbrev pub member : ℕ → List ℕ → Bool
member id [] = false
member id (j ∷ ids) = id == j || member id ids

pub member-append :
    (id j : ℕ) (ids : List ℕ) → member j (ids ++ id ∷ []) ≡ (if member j ids then true else j == id)
member-append id j [] = ground arith
member-append id j (k ∷ ids) = ground (arith, member-append id j ids)

abbrev pub registered_at : {B : Type 0} → String → Mux B → List ℕ
registered_at addr m = elim (lookup addr m.address_map) [ none ↦ [] | some ids ↦ ids ]

module _ {B : Type 0} (net : Net B) where
  pub heap-add_address :
      (id : ℕ) (addr : String) (m : Mux B)
      → (add_address id addr m).heap ≡ update_conn id (append_address addr) m.heap
  unfolding add_address
  heap-add_address id addr m = ground arith

  pub lists-add_address :
      (id : ℕ) (addr : String) (m : Mux B) (c : MuxedConn B)
      → get_elem? m.heap id ≡ some c
      → lists addr (add_address id addr m).heap id ≡ true
  unfolding lists append_address
  lists-add_address id addr m c h = rw (heap-add_address id addr m) (
      ground (
        arith,
        get_elem?-update_conn id id (append_address addr) m.heap,
        contains_string-append addr addr c.addresses,
        string_eq.same_iff addr addr,
      ))

  pub write_to-listed :
      (id : ℕ) (bytes : List ℕ) (to : Addr) (m : Mux B)
      → lists (net.to_string to) m.heap id ≡ true
      → (write_to net id bytes to m).0 ≡ m
  unfolding write_to lists
  write_to-listed id bytes to m h = ground arith

  -- A write to an address that the connection has not yet written to.
  module _ (id : ℕ) (c : MuxedConn B) (bytes : List ℕ) (to : Addr) (m : Mux B) where
    abbrev text : String
    text = net.to_string to

    write_to-new :
        get_elem? m.heap id ≡ some c
        → c.closed ≡ false
        → contains_string text c.addresses ≡ false
        → (write_to net id bytes to m).0 ≡ add_address id text m
    unfolding write_to
    write_to-new h o n = ground arith

    pub lookup-add_address :
        (a : String)
        → m.closed ≡ false
        → lookup a (add_address id text m).address_map
          ≡ (if text == a then some (registered_at text m ++ id ∷ []) else lookup a m.address_map)
    unfolding add_address register_conn_for_address
    lookup-add_address a o = ground (
      arith,
      lookup-insert text a (id ∷ []) m.address_map,
      lookup-insert text a (registered_at text m ++ id ∷ []) m.address_map,
    )

    -- The first write of an open connection to an address puts it behind the connections that
    -- are registered there, and registers nothing anywhere else; each later write to that
    -- address by the connection changes nothing.
    pub write_to-registers :
        get_elem? m.heap id ≡ some c
        → c.closed ≡ false
        → m.closed ≡ false
        → contains_string text c.addresses ≡ false
        → let m' = (write_to net id bytes to m).0 in
          ((a : String)
            → lookup a m'.address_map ≡ (
                if text == a
                then some (registered_at text m ++ id ∷ [])
                else lookup a m.address_map))
          × ((again : List ℕ) → (write_to net id again to m').0 ≡ m')
    write_to-registers h o mo n = rw (write_to-new h o n) (
      λ a. lookup-add_address a mo,
      λ again.
          write_to-listed id again to (add_address id text m) (lists-add_address id text m c h),
    )

-- What RemoveConnByUfrag does to the three maps.
lookup-erase_addresses :
    (a : String) (xs : List String) (am : Map String (List ℕ))
    → lookup a (erase_addresses xs am) ≡ (if contains_string a xs then none else lookup a am)
unfolding erase_addresses contains_string
lookup-erase_addresses a [] am = refl
lookup-erase_addresses a (x ∷ xs) am = ground (
  arith,
  lookup-erase_addresses a xs (erase x am),
  lookup-erase x a am,
  string_eq.same_iff x a,
  string_eq.same_iff a x,
)

module _ {B : Type 0} (ufrag : String) (m : Mux B) where
  -- Whether a connection that is found for `ufrag` lists an address.
  abbrev pub removed_lists : String → Bool
  removed_lists a =
      contains_string a (addresses_of (lookup ufrag m.conns_ipv4) m.heap)
      || contains_string a (addresses_of (lookup ufrag m.conns_ipv6) m.heap)

  -- After RemoveConnByUfrag no connection is found for the ufrag, in either family, and all
  -- others are found as before; an address is forgotten, with whatever is registered there,
  -- exactly where a removed connection lists it; and no connection itself is changed.
  pub remove_conn_by_ufrag_maps :
      let m' = remove_conn_by_ufrag ufrag m in
      ((u : String) (v6 : Bool)
        → find_conn u v6 m' ≡ (if ufrag == u then none else find_conn u v6 m))
      × ((a : String)
          → lookup a m'.address_map ≡ (if removed_lists a then none else lookup a m.address_map))
      × (m'.heap ≡ m.heap)
  unfolding remove_conn_by_ufrag find_conn
  remove_conn_by_ufrag_maps = (
    λ u v6. ground (arith, lookup-erase ufrag u m.conns_ipv4, lookup-erase ufrag u m.conns_ipv6),
    λ a. ground (
      arith,
      lookup-erase_addresses a (addresses_of (lookup ufrag m.conns_ipv4) m.heap) m.address_map,
      lookup-erase_addresses a (addresses_of (lookup ufrag m.conns_ipv6) m.heap)
          (erase_addresses (addresses_of (lookup ufrag m.conns_ipv4) m.heap) m.address_map),
    ),
    refl,
  )
