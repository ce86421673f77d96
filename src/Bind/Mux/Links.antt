-- ===== src/Bind/Mux/Links.antt =====
-- iface/bind/udp_mux.go: the links between the maps and the connections, under GetConn and WriteTo.
use punch.Common.{
  ℕ, String, ◌≡◌, refl, ap, sym, ◌∙◌, Bool, true, false, ◌&&◌, Option, none, some, List, [], ◌∷◌,
  ◌++◌, ◌==◌, nat_eq, string_eq, arith, length, get_elem?, if◌then◌else◌, Bool-cases, Option-cases,
  inl, inr, ◌⊎◌, get_elem?-append,
}
use punch.Common.Map.{Map, lookup}
use punch.Bind.Addr.{Addr, is_ipv6}
use punch.Bind.Mux.{
  Mux, MuxedConn, Net, find_conn, get_conn, key_of, write_to, add_address, append_address,
  register_conn_for_address, contains_string, update_conn, create_muxed_conn, new_udp_muxed_conn,
}
use punch.Bind.Mux.Heap.{lists}
use punch.Bind.Mux.Lookups.{find_conn-create, same}
use punch.Bind.Mux.Addresses.{
  member, registered_at, heap-add_address, lists-add_address, lookup-add_address, member-append,
}
use punch.Bind.Mux.Extends.{Extends, update_conn-Extends, append_address-Keeps, append-Extends}

-- The entry of a connection in either map is its key; where a connection is registered, it lists
-- the address; a closed mux finds none.
pub record IsLinked {B : Type 0} (m : Mux B) : Type 0 where
  pub keyed :
      (u : String) (v6 : Bool) (id : ℕ) → find_conn u v6 m ≡ some id → key_of m.heap id ≡ some u
  pub registered :
      (a : String) (ids : List ℕ) (id : ℕ)
      → lookup a m.address_map ≡ some ids
      → member id ids ≡ true
      → lists a m.heap id ≡ true
  pub emptied : m.closed ≡ true → (u : String) (v6 : Bool) → find_conn u v6 m ≡ none

module _ {B : Type 0} where
  pub on_heap-IsLinked :
      (m : Mux B) (heap : List (MuxedConn B))
      → Extends m.heap heap
      → IsLinked m
      → IsLinked (record m { heap = heap })
  unfolding find_conn
  on_heap-IsLinked m heap x l = record {
    keyed = λ u v6 id h. x.keys id u (l.keyed u v6 id h);
    registered = λ a ids id h k. x.addrs a id (l.registered a ids id h k);
    emptied = l.emptied;
  }

module _ {B : Type 0} (net : Net B) where
  key_of-new :
      (ufrag : String) (heap : List (MuxedConn B))
      → key_of (heap ++ new_udp_muxed_conn net ufrag ∷ []) (length heap) ≡ some ufrag
  unfolding key_of new_udp_muxed_conn
  key_of-new ufrag heap =
      ground (arith, get_elem?-append heap (new_udp_muxed_conn net ufrag) (length heap))

  pub created_heap :
      (ufrag : String) (w : Bool) (m : Mux B)
      → (create_muxed_conn net ufrag w m).0.heap ≡ m.heap ++ new_udp_muxed_conn net ufrag ∷ []
  unfolding create_muxed_conn
  created_heap ufrag true m = refl
  created_heap ufrag false m = refl

  pub created_address_map :
      (ufrag : String) (w : Bool) (m : Mux B)
      → (create_muxed_conn net ufrag w m).0.address_map ≡ m.address_map
  unfolding create_muxed_conn
  created_address_map ufrag true m = refl
  created_address_map ufrag false m = refl

  created_open :
      (ufrag : String) (w : Bool) (m : Mux B)
      → (create_muxed_conn net ufrag w m).0.closed ≡ m.closed
  unfolding create_muxed_conn
  created_open ufrag true m = refl
  created_open ufrag false m = refl

  created_keyed :
      (ufrag u : String) (b : Bool) (found : Option ℕ) (heap : List (MuxedConn B)) (id : ℕ)
      → (if ufrag == u && b then some (length heap) else found) ≡ some id
      → (found ≡ some id → key_of heap id ≡ some u)
      → key_of (heap ++ new_udp_muxed_conn net ufrag ∷ []) id ≡ some u
  created_keyed ufrag u b found heap id h old = elim (Bool-cases (ufrag == u && b)) [
    | inl t ↦ ground (arith, key_of-new ufrag heap, string_eq.same_iff ufrag u)
    | inr f ↦
        (append-Extends net heap (new_udp_muxed_conn net ufrag)).keys id u (old (ground arith))
  ]

  create-IsLinked :
      (ufrag : String) (w : Bool) (m : Mux B)
      → m.closed ≡ false
      → IsLinked m
      → IsLinked (create_muxed_conn net ufrag w m).0
  create-IsLinked ufrag w m o l = record {
    keyed = λ u v6 id h. rw (created_heap ufrag w m) (
        created_keyed ufrag u (same w v6) (find_conn u v6 m) m.heap id
          (sym (find_conn-create net ufrag u w v6 m) ∙ h) (l.keyed u v6 id));
    registered = λ a ids id h k. rw (created_heap ufrag w m) (
        (append-Extends net m.heap (new_udp_muxed_conn net ufrag)).addrs a id (
          l.registered a ids id
            (ap (λ (am : Map String (List ℕ)). lookup a am) (sym (created_address_map ufrag w m))
              ∙ h)
            k));
    emptied = λ c u v6. cc (created_open ufrag w m);
  }

  pub get_conn_cases :
      (ufrag : String) (addr : Addr) (m : Mux B)
      → ((get_conn net ufrag addr m).0 ≡ m)
        ⊎ ((m.closed ≡ false)
            × ((get_conn net ufrag addr m).0 ≡ (create_muxed_conn net ufrag (is_ipv6 addr) m).0))
  unfolding get_conn
  get_conn_cases ufrag addr m = ground arith

  pub write_to_cases :
      (id : ℕ) (bytes : List ℕ) (to : Addr) (m : Mux B)
      → ((write_to net id bytes to m).0 ≡ m)
        ⊎ ((c : MuxedConn B) × (get_elem? m.heap id ≡ some c)
            × ((write_to net id bytes to m).0 ≡ add_address id (net.to_string to) m))
  unfolding write_to
  write_to_cases id bytes to m = elim (Option-cases (get_elem? m.heap id)) [
    | inl e ↦ inl (ground arith)
    | inr (c, e) ↦ elim (Bool-cases c.closed) [
      | inl o ↦ inl (ground arith)
      | inr o ↦ elim (Bool-cases (contains_string (net.to_string to) c.addresses)) [
        | inl k ↦ inl (ground arith)
        | inr k ↦ inr (c, e, ground arith)
      ]
    ]
  ]

  pub get_conn-IsLinked :
      (ufrag : String) (addr : Addr) (m : Mux B)
      → IsLinked m
      → IsLinked (get_conn net ufrag addr m).0
  get_conn-IsLinked ufrag addr m l = elim (get_conn_cases ufrag addr m) [
    | inl e ↦ rw e l
    | inr (o, e) ↦ rw e (create-IsLinked ufrag (is_ipv6 addr) m o l)
  ]

  registered-step :
      (a text : String) (id j : ℕ) (stored : Option (List ℕ)) (old ids : List ℕ)
      → (if text == a then some (old ++ id ∷ []) else stored) ≡ some ids
      → member j ids ≡ true
      → ((stored ≡ some ids) ⊎ ((text ≡ a) × ((member j old ≡ true) ⊎ (j ≡ id))))
  registered-step a text id j stored old ids h k = elim (Bool-cases (text == a)) [
    | inr f ↦ inl (ground arith)
    | inl t ↦ elim (Bool-cases (member j old)) [
      | inl was ↦ inr (ground (arith, string_eq.same_iff text a), inl was)
      | inr not_was ↦
          inr (
            ground (arith, string_eq.same_iff text a),
            inr (ground (arith, member-append id j old)),
          )
    ]
  ]

  pub add_address_closed :
      (id : ℕ) (text : String) (m : Mux B)
      → m.closed ≡ true
      → add_address id text m ≡ record m { heap = update_conn id (append_address text) m.heap }
  unfolding add_address register_conn_for_address
  add_address_closed id text m c = ground arith

  find_conn-add_address :
      (id : ℕ) (text u : String) (v6 : Bool) (m : Mux B)
      → find_conn u v6 (add_address id text m) ≡ find_conn u v6 m
  unfolding find_conn add_address register_conn_for_address
  find_conn-add_address id text u v6 m = ground arith

  closed-add_address :
      (id : ℕ) (text : String) (m : Mux B) → (add_address id text m).closed ≡ m.closed
  unfolding add_address register_conn_for_address
  closed-add_address id text m = ground arith

  registered-old :
      (a : String) (j : ℕ) (m : Mux B)
      → IsLinked m
      → member j (registered_at a m) ≡ true
      → lists a m.heap j ≡ true
  registered-old a j m l h = elim (Option-cases (lookup a m.address_map)) [
    | inl e ↦ ground arith
    | inr (ids, e) ↦ l.registered a ids j e (ground arith)
  ]

  add_address-IsLinked :
      (id : ℕ) (c : MuxedConn B) (to : Addr) (m : Mux B)
      → m.closed ≡ false
      → get_elem? m.heap id ≡ some c
      → IsLinked m
      → IsLinked (add_address id (net.to_string to) m)
  add_address-IsLinked id c to m o h l =
      let text = net.to_string to in
      let x : Extends m.heap (add_address id text m).heap =
        rw (heap-add_address net id text m)
          (update_conn-Extends _ id m.heap (append_address-Keeps text)) in
      record {
        keyed = λ u v6 j f.
            x.keys j u (l.keyed u v6 j (sym (find_conn-add_address id text u v6 m) ∙ f));
        registered = λ a ids j f k.
            elim (registered-step a text id j _ (registered_at text m) ids
              (sym (lookup-add_address net id c [] to m a o) ∙ f) k) [
                | inl old ↦ x.addrs a j (l.registered a ids j old k)
                | inr (e, inl was) ↦ rw (← e) (x.addrs text j (registered-old text j m l was))
                | inr (e, inr new) ↦ rw (← e, new) (lists-add_address net id text m c h)
              ];
        emptied = λ e u v6. cc (closed-add_address id text m);
      }

  pub write_to-IsLinked :
      (id : ℕ) (bytes : List ℕ) (to : Addr) (m : Mux B)
      → IsLinked m
      → IsLinked (write_to net id bytes to m).0
  write_to-IsLinked id bytes to m l = elim (write_to_cases id bytes to m) [
    | inl e ↦ rw e l
    | inr (c, h, e) ↦ rw e (elim (Bool-cases m.closed) [
      | inl closed ↦ rw (add_address_closed id (net.to_string to) m closed) (
          on_heap-IsLinked m _
            (update_conn-Extends _ id m.heap (append_address-Keeps (net.to_string to))) l)
      | inr o ↦ add_address-IsLinked id c to m o h l
    ])
  ]
