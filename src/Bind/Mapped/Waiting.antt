-- ===== src/Bind/Mapped/Waiting.antt =====
-- iface/bind, the mapped addresses: no caller waits for an answer that nobody will give it.
use punch.Common.{
  ℕ, String, ◌≡◌, refl, sym, subst, ◌∙◌, Bool, true, false, Option, none, some, List, [], ◌∷◌, ◌++◌,
  ◌==◌, string_eq, eq_refl, nat_eqb, nat_eqb_iff, if◌then◌else◌, is_some, length, get_elem?, arith,
  Option-cases, Bool-cases, inl, inr, get_elem?-set, get_elem?-append, get_elem?-length,
}
use punch.Common.Map.{Map, lookup, insert, erase, lookup-insert, lookup-erase}
use punch.Bind.Mapped.{
  XorMapped, Universal, Op, update_mapped, close_waiters, set_addr, expired, known_addr,
  lookup_mapped, new_mapped, entry_for, send_stun, handle_xor_mapped_response,
  is_xor_mapped_response, handle_stun_message, step, run, look, send, receive,
}

lookup-erase-some :
    (server s : String) (j : ℕ) (map : Map String ℕ)
    → lookup s (erase server map) ≡ some j
    → ((server == s) ≡ false) × (lookup s map ≡ some j)
lookup-erase-some server s j map k = ground (arith, lookup-erase server s map, k)

lookup_differs :
    (server s : String) (j : ℕ) (map : Map String ℕ)
    → lookup server map ≡ none
    → lookup s map ≡ some j
    → (server == s) ≡ false
lookup_differs server s j map new h = elim (Bool-cases (server == s)) [
  | inl same ↦
      let new' =
        subst (λ (x : String). lookup x map ≡ none) ((string_eq.same_iff server s).0 same) new in
      absurd (ground (arith, new', h))
  | inr differ ↦ differ
]

module _ {A : Type 0} where
  -- An entry of the map is there, and its channel is closed exactly where it has an address; no
  -- two servers share one; and a channel that is still open has its entry in the map, where the
  -- server's answer and the expiry find it.
  pub record IsWaiting (m : Universal A) : Type 0 where
    pub there :
        (s : String) (id : ℕ)
        → lookup s m.xor_mapped_map ≡ some id
        → (e : XorMapped A) × (get_elem? m.heap id ≡ some e) × (e.received ≡ is_some e.addr)
    pub own :
        (s t : String) (id : ℕ)
        → lookup s m.xor_mapped_map ≡ some id
        → lookup t m.xor_mapped_map ≡ some id
        → s ≡ t
    pub found :
        (id : ℕ) (e : XorMapped A)
        → get_elem? m.heap id ≡ some e
        → e.received ≡ false
        → (s : String) × (lookup s m.xor_mapped_map ≡ some id)

  pub get_elem?-update_mapped :
      (id j : ℕ) (f : XorMapped A → XorMapped A) (heap : List (XorMapped A)) (e : XorMapped A)
      → get_elem? heap id ≡ some e
      → get_elem? (update_mapped id f heap) j
        ≡ (if nat_eqb id j then some (f e) else get_elem? heap j)
  unfolding update_mapped
  get_elem?-update_mapped id j f heap e h =
      rw (h, update_mapped) (get_elem?-set heap id j (f e) e h)

  -- Servers that differ have entries that differ.
  pub own_entry :
      (m : Universal A) (server s : String) (id j : ℕ)
      → IsWaiting m
      → lookup server m.xor_mapped_map ≡ some id
      → lookup s m.xor_mapped_map ≡ some j
      → (server == s) ≡ nat_eqb id j
  own_entry m server s id j w h k = elim (Bool-cases (nat_eqb id j)) [
    | inl same ↦
        let e = (nat_eqb_iff id j).0 same in
        (string_eq.same_iff server s).1
          (w.own server s id h (subst (λ (x : ℕ). lookup s m.xor_mapped_map ≡ some x) (sym e) k))
        ∙ sym same
    | inr differ ↦ elim (Bool-cases (server == s)) [
      | inl one ↦
          let k' =
            subst (λ (x : String). lookup x m.xor_mapped_map ≡ some j)
              (sym ((string_eq.same_iff server s).0 one)) k in
          absurd (ground (arith, h, k', differ))
      | inr two ↦ two ∙ sym differ
    ]
  ]

  -- The expiry of an entry.
  forget-IsWaiting :
      (server : String) (id : ℕ) (m : Universal A)
      → IsWaiting m
      → lookup server m.xor_mapped_map ≡ some id
      → IsWaiting (record m {
        heap = update_mapped id close_waiters m.heap;
        xor_mapped_map = erase server m.xor_mapped_map;
      })
  unfolding close_waiters
  forget-IsWaiting server id m w h =
      let (e0, h0, r0) = w.there server id h in
      let after = λ (j : ℕ). get_elem?-update_mapped id j close_waiters m.heap e0 h0 in
      record {
        there = λ s j k.
            let (differ, k') = lookup-erase-some server s j m.xor_mapped_map k in
            let (e, at, r) = w.there s j k' in
            (e, ground (arith, after j, own_entry m server s id j w h k', differ, at), r);
        own = λ s t j k l.
            w.own s t j (lookup-erase-some server s j m.xor_mapped_map k).1
              (lookup-erase-some server t j m.xor_mapped_map l).1;
        found = λ j e k waits. elim (Bool-cases (nat_eqb id j)) [
          | inl same ↦ absurd (ground (arith, after j, same, k, waits))
          | inr differ ↦
              let (s, k') = w.found j e (ground (arith, after j, differ, k)) waits in
              (
                s,
                ground (
                  arith,
                  lookup-erase server s m.xor_mapped_map,
                  own_entry m server s id j w h k',
                  differ,
                  k',
                ),
              )
        ];
      }

  set_addr-IsWaiting :
      (server : String) (id : ℕ) (a : A) (m : Universal A)
      → IsWaiting m
      → lookup server m.xor_mapped_map ≡ some id
      → IsWaiting (record m { heap = update_mapped id (set_addr a) m.heap })
  unfolding set_addr close_waiters
  set_addr-IsWaiting server id a m w h =
      let (e0, h0, r0) = w.there server id h in
      let after = λ (j : ℕ). get_elem?-update_mapped id j (set_addr a) m.heap e0 h0 in
      record {
        there = λ s j k.
            let (e, at, r) = w.there s j k in
            elim (Bool-cases (nat_eqb id j)) [
              | inl same ↦ (set_addr a e0, ground (arith, after j, same), refl)
              | inr differ ↦ (e, ground (arith, after j, differ, at), r)
            ];
        own = w.own;
        found = λ j e k waits. elim (Bool-cases (nat_eqb id j)) [
          | inl same ↦ absurd (ground (arith, after j, same, k, waits))
          | inr differ ↦ w.found j e (ground (arith, after j, differ, k)) waits
        ];
      }

  fresh_id :
      (m : Universal A) (s : String) (j : ℕ)
      → IsWaiting m
      → lookup s m.xor_mapped_map ≡ some j
      → nat_eqb (length m.heap) j ≡ false
  fresh_id m s j w k = elim (Bool-cases (nat_eqb (length m.heap) j)) [
    | inl same ↦
        let (e, h, r) = w.there s j k in
        let e' = (nat_eqb_iff (length m.heap) j).0 same in
        let none_there =
          subst (λ (x : ℕ). get_elem? m.heap x ≡ none) e' (get_elem?-length m.heap) in
        absurd (ground (arith, none_there, h))
    | inr differ ↦ differ
  ]

  new-IsWaiting :
      (now : ℕ) (server : String) (m : Universal A)
      → IsWaiting m
      → lookup server m.xor_mapped_map ≡ none
      → IsWaiting (record m {
        heap = m.heap ++ new_mapped now m.cache_ttl ∷ [];
        xor_mapped_map = insert server (length m.heap) m.xor_mapped_map;
      })
  unfolding new_mapped
  new-IsWaiting now server m w new =
      let id = length m.heap in
      let e0 = new_mapped now m.cache_ttl in
      let at = λ (j : ℕ). get_elem?-append m.heap e0 j in
      let by = λ (s : String). lookup-insert server s id m.xor_mapped_map in
      record {
        there = λ s j k. elim (Bool-cases (server == s)) [
          | inl same ↦ (e0, ground (arith, by s, same, at j, k), refl)
          | inr differ ↦
              let k' : lookup s m.xor_mapped_map ≡ some j = ground (arith, by s, differ, k) in
              let (e, h, r) = w.there s j k' in (e, ground (arith, at j, fresh_id m s j w k', h), r)
        ];
        own = λ s t j k l. elim (Bool-cases (server == s)) [
          | inl is_s ↦ elim (Bool-cases (server == t)) [
            | inl is_t ↦
                sym ((string_eq.same_iff server s).0 is_s) ∙ (string_eq.same_iff server t).0 is_t
            | inr not_t ↦ absurd (ground (arith, by s, by t, k, l, is_s, not_t, fresh_id m t j w))
          ]
          | inr not_s ↦ elim (Bool-cases (server == t)) [
            | inl is_t ↦ absurd (ground (arith, by s, by t, k, l, not_s, is_t, fresh_id m s j w))
            | inr not_t ↦
                w.own s t j (ground (arith, by s, not_s, k)) (ground (arith, by t, not_t, l))
          ]
        ];
        found = λ j e k waits. elim (Bool-cases (nat_eqb id j)) [
          | inl same ↦ (server, ground (arith, by server, eq_refl server, same))
          | inr differ ↦
              let (s, h) = w.found j e (ground (arith, at j, differ, k)) waits in
              (s, ground (arith, by s, lookup_differs server s j m.xor_mapped_map new h, h))
        ];
      }

  entry_for-IsWaiting :
      (now : ℕ) (server : String) (m : Universal A)
      → IsWaiting m
      → IsWaiting (entry_for now server m).0
  unfolding entry_for new_mapped
  entry_for-IsWaiting now server m w = elim (Option-cases (lookup server m.xor_mapped_map)) [
    | inr (id, known) ↦ rw (known, entry_for) w
    | inl new ↦ rw (new, entry_for) (new-IsWaiting now server m w new)
  ]

  handle-IsWaiting :
      (server : String) (attribute : Option A) (m : Universal A)
      → IsWaiting m
      → IsWaiting (handle_xor_mapped_response server attribute m).0
  unfolding handle_xor_mapped_response
  handle-IsWaiting server none m w = elim (Option-cases (lookup server m.xor_mapped_map)) [
    | inl new ↦ rw (new, handle_xor_mapped_response) w
    | inr (id, h) ↦ rw (h, handle_xor_mapped_response) w
  ]
  handle-IsWaiting server (some a) m w = elim (Option-cases (lookup server m.xor_mapped_map)) [
    | inl new ↦ rw (new, handle_xor_mapped_response) w
    | inr (id, h) ↦ rw (h, handle_xor_mapped_response) (set_addr-IsWaiting server id a m w h)
  ]

  receive-IsWaiting :
      (server : String) (has_attribute : Bool) (attribute : Option A) (m : Universal A)
      → IsWaiting m
      → IsWaiting (handle_stun_message server has_attribute attribute m).0
  unfolding handle_stun_message
  receive-IsWaiting server has_attribute attribute m w =
      elim (Bool-cases (is_xor_mapped_response server has_attribute m)) [
        | inl yes_it_is ↦
            rw (yes_it_is, handle_stun_message) (handle-IsWaiting server attribute m w)
        | inr is_not ↦ rw (is_not, handle_stun_message) w
      ]

  look-IsWaiting :
      (now : ℕ) (server : String) (m : Universal A)
      → IsWaiting m
      → IsWaiting (lookup_mapped now server m).0
  unfolding lookup_mapped known_addr
  look-IsWaiting now server m w = elim (Option-cases (lookup server m.xor_mapped_map)) [
    | inl new ↦ rw (new, lookup_mapped) w
    | inr (id, h) ↦
        let (e, at, r) = w.there server id h in
        elim (Bool-cases (expired now e)) [
          | inl old ↦ rw (h, lookup_mapped, at, known_addr, old) (forget-IsWaiting server id m w h)
          | inr young ↦ rw (h, lookup_mapped, at, known_addr, young) w
        ]
  ]

  send-IsWaiting :
      (now : ℕ) (server : String) (builds writes : Bool) (m : Universal A)
      → IsWaiting m
      → IsWaiting (send_stun now server builds writes m).0
  unfolding send_stun
  send-IsWaiting now server true true m w = entry_for-IsWaiting now server m w
  send-IsWaiting now server true false m w = entry_for-IsWaiting now server m w
  send-IsWaiting now server false writes m w = entry_for-IsWaiting now server m w

  pub step-IsWaiting : (o : Op A) (m : Universal A) → IsWaiting m → IsWaiting (step o m)
  unfolding step
  step-IsWaiting (look now server) m w = look-IsWaiting now server m w
  step-IsWaiting (send now server builds writes) m w = send-IsWaiting now server builds writes m w
  step-IsWaiting (receive server has_attribute attribute) m w =
      receive-IsWaiting server has_attribute attribute m w

  -- Whatever is asked, sent, received and expires, in any order: a channel that is still open
  -- belongs to an entry that the map has, under one server, so that the server's next answer or
  -- the entry's expiry closes it; and an entry has an address exactly where its channel is closed.
  pub run-IsWaiting : (os : List (Op A)) (m : Universal A) → IsWaiting m → IsWaiting (run os m)
  unfolding run
  run-IsWaiting [] m w = w
  run-IsWaiting (o ∷ os) m w = run-IsWaiting os (step o m) (step-IsWaiting o m w)
