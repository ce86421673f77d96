-- ===== src/Bind/Mux/Lookups.antt =====
-- iface/bind/udp_mux.go: which connection GetConn returns.
use punch.Common.{
  ℕ, String, ◌≡◌, refl, Bool, true, false, not, ◌&&◌, none, some, [], ◌∷◌, ◌++◌, ◌==◌, nat_eq,
  string_eq, eq_refl, arith, length, if◌then◌else◌, Bool-cases, Option-cases, inl, inr, ◌⊎◌, Result,
  ok, err,
}
use punch.Common.Map.{lookup-insert}
use punch.Bind.Addr.{Addr, is_ipv6}
use punch.Bind.Mux.{
  Mux, create_muxed_conn, new_udp_muxed_conn, Net, Error, invalid_address, closed_pipe, find_conn,
  get_conn,
}

-- Whether `m` may hand out a connection for a local address.
abbrev pub accepts : {B : Type 0} → Net B → Addr → Mux B → Bool
accepts net addr m = not (
    length m.local_addrs_for_unspecified == 0
    && not (net.to_string m.local_addr == net.to_string addr))

abbrev pub same : Bool → Bool → Bool
same true b = b
same false b = not b

module _ {B : Type 0} (net : Net B) where
  pub find_conn-create :
      (ufrag u : String) (w v6 : Bool) (m : Mux B)
      → find_conn u v6 (create_muxed_conn net ufrag w m).0
        ≡ (if ufrag == u && same w v6 then some (length m.heap) else find_conn u v6 m)
  unfolding find_conn create_muxed_conn
  find_conn-create ufrag u true true m =
      ground (arith, lookup-insert ufrag u (length m.heap) m.conns_ipv6)
  find_conn-create ufrag u true false m = ground arith
  find_conn-create ufrag u false true m = ground arith
  find_conn-create ufrag u false false m =
      ground (arith, lookup-insert ufrag u (length m.heap) m.conns_ipv4)

  -- The connection is known already, or is a new one, open, with nothing queued and registered
  -- nowhere, behind the others; all else of the mux is as before.
  abbrev pub KnownOrNew : String → Bool → Mux B → Mux B → ℕ → Type 0
  KnownOrNew ufrag v6 m m' id =
      ((find_conn ufrag v6 m ≡ some id) × (m' ≡ m))
      ⊎ ((find_conn ufrag v6 m ≡ none)
          × (id ≡ length m.heap)
          × (m' ≡ record m {
            heap =
                m.heap
                ++ record {
                  key = ufrag;
                  addresses = [];
                  buf = net.buffer.new_buffer;
                  closed = false;
                }
                  ∷ [];
            conns_ipv4 = m'.conns_ipv4;
            conns_ipv6 = m'.conns_ipv6;
          }))

  created-KnownOrNew :
      (ufrag : String) (v6 : Bool) (m : Mux B)
      → find_conn ufrag v6 m ≡ none
      → KnownOrNew ufrag v6 m (create_muxed_conn net ufrag v6 m).0 (length m.heap)
  unfolding create_muxed_conn new_udp_muxed_conn
  created-KnownOrNew ufrag true m f = inr (f, refl, refl)
  created-KnownOrNew ufrag false m f = inr (f, refl, refl)

  -- What GetConn returned for `ufrag`, and the mux that it left.
  abbrev pub Handed : String → Addr → Mux B → Mux B × Result Error ℕ → Type 0
  Handed ufrag addr m (m', err e) =
      (m' ≡ m)
      × ((accepts net addr m ≡ false) × (e ≡ invalid_address)
          ⊎ (m.closed ≡ true) × (e ≡ closed_pipe))
  Handed ufrag addr m (m', ok id) =
      (accepts net addr m ≡ true)
      × (m.closed ≡ false)
      × ((u : String) (v6 : Bool)
          → find_conn u v6 m'
            ≡ (if ufrag == u && same (is_ipv6 addr) v6 then some id else find_conn u v6 m))
      × (get_conn net ufrag addr m' ≡ (m', ok id))
      × KnownOrNew ufrag (is_ipv6 addr) m m' id

  module _ (ufrag : String) (addr : Addr) (m : Mux B) where
    get_conn-rejected :
        accepts net addr m ≡ false → get_conn net ufrag addr m ≡ (m, err invalid_address)
    unfolding get_conn
    get_conn-rejected h = ground arith

    get_conn-closed :
        accepts net addr m ≡ true
        → m.closed ≡ true
        → get_conn net ufrag addr m ≡ (m, err closed_pipe)
    unfolding get_conn
    get_conn-closed h c = ground arith

    get_conn-known :
        (id : ℕ)
        → accepts net addr m ≡ true
        → m.closed ≡ false
        → find_conn ufrag (is_ipv6 addr) m ≡ some id
        → get_conn net ufrag addr m ≡ (m, ok id)
    unfolding get_conn
    get_conn-known id h c f = ground arith

    get_conn-new :
        accepts net addr m ≡ true
        → m.closed ≡ false
        → find_conn ufrag (is_ipv6 addr) m ≡ none
        → get_conn net ufrag addr m ≡ create_muxed_conn net ufrag (is_ipv6 addr) m
    unfolding get_conn
    get_conn-new h c f = ground arith

    created_accepts :
        (w : Bool) → accepts net addr (create_muxed_conn net ufrag w m).0 ≡ accepts net addr m
    unfolding create_muxed_conn
    created_accepts true = refl
    created_accepts false = refl

    pub created_closed : (w : Bool) → (create_muxed_conn net ufrag w m).0.closed ≡ m.closed
    unfolding create_muxed_conn
    created_closed true = refl
    created_closed false = refl

    created_pair :
        (w : Bool)
        → create_muxed_conn net ufrag w m
          ≡ ((create_muxed_conn net ufrag w m).0, ok (length m.heap))
    unfolding create_muxed_conn
    created_pair w = refl

  pub same_refl : (b : Bool) → same b b ≡ true
  same_refl true = refl
  same_refl false = refl

  same_eq : (b c : Bool) → same b c ≡ true → b ≡ c
  same_eq true true h = refl
  same_eq true false h = cc
  same_eq false true h = cc
  same_eq false false h = refl

  created-Handed :
      (ufrag : String) (addr : Addr) (m : Mux B)
      → accepts net addr m ≡ true
      → m.closed ≡ false
      → find_conn ufrag (is_ipv6 addr) m ≡ none
      → Handed ufrag addr m (create_muxed_conn net ufrag (is_ipv6 addr) m)
  created-Handed ufrag addr m h c f =
      let v6 = is_ipv6 addr in
      let m' = (create_muxed_conn net ufrag v6 m).0 in
      rw (created_pair ufrag addr m v6) (
        h,
        c,
        λ u w. find_conn-create ufrag u v6 w m,
        get_conn-known ufrag addr m' (length m.heap) (rw (created_accepts ufrag addr m v6) h)
            (rw (created_closed ufrag addr m v6) c)
            (rw (find_conn-create ufrag ufrag v6 v6 m) (rw (eq_refl ufrag, same_refl v6))),
        created-KnownOrNew ufrag v6 m f,
      )

  known-Handed :
      (ufrag : String) (addr : Addr) (m : Mux B) (id : ℕ)
      → accepts net addr m ≡ true
      → m.closed ≡ false
      → find_conn ufrag (is_ipv6 addr) m ≡ some id
      → Handed ufrag addr m (m, ok id)
  known-Handed ufrag addr m id h c f = (
    h,
    c,
    λ u v6. ground (arith, string_eq.same_iff ufrag u, same_eq (is_ipv6 addr) v6, f),
    get_conn-known ufrag addr m id h c f,
    inl (f, refl),
  )

  -- GetConn fails exactly where the address is not the local one, unless the mux listens on an
  -- unspecified address, or where the mux is closed, and changes nothing then. Otherwise the
  -- connection that it returns is the one for the ufrag in the address's family from then on,
  -- all other entries of both maps are as before, and GetConn returns it again with no change. It is
  -- the one that was known, and the mux is as before, or a new one behind the others, with nothing
  -- queued and no address, and all but its entry is as before.
  pub get_conn-Handed :
      (ufrag : String) (addr : Addr) (m : Mux B) → Handed ufrag addr m (get_conn net ufrag addr m)
  get_conn-Handed ufrag addr m = elim (Bool-cases (accepts net addr m)) [
    | inr h ↦ rw (get_conn-rejected ufrag addr m h) (refl, inl (h, refl))
    | inl h ↦ elim (Bool-cases m.closed) [
      | inl c ↦ rw (get_conn-closed ufrag addr m h c) (refl, inr (c, refl))
      | inr c ↦ elim (Option-cases (find_conn ufrag (is_ipv6 addr) m)) [
        | inl f ↦ rw (get_conn-new ufrag addr m h c f) (created-Handed ufrag addr m h c f)
        | inr (id, f) ↦
            rw (get_conn-known ufrag addr m id h c f) (known-Handed ufrag addr m id h c f)
      ]
    ]
  ]
