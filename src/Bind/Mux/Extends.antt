-- ===== src/Bind/Mux/Extends.antt =====
-- iface/bind: operations that leave each connection its key and its addresses.
use punch.Common.{
  ℕ, String, ◌≡◌, refl, ◌∙◌, true, some, List, [], ◌∷◌, ◌++◌, nat_eq, string_eq, arith,
  get_elem?-append, get_elem?-length,
}
use punch.Common.Map.{Map}
use punch.Bind.Addr.{UdpAddr}
use punch.Bind.Mux.{
  MuxedConn, Net, key_of, append_address, contains_string, update_conn, close_all, close_muxed_conn,
  queue_packet, deliver, read_held,
}
use punch.Bind.Mux.Heap.{lists, contains_string-append, key_of-update_conn, lists-update_conn}

module _ {B : Type 0} where
  -- Heaps in which each connection has its key still, and lists what it did.
  pub record Extends (old new : List (MuxedConn B)) : Type 0 where
    pub keys : (j : ℕ) (u : String) → key_of old j ≡ some u → key_of new j ≡ some u
    pub addrs : (a : String) (j : ℕ) → lists a old j ≡ true → lists a new j ≡ true

  pub Extends-refl : (heap : List (MuxedConn B)) → Extends heap heap
  Extends-refl heap = record { keys = λ j u h. h; addrs = λ a j h. h }

  pub Extends-trans : {a b c : List (MuxedConn B)} → Extends a b → Extends b c → Extends a c
  Extends-trans p q = record {
    keys = λ j u h. q.keys j u (p.keys j u h);
    addrs = λ x j h. q.addrs x j (p.addrs x j h);
  }

  -- A method that keeps the key and the addresses.
  pub record Keeps (f : MuxedConn B → MuxedConn B) : Type 0 where
    pub key : (c : MuxedConn B) → (f c).key ≡ c.key
    pub addrs :
        (a : String) (c : MuxedConn B)
        → contains_string a c.addresses ≡ true
        → contains_string a (f c).addresses ≡ true

  pub update_conn-Extends :
      (f : MuxedConn B → MuxedConn B) (id : ℕ) (heap : List (MuxedConn B))
      → Keeps f
      → Extends heap (update_conn id f heap)
  update_conn-Extends f id heap k = record {
    keys = λ j u h. key_of-update_conn id j f heap k.key ∙ h;
    addrs = λ a j h. lists-update_conn a id j f heap (k.addrs a) h;
  }

  pub append_address-Keeps : (addr : String) → Keeps (append_address addr)
  unfolding append_address
  append_address-Keeps addr = record {
    key = λ c. refl;
    addrs = λ a c h. rw (contains_string-append a addr c.addresses) (rw h);
  }

module _ {B : Type 0} (net : Net B) where
  pub close_muxed_conn-Keeps : Keeps (close_muxed_conn net)
  unfolding close_muxed_conn
  close_muxed_conn-Keeps = record { key = λ c. ground arith; addrs = λ a c h. ground arith }

  pub queue_packet-Keeps : (bytes : List ℕ) (a : UdpAddr) → Keeps (queue_packet net bytes a)
  unfolding queue_packet
  queue_packet-Keeps bytes a = record { key = λ c. ground arith; addrs = λ x c h. ground arith }

  pub read_held-Keeps : (held : List ℕ) (room : ℕ) → Keeps (λ c. (read_held net held room c).0)
  unfolding read_held
  read_held-Keeps held room = record { key = λ c. ground arith; addrs = λ x c h. ground arith }

  pub deliver-Extends :
      (ids bytes : List ℕ) (a : UdpAddr) (heap : List (MuxedConn B))
      → Extends heap (deliver net ids bytes a heap)
  unfolding deliver
  deliver-Extends [] bytes a heap = Extends-refl heap
  deliver-Extends (id ∷ ids) bytes a heap =
      Extends-trans (update_conn-Extends _ id heap (queue_packet-Keeps bytes a))
        (deliver-Extends ids bytes a _)

  pub close_all-Extends :
      (conns : Map String ℕ) (heap : List (MuxedConn B)) → Extends heap (close_all net conns heap)
  unfolding close_all
  close_all-Extends [] heap = Extends-refl heap
  close_all-Extends ((u, id) ∷ rest) heap =
      Extends-trans (update_conn-Extends _ id heap close_muxed_conn-Keeps)
        (close_all-Extends rest _)

  pub append-Extends : (heap : List (MuxedConn B)) (c : MuxedConn B) → Extends heap (heap ++ c ∷ [])
  unfolding key_of lists
  append-Extends heap c = record {
    keys = λ j u h. ground (arith, get_elem?-append heap c j, get_elem?-length heap);
    addrs = λ a j h. ground (arith, get_elem?-append heap c j, get_elem?-length heap);
  }
