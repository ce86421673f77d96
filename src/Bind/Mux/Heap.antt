-- ===== src/Bind/Mux/Heap.antt =====
-- iface/bind: laws of the heap of muxed connections and of their address lists.
use punch.Common.{
  ℕ, String, ◌≡◌, Bool, true, false, Option, none, some, List, [], ◌∷◌, ◌++◌, ◌==◌, nat_eq,
  string_eq, arith, get_elem?, if◌then◌else◌, Option-cases, inl, inr, get_elem?-set,
}
use punch.Bind.Mux.{MuxedConn, update_conn, key_of, contains_string}

module _ {B : Type 0} where
  abbrev pub apply_to : (MuxedConn B → MuxedConn B) → Option (MuxedConn B) → Option (MuxedConn B)
  apply_to f none = none
  apply_to f (some c) = some (f c)

  pub get_elem?-update_conn :
      (id j : ℕ) (f : MuxedConn B → MuxedConn B) (heap : List (MuxedConn B))
      → get_elem? (update_conn id f heap) j
        ≡ (if id == j then apply_to f (get_elem? heap j) else get_elem? heap j)
  unfolding update_conn
  get_elem?-update_conn id j f heap = elim (Option-cases (get_elem? heap id)) [
    | inl e ↦ ground arith
    | inr (c, e) ↦ ground (arith, get_elem?-set heap id j (f c) c e)
  ]

  -- Whether the connection `id` lists an address.
  unfoldable pub lists : String → List (MuxedConn B) → ℕ → Bool
  lists addr heap id = elim (get_elem? heap id) [
    | none ↦ false
    | some c ↦ contains_string addr c.addresses
  ]

  pub key_of-update_conn :
      (id j : ℕ) (f : MuxedConn B → MuxedConn B) (heap : List (MuxedConn B))
      → ((c : MuxedConn B) → (f c).key ≡ c.key)
      → key_of (update_conn id f heap) j ≡ key_of heap j
  unfolding key_of
  key_of-update_conn id j f heap keeps = elim (Option-cases (get_elem? heap j)) [
    | inl e ↦ ground (arith, get_elem?-update_conn id j f heap)
    | inr (c, e) ↦ ground (arith, get_elem?-update_conn id j f heap, keeps c)
  ]

  pub lists-update_conn :
      (addr : String) (id j : ℕ) (f : MuxedConn B → MuxedConn B) (heap : List (MuxedConn B))
      → ((c : MuxedConn B)
          → contains_string addr c.addresses ≡ true
          → contains_string addr (f c).addresses ≡ true)
      → lists addr heap j ≡ true
      → lists addr (update_conn id f heap) j ≡ true
  unfolding lists
  lists-update_conn addr id j f heap keeps h = elim (Option-cases (get_elem? heap j)) [
    | inl e ↦ ground (arith, get_elem?-update_conn id j f heap)
    | inr (c, e) ↦ ground (arith, get_elem?-update_conn id j f heap, keeps c)
  ]

pub contains_string-append :
    (a b : String) (xs : List String)
    → contains_string a (xs ++ b ∷ []) ≡ (if contains_string a xs then true else a == b)
unfolding contains_string
contains_string-append a b [] = ground arith
contains_string-append a b (x ∷ xs) = ground (arith, contains_string-append a b xs)
