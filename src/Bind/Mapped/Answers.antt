-- ===== src/Bind/Mapped/Answers.antt =====
-- iface/bind, the mapped addresses: what an answer of a STUN server brings about.
use punch.Common.{
  ℕ, String, ◌≡◌, ◌≤◌, refl, sym, subst, ◌∙◌, Bool, true, false, some, ◌==◌, string_eq, nat_eqb,
  if◌then◌else◌, get_elem?, arith, ok, ltb,
}
use punch.Common.Map.{lookup}
use punch.Bind.Mapped.{
  XorMapped, Universal, update_mapped, set_addr, close_waiters, expired, known_addr, lookup_mapped,
  woken, await, handle_xor_mapped_response, is_xor_mapped_response, handle_stun_message,
}
use punch.Bind.Mapped.Waiting.{IsWaiting, get_elem?-update_mapped, own_entry}

module _ {A : Type 0} where
  answered : ℕ → A → Universal A → Universal A
  answered id a m = record m { heap = update_mapped id (set_addr a) m.heap }

  handled :
      (server : String) (id : ℕ) (a : A) (m : Universal A)
      → lookup server m.xor_mapped_map ≡ some id
      → handle_stun_message server true (some a) m ≡ (answered id a m, false)
  unfolding handle_stun_message handle_xor_mapped_response is_xor_mapped_response answered
  handled server id a m h = rw (h, handle_stun_message, handle_xor_mapped_response) refl

  answered_at :
      (id j : ℕ) (a : A) (e : XorMapped A) (m : Universal A)
      → get_elem? m.heap id ≡ some e
      → get_elem? (answered id a m).heap j
        ≡ (if nat_eqb id j then some (set_addr a e) else get_elem? m.heap j)
  unfolding answered
  answered_at id j a e m h = get_elem?-update_mapped id j (set_addr a) m.heap e h

  -- What an answer `a` of `server` does, whose entry is `id`.
  abbrev pub Woken : String → ℕ → A → Universal A → Universal A × Bool → Type 0
  Woken server id a m (m', passed_on) =
      (passed_on ≡ false)
      × (await id server false m' ≡ some (ok a))
      × ((now : ℕ) (e : XorMapped A)
          → get_elem? m.heap id ≡ some e
          → now ≤ e.expires_at
          → lookup_mapped now server m' ≡ (m', some a))
      × ((other : String) (j : ℕ)
          → (server == other) ≡ false
          → lookup other m.xor_mapped_map ≡ some j
          → (get_elem? m'.heap j ≡ get_elem? m.heap j) × (woken other m' ≡ woken other m))

  woken_now :
      (server : String) (id : ℕ) (a : A) (m : Universal A)
      → IsWaiting m
      → lookup server m.xor_mapped_map ≡ some id
      → await id server false (answered id a m) ≡ some (ok a)
  unfolding await woken answered set_addr close_waiters
  woken_now server id a m w h =
      let (e, at, r) = w.there server id h in
      let here : get_elem? (answered id a m).heap id ≡ some (set_addr a e) =
        ground (arith, answered_at id id a e m at) in
      rw (await, here, h, woken, here) refl

  found_later :
      (server : String) (id now : ℕ) (a : A) (e : XorMapped A) (m : Universal A)
      → lookup server m.xor_mapped_map ≡ some id
      → get_elem? m.heap id ≡ some e
      → now ≤ e.expires_at
      → lookup_mapped now server (answered id a m) ≡ (answered id a m, some a)
  unfolding lookup_mapped known_addr answered set_addr close_waiters expired
  found_later server id now a e m h at young =
      let here : get_elem? (answered id a m).heap id ≡ some (set_addr a e) =
        ground (arith, answered_at id id a e m at) in
      let fresh : ltb e.expires_at now ≡ false = ground arith in
      rw (h, lookup_mapped, here, known_addr, fresh) refl

  others_same :
      (server other : String) (id j : ℕ) (a : A) (m : Universal A)
      → IsWaiting m
      → lookup server m.xor_mapped_map ≡ some id
      → (server == other) ≡ false
      → lookup other m.xor_mapped_map ≡ some j
      → (get_elem? (answered id a m).heap j ≡ get_elem? m.heap j)
        × (woken other (answered id a m) ≡ woken other m)
  unfolding woken answered
  others_same server other id j a m w h differ k =
      let (e, at, r) = w.there server id h in
      let apart = sym (own_entry m server other id j w h k) ∙ differ in
      let there : get_elem? (answered id a m).heap j ≡ get_elem? m.heap j =
        ground (arith, answered_at id j a e m at, apart) in
      (there, rw (k, woken, there) refl)

  -- An answer with an address, from a server that was asked, is not passed on to the UDP mux;
  -- every caller that waits for the server is woken and returns the address, and so does every
  -- later call, with no new request, until the entry is too old. No other server's address and
  -- no other caller's channel changes.
  pub answer-Woken :
      (server : String) (id : ℕ) (a : A) (m : Universal A)
      → IsWaiting m
      → lookup server m.xor_mapped_map ≡ some id
      → Woken server id a m (handle_stun_message server true (some a) m)
  answer-Woken server id a m w h = subst (Woken server id a m) (sym (handled server id a m h)) (
    refl,
    woken_now server id a m w h,
    λ now e at young. found_later server id now a e m h at young,
    λ other j differ k. others_same server other id j a m w h differ k,
  )
