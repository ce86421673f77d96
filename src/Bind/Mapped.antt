-- ===== src/Bind/Mapped.antt =====
-- iface/bind/udp_mux_universal.go: the mapped addresses that the STUN servers report, with the
-- callers that wait for one. A `*xorMapped` is an index of the heap; its channel is known by the
-- same index, and is closed where `received` is true.
pub mod Waiting
pub mod Answers
mod Tests
use punch.Common.{
  ℕ, String, Bool, true, false, Option, none, some, List, [], ◌∷◌, ◌++◌, ◌+◌, ltb, length,
  get_elem?, set, ◌==◌, string_eq, if◌then◌else◌, is_some, ◌&&◌, Result, ok, err,
}
use punch.Common.Map.{Map, lookup, insert, erase}

pub record XorMapped (A : Type 0) : Type 0 where
  pub addr : Option A
  pub received : Bool
  pub expires_at : ℕ

pub record Universal (A : Type 0) : Type 0 where
  pub heap : List (XorMapped A)
  pub xor_mapped_map : Map String ℕ
  pub cache_ttl : ℕ

pub data Error : Type 0 where
  build_request write_request no_mapping no_attribute deadline : Error

module _ {A : Type 0} where
  unfoldable pub update_mapped :
      ℕ → (XorMapped A → XorMapped A) → List (XorMapped A) → List (XorMapped A)
  update_mapped id f heap = elim (get_elem? heap id) [ none ↦ heap | some e ↦ set heap id (f e) ]

  -- Both cases of the select leave the channel closed.
  pub close_waiters : XorMapped A → XorMapped A
  close_waiters e = record e { received = true }

  pub set_addr : A → XorMapped A → XorMapped A
  unfolding close_waiters
  set_addr a e = close_waiters (record e { addr = some a })

  pub expired : ℕ → XorMapped A → Bool
  expired now e = ltb e.expires_at now

  known_addr : ℕ → String → Universal A → ℕ → Option (XorMapped A) → Universal A × Option A
  unfolding update_mapped close_waiters expired
  known_addr now server m id none = (m, none)
  known_addr now server m id (some e) =
      if expired now e
      then (
        record m {
          heap = update_mapped id close_waiters m.heap;
          xor_mapped_map = erase server m.xor_mapped_map;
        },
        none,
      )
      else (m, e.addr)

  -- GetXORMappedAddr up to its first Unlock: the address, where it is known and not too old.
  unfoldable pub lookup_mapped : ℕ → String → Universal A → Universal A × Option A
  unfolding known_addr
  lookup_mapped now server m = elim (lookup server m.xor_mapped_map) [
    | none ↦ (m, none)
    | some id ↦ known_addr now server m id (get_elem? m.heap id)
  ]

  new_mapped : ℕ → ℕ → XorMapped A
  new_mapped now ttl = record { addr = none; received = false; expires_at = now + ttl }

  -- The entry of a server: the one that is there, or a new one that waits.
  unfoldable pub entry_for : ℕ → String → Universal A → Universal A × ℕ
  unfolding new_mapped
  entry_for now server m = elim (lookup server m.xor_mapped_map) [
    | some id ↦ (m, id)
    | none ↦
        let id = length m.heap in
        (
          record m {
            heap = m.heap ++ new_mapped now m.cache_ttl ∷ [];
            xor_mapped_map = insert server id m.xor_mapped_map;
          },
          id,
        )
  ]

  -- `sendSTUN`: `builds` and `writes` are whether `stun.Build` and `WriteTo` return no error.
  unfoldable pub send_stun : ℕ → String → Bool → Bool → Universal A → Universal A × Result Error ℕ
  unfolding entry_for
  send_stun now server builds writes m =
      let (m', id) = entry_for now server m in
      if builds
      then (if writes then (m', ok id) else (m', err write_request))
      else (m', err build_request)

  -- What a caller returns that was woken: `_` is not looked at but the map is, anew.
  unfoldable pub woken : String → Universal A → Result Error A
  woken server m = elim (lookup server m.xor_mapped_map) [
    | none ↦ err no_mapping
    | some id ↦ elim (get_elem? m.heap id) [
      | none ↦ err no_mapping
      | some e ↦ elim e.addr [ none ↦ err no_mapping | some a ↦ ok a ]
    ]
  ]

  -- The select of a caller that waits on the channel `id`, at its deadline or once the channel is
  -- closed; `none` where it goes on waiting. Where both are ready Go takes either: here the channel.
  unfoldable pub await : ℕ → String → Bool → Universal A → Option (Result Error A)
  unfolding woken
  await id server timed_out m = elim (get_elem? m.heap id) [
    | none ↦ if timed_out then some (err deadline) else none
    | some e ↦
        if e.received
        then some (woken server m)
        else if timed_out
        then some (err deadline)
        else none
  ]

  -- `handleXORMappedResponse`: `attribute` is what `GetFrom` reads of the message.
  unfoldable pub handle_xor_mapped_response :
      String → Option A → Universal A → Universal A × Option Error
  unfolding update_mapped set_addr
  handle_xor_mapped_response server attribute m = elim (lookup server m.xor_mapped_map) [
    | none ↦ (m, some no_mapping)
    | some id ↦ elim attribute [
      | none ↦ (m, some no_attribute)
      | some a ↦ (record m { heap = update_mapped id (set_addr a) m.heap }, none)
    ]
  ]

  pub is_xor_mapped_response : String → Bool → Universal A → Bool
  is_xor_mapped_response server has_attribute m =
      has_attribute && is_some (lookup server m.xor_mapped_map)

  -- HandleSTUNMessage for a UDP address in text; `true` is a message that is not from a STUN
  -- server and goes on to the UDP mux.
  unfoldable pub handle_stun_message : String → Bool → Option A → Universal A → Universal A × Bool
  unfolding handle_xor_mapped_response is_xor_mapped_response
  handle_stun_message server has_attribute attribute m =
      if is_xor_mapped_response server has_attribute m
      then ((handle_xor_mapped_response server attribute m).0, false)
      else (m, true)

-- What changes the map, each under the mux's mutex.
pub data Op (A : Type 0) : Type 0 where
  look : ℕ → String → Op A
  send : ℕ → String → Bool → Bool → Op A
  receive : String → Bool → Option A → Op A

module _ {A : Type 0} where
  unfoldable pub step : Op A → Universal A → Universal A
  unfolding lookup_mapped send_stun handle_stun_message
  step (look now server) m = (lookup_mapped now server m).0
  step (send now server builds writes) m = (send_stun now server builds writes m).0
  step (receive server has_attribute attribute) m =
      (handle_stun_message server has_attribute attribute m).0

  unfoldable pub run : List (Op A) → Universal A → Universal A
  unfolding step
  run [] m = m
  run (o ∷ os) m = run os (step o m)
