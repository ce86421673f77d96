-- ===== src/WgProxy/Lookup.antt =====
-- client/internal/wgproxy/portlookup.go: which port `searchFreePort` finds.
use punch.Common.{
  ℕ, zero, suc, ◌+◌, ◌≤◌, ◌<◌, ◌≡◌, refl, inl, inr, Bool, true, false, Option, none, some, arith,
  Result, ok, err, Bool-cases, dec_lt,
}
use punch.WgProxy.{
  Error, first_port, search_free_port, no_free_port, port_range_start, port_range_end,
}

-- A port that is the least one free from `start` on and below `end`.
pub record LeastFree (free : ℕ → Bool) (start end port : ℕ) : Type 0 where
  pub from_start : start ≤ port
  pub below_end : port < end
  pub is_free : free port ≡ true
  pub least : (q : ℕ) → start ≤ q → q < port → free q ≡ false

abbrev pub Searched : (ℕ → Bool) → ℕ → ℕ → Option ℕ → Type 0
Searched free start end none = (q : ℕ) → start ≤ q → q < end → free q ≡ false
Searched free start end (some port) = LeastFree free start end port

-- One more port at the front, which is busy.
busy_from :
    (free : ℕ → Bool) (start q : ℕ)
    → free start ≡ false
    → start ≤ q
    → (start + 1 ≤ q → free q ≡ false)
    → free q ≡ false
busy_from free start q busy le h = elim (dec_lt start q) [
  | yes p ↦ h (omega arith)
  | no p ↦ let e : q ≡ start = omega arith in rw e busy
]

step_Searched :
    (free : ℕ → Bool) (start end : ℕ) (r : Option ℕ)
    → free start ≡ false
    → Searched free (start + 1) end r
    → Searched free start end r
step_Searched free start end none busy h =
    λ q le lt. busy_from free start q busy le (λ le'. h q le' lt)
step_Searched free start end (some port) busy h = record {
  from_start = omega (arith, h.from_start);
  below_end = h.below_end;
  is_free = h.is_free;
  least = λ q le lt. busy_from free start q busy le (λ le'. h.least q le' lt);
}

pub first_port-Searched :
    (free : ℕ → Bool) (rounds start end : ℕ)
    → start + rounds ≡ end
    → Searched free start end (first_port free start rounds)
unfolding first_port
first_port-Searched free zero start end e = λ q le lt. absurd (omega arith)
first_port-Searched free (suc rounds) start end e = elim (Bool-cases (free start)) [
  | inl yes_free ↦ rw yes_free (record {
    from_start = omega arith;
    below_end = omega arith;
    is_free = yes_free;
    least = λ q le lt. absurd (omega arith);
  })
  | inr busy ↦ rw busy (
      step_Searched free start end (first_port free (start + 1) rounds) busy
        (first_port-Searched free rounds (start + 1) end (omega arith)))
]

abbrev pub Answers : (ℕ → Bool) → Result Error ℕ → Type 0
Answers can_bind (err e) =
    (e ≡ no_free_port) × ((q : ℕ) → port_range_start ≤ q → q ≤ port_range_end → can_bind q ≡ false)
Answers can_bind (ok port) = LeastFree can_bind port_range_start (port_range_end + 1) port

answer_of :
    (can_bind : ℕ → Bool) (r : Option ℕ)
    → Searched can_bind port_range_start (port_range_end + 1) r
    → Answers can_bind (elim r [ none ↦ err no_free_port | some port ↦ ok port ])
answer_of can_bind none h = (refl, λ q le lt. h q le (omega arith))
answer_of can_bind (some port) h = h

-- `searchFreePort` returns the least port from 3128 to 3228, both included, that can be bound,
-- and its error exactly where none of them can.
pub search_free_port-Answers : (can_bind : ℕ → Bool) → Answers can_bind (search_free_port can_bind)
unfolding search_free_port
search_free_port-Answers can_bind =
    answer_of can_bind _
      (first_port-Searched can_bind 101 port_range_start (port_range_end + 1) refl)
