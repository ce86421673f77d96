-- ===== src/Bind/Mapped/Tests.antt =====
-- The mapped addresses at concrete inputs: two servers, of which one has answered.
use punch.Common.{
  ℕ, zero, suc, String, ◌≡◌, refl, sym, ◌∙◌, err, subst, true, false, none, some, List, [], ◌∷◌,
  ◌==◌, string_eq, arith, Bool-cases, inl, inr, get_elem?, is_some,
}
use punch.Common.Map.{Map, lookup}
use punch.Bind.Mapped.{
  XorMapped, Universal, Op, look, send, receive, run, handle_stun_message, await, deadline,
}
use punch.Bind.Mapped.Waiting.{IsWaiting, run-IsWaiting}
use punch.Bind.Mapped.Answers.{Woken, answer-Woken}

abbrev entries : Map String ℕ
entries = ("one", 0) ∷ ("two", 1) ∷ []

abbrev two_servers : Universal ℕ
two_servers = record {
  heap =
      record { addr = some 7; received = true; expires_at = 25 }
      ∷ record { addr = none; received = false; expires_at = 30 }
      ∷ [];
  xor_mapped_map = entries;
  cache_ttl = 25;
}

cases :
    (P : String → ℕ → Type 0)
    → P "one" 0
    → P "two" 1
    → (s : String) (id : ℕ) → lookup s entries ≡ some id
    → P s id
unfolding lookup
cases P one two s id h = elim (Bool-cases ("one" == s)) [
  | inl same ↦
      let e : 0 ≡ id = ground (arith, same, h) in
      subst (λ (n : ℕ). P s n) e
        (subst (λ (x : String). P x 0) ((string_eq.same_iff "one" s).0 same) one)
  | inr differ ↦ elim (Bool-cases ("two" == s)) [
    | inl same ↦
        let e : 1 ≡ id = ground (arith, differ, same, h) in
        subst (λ (n : ℕ). P s n) e
          (subst (λ (x : String). P x 1) ((string_eq.same_iff "two" s).0 same) two)
    | inr neither ↦ absurd (ground (arith, differ, neither, h))
  ]
]

name_of : ℕ → String
name_of zero = "one"
name_of (suc _) = "two"

There : String → ℕ → Type 0
There s id =
    (e : XorMapped ℕ) × (get_elem? two_servers.heap id ≡ some e) × (e.received ≡ is_some e.addr)

found_server :
    (id : ℕ) (e : XorMapped ℕ)
    → get_elem? two_servers.heap id ≡ some e
    → e.received ≡ false
    → (s : String) × (lookup s entries ≡ some id)
unfolding lookup
found_server zero e h waits = absurd (ground (arith, h, waits))
found_server (suc zero) e h waits = ("two", refl)
found_server (suc (suc id)) e h waits = absurd (ground (arith, h))

two_servers-IsWaiting : IsWaiting two_servers
unfolding There name_of
two_servers-IsWaiting = record {
  there =
      cases There (record { addr = some 7; received = true; expires_at = 25 }, refl, refl)
        (record { addr = none; received = false; expires_at = 30 }, refl, refl);
  own = λ s t id h k.
      cases (λ x n. x ≡ name_of n) refl refl s id h
      ∙ sym (cases (λ x n. x ≡ name_of n) refl refl t id k);
  found = found_server;
}

abbrev script : List (Op ℕ)
script =
    look 40 "one"
    ∷ send 40 "one" true false
    ∷ receive "two" true none
    ∷ receive "one" true (some 9)
    ∷ []

run-IsWaiting_example : IsWaiting (run script two_servers)
run-IsWaiting_example = run-IsWaiting script two_servers two_servers-IsWaiting

answer-Woken_example :
    Woken "two" 1 9 two_servers (handle_stun_message "two" true (some 9) two_servers)
unfolding lookup
answer-Woken_example = answer-Woken "two" 1 9 two_servers two_servers-IsWaiting refl

-- Without an answer the caller waits, and gives up at its deadline.
no_answer :
    (await 1 "two" false two_servers ≡ none)
    × (await 1 "two" true two_servers ≡ some (err deadline))
unfolding await
no_answer = (refl, refl)
