-- ===== src/Retry/Attempts.antt =====
-- util/retry.go: how many calls are made, and what is returned.
use punch.Common.{
  ℕ, zero, suc, ◌≡◌, ◌≤◌, ◌<◌, ◌+◌, ◌-◌, ◌*◌, ◌/◌, ◌%◌, ◌^◌, refl, sym, Bool, true, false, Option,
  none, some, List, [], ◌∷◌, length, arith, ◌⊎◌, inl, inr, subst,
}
use native.Mathlib.Nat.{mod-lt}
use punch.Retry.{
  Outcome, Trace, gives, i64, done, stopped, failed, jittered, again, last_try, retry_from, retry,
}

-- The sleep after the longest possible growth, over the attempts that are left.
abbrev pub tripled : ℕ → ℕ → ℕ
tripled zero sleep = sleep
tripled (suc left) sleep = tripled left (3 * sleep)

tripled_mono : (left a b : ℕ) → a ≤ b → tripled left a ≤ tripled left b
tripled_mono zero a b h = h
tripled_mono (suc left) a b h = tripled_mono left (3 * a) (3 * b) (omega (arith, h))

tripled-le : (left sleep : ℕ) → sleep ≤ tripled left sleep
tripled-le zero sleep = omega arith
tripled-le (suc left) sleep = omega (arith, tripled-le left (3 * sleep))

add_zero : (n : ℕ) → n + 0 ≡ n
add_zero n = omega arith

module _ {E : Type 0} (to_exec : ℕ → Outcome E) (random : ℕ → ℕ) where
  -- What Retry returns for the outcome of its last call.
  pub returned : Outcome E → Option E
  returned done = none
  returned (stopped e) = some e
  returned (failed e) = some e

  pub goes_on : Outcome E → Bool
  goes_on (failed e) = true
  goes_on _ = false

  -- The sleeps are at least the first, and each at least twice the one before.
  pub Doubling : ℕ → List ℕ → Type 0
  Doubling least [] = Unit {0}
  Doubling least (s ∷ rest) = (least ≤ s) × Doubling (2 * s) rest

  -- A run from the `n`-th call on, with `left` attempts after it.
  pub record Tried (n left sleep : ℕ) (t : Trace E) : Type 0 where
    pub some_call : 1 ≤ t.calls
    pub not_too_many : t.calls ≤ suc left
    pub last_returned : t.result ≡ gives (returned (to_exec (n + (t.calls - 1))))
    pub all_failed : (i : ℕ) → i + 1 < t.calls → goes_on (to_exec (n + i)) ≡ true
    pub stops : t.calls < suc left → goes_on (to_exec (n + (t.calls - 1))) ≡ false
    pub one_report_each : suc (length t.reported) ≡ t.calls
    pub one_sleep_each : suc (length t.sleeps) ≡ t.calls
    pub longer : Doubling sleep t.sleeps

  Outcome-cases :
      (o : Outcome E) → (o ≡ done) ⊎ ((e : E) × (o ≡ stopped e)) ⊎ ((e : E) × (o ≡ failed e))
  Outcome-cases done = inl refl
  Outcome-cases (stopped e) = inr (inl (e, refl))
  Outcome-cases (failed e) = inr (inr (e, refl))

  -- The call at `n` is the last one.
  last_try-Tried :
      (n left sleep : ℕ) (o : Outcome E)
      → to_exec n ≡ o
      → (0 < left → goes_on o ≡ false)
      → Tried n left sleep (last_try to_exec random (gives (returned o)))
  unfolding last_try Doubling returned
  last_try-Tried n left sleep o is ends =
      let here : to_exec (n + 0) ≡ o = rw (add_zero n) is in
      record {
        some_call = omega arith;
        not_too_many = omega arith;
        last_returned = rw here refl;
        all_failed = λ i lt. absurd (omega (arith, lt));
        stops = λ lt. rw here (ends (omega (arith, lt)));
        one_report_each = refl;
        one_sleep_each = refl;
        longer = tt;
      }

  again-failed :
      (n calls : ℕ) (e : E)
      → to_exec n ≡ failed e
      → ((i : ℕ) → i + 1 < calls → goes_on (to_exec (suc n + i)) ≡ true)
      → (i : ℕ) → i + 1 < suc calls
      → goes_on (to_exec (n + i)) ≡ true
  unfolding goes_on
  again-failed n calls e is later zero lt = rw (add_zero n, is) refl
  again-failed n calls e is later (suc i) lt =
      let same : suc n + i ≡ n + suc i = omega arith in
      subst (λ (k : ℕ). goes_on (to_exec k) ≡ true) same (later i (omega (arith, lt)))

  again-Tried :
      (n left sleep pause : ℕ) (e : E) (rest : Trace E)
      → to_exec n ≡ failed e
      → sleep ≤ pause
      → Tried (suc n) left (2 * pause) rest
      → Tried n (suc left) sleep (again to_exec random e pause rest)
  unfolding again Doubling goes_on
  again-Tried n left sleep pause e rest is le t =
      let same : suc n + (rest.calls - 1) ≡ n + (suc rest.calls - 1) = omega (arith, t.some_call) in
      record {
        some_call = omega arith;
        not_too_many = omega (arith, t.not_too_many);
        last_returned =
            subst (λ (k : ℕ). rest.result ≡ gives (returned (to_exec k))) same t.last_returned;
        all_failed = again-failed n rest.calls e is t.all_failed;
        stops =
            λ lt. subst (λ (k : ℕ). goes_on (to_exec k) ≡ false) same (t.stops (omega (arith, lt)));
        one_report_each = omega (arith, t.one_report_each);
        one_sleep_each = omega (arith, t.one_sleep_each);
        longer = (le, t.longer);
      }

  -- A sleep that fits is not shortened by the jitter, and the doubled pause does not overflow.
  record Paused (sleep : ℕ) (n : ℕ) : Type 0 where
    pause : ℕ
    is : jittered to_exec random n sleep ≡ some pause
    not_less : sleep ≤ pause
    doubled : i64 (2 * pause) ≡ 2 * pause
    at_most : 2 * pause ≤ 3 * sleep

  jitter-lt : (n sleep : ℕ) → 0 < sleep → random n % sleep < sleep
  jitter-lt n sleep pos = mod-lt (random n) pos

  paused : (n sleep : ℕ) → 0 < sleep → 3 * sleep < 2 ^ 63 → Paused sleep n
  unfolding jittered
  paused n sleep pos fits = record {
    pause = sleep + random n % sleep / 2;
    is = ground (arith, jitter-lt n sleep pos);
    not_less = omega arith;
    doubled = omega (arith, fits, jitter-lt n sleep pos);
    at_most = omega (arith, jitter-lt n sleep pos);
  }

  none_left : (o : Outcome E) → 0 < 0 → goes_on o ≡ false
  none_left o lt = absurd (omega (arith, lt))

  retry_from-Tried :
      (n left sleep : ℕ)
      → 0 < sleep
      → tripled left sleep < 2 ^ 63
      → Tried n left sleep (retry_from to_exec random n left sleep)
  unfolding retry_from returned goes_on
  retry_from-Tried n zero sleep pos fits = elim (Outcome-cases (to_exec n)) [
    | inl is ↦ rw (retry_from, is) (last_try-Tried n 0 sleep done is (none_left done))
    | inr (inl (e, is)) ↦
        rw (retry_from, is) (last_try-Tried n 0 sleep (stopped e) is (none_left (stopped e)))
    | inr (inr (e, is)) ↦
        rw (retry_from, is) (last_try-Tried n 0 sleep (failed e) is (none_left (failed e)))
  ]
  retry_from-Tried n (suc left) sleep pos fits =
      let p = paused n sleep pos (omega (arith, fits, tripled-le left (3 * sleep))) in
      elim (Outcome-cases (to_exec n)) [
        | inl is ↦ rw (retry_from, is) (last_try-Tried n (suc left) sleep done is (λ lt. refl))
        | inr (inl (e, is)) ↦
            rw (retry_from, is) (last_try-Tried n (suc left) sleep (stopped e) is (λ lt. refl))
        | inr (inr (e, is)) ↦
            rw (retry_from, is, p.is, p.doubled)
              (again-Tried n left sleep p.pause e _ is p.not_less (
                retry_from-Tried (suc n) left (2 * p.pause) (omega (arith, pos, p.not_less))
                  (omega (arith, fits, tripled_mono left (2 * p.pause) (3 * sleep) p.at_most))))
      ]

  pub retry-Tried :
      (attempts sleep : ℕ)
      → 0 < sleep
      → tripled (attempts - 1) sleep < 2 ^ 63
      → Tried 0 (attempts - 1) sleep (retry to_exec random attempts sleep)
  unfolding retry
  retry-Tried zero sleep pos fits = retry_from-Tried 0 0 sleep pos fits
  retry-Tried (suc left) sleep pos fits =
      let same : left ≡ suc left - 1 = omega arith in
      subst (λ (k : ℕ). Tried 0 k sleep (retry_from to_exec random 0 left sleep)) same
        (retry_from-Tried 0 left sleep pos
          (subst (λ (k : ℕ). tripled k sleep < 2 ^ 63) (sym same) fits))
