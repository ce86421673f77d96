-- ===== src/Retry/Tests.antt =====
-- Retry at concrete inputs: two errors, and then none.
use punch.Common.{ℕ, zero, suc, ◌≡◌, ◌-◌, ◌^◌, refl, arith, some, [], ◌∷◌}
use punch.Retry.{Outcome, gives, panics, done, failed, retry}
use punch.Retry.Attempts.{Tried, retry-Tried}

twice : ℕ → Outcome ℕ
twice zero = failed 7
twice (suc zero) = failed 8
twice (suc (suc n)) = done

retry-Tried_example : Tried twice (λ n. 3) 0 (5 - 1) 10 (retry twice (λ n. 3) 5 10)
retry-Tried_example = retry-Tried twice (λ n. 3) 5 10 (omega arith) (omega arith)

slept : (retry twice (λ n. 3) 5 10).sleeps ≡ 11 ∷ 23 ∷ []
unfolding retry twice
slept = refl

gives_up :
    retry twice (λ n. 3) 2 10
    ≡ record { result = gives (some 8); calls = 2; reported = 7 ∷ []; sleeps = 11 ∷ [] }
unfolding retry twice
gives_up = refl

-- The doubled pause of 2 ^ 62 is negative as an int64.
overflows : (retry twice (λ n. 0) 5 (2 ^ 62)).result ≡ panics
unfolding retry twice
overflows = refl
