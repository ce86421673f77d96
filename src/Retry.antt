-- ===== src/Retry.antt =====
-- util/retry.go: a call that is tried again after an error, each time after a longer sleep.
pub mod Attempts
mod Tests
use punch.Common.{
  ℕ, zero, suc, ◌+◌, ◌*◌, ◌/◌, ◌%◌, ◌^◌, ◌&&◌, Bool, true, false, Option, none, some, List, [], ◌∷◌,
  ltb, length, if◌then◌else◌,
}

-- What `toExec` returns: nil, an error that is a `stop` around another, or any other error.
pub data Outcome (E : Type 0) : Type 0 where
  done : Outcome E
  stopped : E → Outcome E
  failed : E → Outcome E

-- How Retry ends: it returns, or rand.Int63n panics, on a sleep that is not positive.
pub data End (E : Type 0) : Type 0 where
  gives : Option E → End E
  panics : End E

-- What Retry does on the way to its end: it calls onError and sleeps.
pub record Trace (E : Type 0) : Type 0 where
  pub result : End E
  pub calls : ℕ
  pub reported : List E
  pub sleeps : List ℕ

-- A time.Duration is an int64, here its 64 bits: those from 2 ^ 63 on are negative.
abbrev pub i64 : ℕ → ℕ
i64 n = n % 2 ^ 64

abbrev pub is_positive : ℕ → Bool
is_positive sleep = ltb 0 sleep && ltb sleep (2 ^ 63)

module _ {E : Type 0} (to_exec : ℕ → Outcome E) (random : ℕ → ℕ) where
  -- `jitter / 2` is added: `rand.Int63n(sleep)` is a random number below `sleep`.
  pub jittered : ℕ → ℕ → Option ℕ
  jittered n sleep = if is_positive sleep then some (i64 (sleep + random n % sleep / 2)) else none

  pub again : E → ℕ → Trace E → Trace E
  again e pause rest = record {
    result = rest.result;
    calls = suc rest.calls;
    reported = e ∷ rest.reported;
    sleeps = pause ∷ rest.sleeps;
  }

  pub last_try : End E → Trace E
  last_try result = record { result = result; calls = 1; reported = []; sleeps = [] }

  -- The `n`-th call, with the attempts that are left after it.
  pub retry_from : ℕ → ℕ → ℕ → Trace E
  unfolding jittered again last_try
  retry_from n zero sleep = elim (to_exec n) [
    | done ↦ last_try (gives none)
    | stopped e ↦ last_try (gives (some e))
    | failed e ↦ last_try (gives (some e))
  ]
  retry_from n (suc left) sleep = elim (to_exec n) [
    | done ↦ last_try (gives none)
    | stopped e ↦ last_try (gives (some e))
    | failed e ↦ elim (jittered n sleep) [
      | none ↦ last_try panics
      | some pause ↦ again e pause (retry_from (suc n) left (i64 (2 * pause)))
    ]
  ]

  -- `attempts` of 0, as of 1, means a single call.
  unfoldable pub retry : ℕ → ℕ → Trace E
  unfolding retry_from
  retry zero sleep = retry_from 0 0 sleep
  retry (suc left) sleep = retry_from 0 left sleep
