-- ===== src/Resilience/Retry.antt =====
-- retry.py: the retry loop with exponential backoff. A delay is counted in units of 2^-53 ms, the
-- resolution of `random.random()`; jitter is `random.random() * 0.05` seconds, that is 50 ms times
-- the draw. What the event loop does during a sleep is the parameter `sleep`.
pub mod Bounds
pub mod Sleeps
use fastapi_kafka_guide.Prelude.{
  ℕ, zero, suc, ◌+◌, ◌-◌, ◌*◌, ◌^◌, Bool, Option, none, some, leb, if◌then◌else◌, Result, ok, err,
  Exec,
}
use fastapi_kafka_guide.Resilience.Errors.{Failure}

-- The numerator of `random.random()` over 2^53.
abbrev pub resolution : ℕ
resolution = 2 ^ 53

-- `(base_delay_ms / 1000) * (2 ** (attempt - 1)) + random.random() * 0.05`; attempts count from 1.
unfoldable pub backoff : ℕ → ℕ → ℕ → ℕ
backoff base_delay_ms attempt draw = base_delay_ms * 2 ^ (attempt - 1) * resolution + 50 * draw

-- The keyword arguments of `retry_with_backoff`; exception classes are tests.
pub record Policy : Type 0 where
  pub max_attempts : ℕ
  pub base_delay_ms : ℕ
  pub retriable : Failure → Bool
  pub do_not_retry : Failure → Bool

-- What the loop takes from the standard library: a draw of `random`, and `asyncio.sleep`.
pub record Runtime (S : Type 0) : Type 0 where
  pub random : S → ℕ × S
  pub sleep : ℕ → S → S

module _ {S A : Type 0} (rt : Runtime S) (policy : Policy) (func : Exec S Failure A) where
  -- The sleep before the next attempt.
  unfoldable pub nap : ℕ → S → S
  unfolding backoff
  nap attempt s =
      let (draw, s') = rt.random s in rt.sleep (backoff policy.base_delay_ms attempt draw) s'

  -- The `except` clauses at the end of one attempt: raise, or sleep and go on.
  unfoldable pub on_error : ℕ → Failure → S → Option S
  unfolding nap
  on_error attempt e s =
      if policy.do_not_retry e
      then none
      else if policy.retriable e
      then if leb policy.max_attempts attempt then none else some (nap attempt s)
      else none

  -- `while True`, on fuel; `attempt` attempts are behind. `none` means that the fuel ran out.
  unfoldable pub retry_loop : ℕ → ℕ → S → Option (Result Failure A × S)
  unfolding on_error
  retry_loop zero attempt s = none
  retry_loop (suc fuel) attempt s =
      let (r, s') = func s in
      elim r [
        | ok a ↦ some (ok a, s')
        | err e ↦ elim (on_error (attempt + 1) e s') [
          | none ↦ some (err e, s')
          | some s'' ↦ retry_loop fuel (attempt + 1) s''
        ]
      ]

  -- `retry_with_backoff`
  unfoldable pub retry_with_backoff : S → Option (Result Failure A × S)
  unfolding retry_loop
  retry_with_backoff s = retry_loop (policy.max_attempts + 1) 0 s
