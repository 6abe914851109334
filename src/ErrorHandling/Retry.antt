-- ===== src/ErrorHandling/Retry.antt =====
-- retry.py of 07-error-handling-and-retry. Delays are counted in units of 2 ^ -54 seconds, so that
-- `random.uniform(0, 0.5)` is the numerator of its draw.
use fastapi_kafka_guide.Prelude.{
  subst, ℕ, zero, suc, ◌+◌, ◌*◌, ◌^◌, ◌≤◌, ◌≡◌, refl, Option, none, some, arith, ltb, if◌then◌else◌,
  Result, ok, err, Exec,
}

-- What the loop takes from the standard library: a draw of `random`, and `asyncio.sleep`.
pub record Runtime (S : Type 0) : Type 0 where
  pub draw : S → ℕ × S
  pub sleep : ℕ → S → S

module _ {S E A : Type 0} (rt : Runtime S) (max_retries base_delay : ℕ) (func : Exec S E A) where
  -- The sleep after a failed attempt, unless it was the last.
  unfoldable pub back_off : ℕ → S → S
  back_off attempt s =
      let (draw, s') = rt.draw s in
      if ltb (attempt + 1) max_retries then rt.sleep (base_delay * 2 ^ attempt + draw) s' else s

  -- How an attempt goes on: `rest` is the loop after it.
  abbrev pub after_attempt : Result E A → S → Result (Option E) A × S → Result (Option E) A × S
  after_attempt (ok a) s rest = (ok a, s)
  after_attempt (err e) s rest = rest

  abbrev pub last_of : Result E A → Option E → Option E
  last_of (ok a) last = last
  last_of (err e) last = some e

  -- `for attempt in range(max_retries)` with `left` rounds to go, then `raise last_exception`; raising
  -- `None`, after no round at all, is an error without an exception.
  unfoldable pub retry_loop : ℕ → ℕ → Option E → S → Result (Option E) A × S
  retry_loop zero attempt last s = (err last, s)
  retry_loop (suc left) attempt last s =
      let (r, s') = func s in
      let rest = retry_loop left (attempt + 1) (last_of r last) (back_off attempt s') in
      after_attempt r s' rest

  unfoldable pub retry_with_backoff : S → Result (Option E) A × S
  retry_with_backoff s = retry_loop max_retries 0 none s

module _ {S E A : Type 0} (rt : Runtime S) (max_retries base_delay : ℕ) (func : Exec S E A) where
  -- The state after the sleeps that follow `n` failed attempts, from this attempt on.
  unfoldable pub naps : ℕ → ℕ → S → S
  naps zero attempt s = s
  naps (suc n) attempt s = naps n (attempt + 1) (back_off rt max_retries base_delay func attempt s)

  last_attempt :
      (attempt : ℕ) (s : S)
      → max_retries ≤ attempt + 1
      → back_off rt max_retries base_delay func attempt s ≡ s
  unfolding back_off
  last_attempt attempt s h = ground arith

  module _ (e : E) (fails : (s : S) → func s ≡ (err e, s)) where
    retry_loop_fails :
        (left attempt : ℕ) (last : Option E) (s : S)
        → attempt + suc left ≡ max_retries
        → retry_loop rt max_retries base_delay func (suc left) attempt last s
          ≡ (err (some e), naps left attempt s)
    unfolding retry_loop naps
    retry_loop_fails zero attempt last s h =
        rw (fails, retry_loop) (rw (last_attempt attempt s (omega arith)) refl)
    retry_loop_fails (suc left) attempt last s h =
        rw (fails, retry_loop)
          (retry_loop_fails left (attempt + 1) (some e)
            (back_off rt max_retries base_delay func attempt s) (omega arith))

    pub retry_with_backoff_fails :
        (n : ℕ) (s : S)
        → suc n ≡ max_retries
        → retry_with_backoff rt max_retries base_delay func s ≡ (err (some e), naps n 0 s)
    unfolding retry_with_backoff
    retry_with_backoff_fails n s h =
        subst
          (λ (m : ℕ).
            retry_loop rt max_retries base_delay func m 0 none s ≡ (err (some e), naps n 0 s))
          h (retry_loop_fails n 0 none s (omega arith))

  pub retry_with_backoff_returns :
      (a : A) (n : ℕ) (s : S)
      → func s ≡ (ok a, s)
      → suc n ≡ max_retries
      → retry_with_backoff rt max_retries base_delay func s ≡ (ok a, s)
  unfolding retry_with_backoff retry_loop
  retry_with_backoff_returns a n s returns h = rw (← h, retry_loop, returns) refl
