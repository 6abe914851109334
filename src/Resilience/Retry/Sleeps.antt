-- ===== src/Resilience/Retry/Sleeps.antt =====
-- How long the retry loop sleeps in all.
use fastapi_kafka_guide.Prelude.{
  ℕ, zero, suc, ◌+◌, ◌-◌, ◌*◌, ◌^◌, ◌≤◌, ◌<◌, ◌≡◌, Option, some, arith, Result, ok, err, Exec,
}
use native.Mathlib.Nat.{pow-suc}
use native.Mathlib.Decide.{dec_le}
use fastapi_kafka_guide.Resilience.Errors.{Failure}
use fastapi_kafka_guide.Resilience.Retry.{
  Policy, Runtime, resolution, backoff, nap, on_error, retry_loop, retry_with_backoff,
}
use fastapi_kafka_guide.Resilience.Retry.Bounds.{round, on_error-some}

-- The time slept so far: sleeping adds to it, the function and the draws do not, and a draw is below 1.
pub record Slept {S A : Type 0} (rt : Runtime S) (func : Exec S Failure A) (slept : S → ℕ)
    : Type 0 where
  pub works : (s : S) → slept (func s).1 ≡ slept s
  pub draws : (s : S) → slept (rt.random s).1 ≡ slept s
  pub below_one : (s : S) → (rt.random s).0 < resolution
  pub sleeps : (d : ℕ) (s : S) → slept (rt.sleep d s) ≡ slept s + d

-- `base * 2^k` ms, the backoff without jitter before attempt `k + 2`.
abbrev pub weight : ℕ → ℕ → ℕ
weight base k = base * 2 ^ k * resolution

weight-suc : (base k : ℕ) → weight base (suc k) ≡ weight base k + weight base k
weight-suc base k = rw pow-suc (omega arith)

weight-le : (base a n : ℕ) → a ≤ n → weight base a ≤ weight base n
weight-le base a zero h = rw (le-zero a h) (omega arith)
  where
    le-zero : (a : ℕ) → a ≤ 0 → a ≡ 0
    le-zero a h = omega arith
weight-le base a (suc n) h = elim (dec_le a n) [
  | yes le ↦ omega (arith, weight-le base a n le, weight-suc base n)
  | no gt ↦ let e : a ≡ suc n = omega arith in rw e (omega arith)
]

backoff-le :
    (base k draw : ℕ)
    → draw < resolution
    → backoff base (k + 1) draw ≤ weight base k + 50 * resolution
unfolding backoff
backoff-le base k draw h = let e : k + 1 - 1 ≡ k = omega arith in rw e (omega arith)

module _ {S A : Type 0} (rt : Runtime S) (policy : Policy) (func : Exec S Failure A) (slept : S → ℕ)
    (clock : Slept rt func slept) (n : ℕ) (most : policy.max_attempts ≤ n + 1) where
  slept-nap :
      (k : ℕ) (s : S)
      → slept (nap rt policy func (k + 1) s)
        ≤ slept s + weight policy.base_delay_ms k + 50 * resolution
  unfolding nap
  slept-nap k s =
      let (draw, s') = rt.random s in
      omega (
        arith,
        clock.sleeps (backoff policy.base_delay_ms (k + 1) draw) s',
        clock.draws s,
        backoff-le policy.base_delay_ms k draw (clock.below_one s),
      )

  slept-again :
      (k : ℕ) (e : Failure) (s t : S)
      → on_error rt policy func (k + 1) e (func s).1 ≡ some t
      → (k + 1 ≤ n) × (slept t ≤ slept s + weight policy.base_delay_ms k + 50 * resolution)
  slept-again k e s t q =
      let (lt, eq) = on_error-some rt policy func (k + 1) e (func s).1 t q in
      (omega arith, rw eq (omega (arith, slept-nap k (func s).1, clock.works s)))

  retry_loop-slept :
      (fuel k : ℕ) (s : S) (p : Result Failure A × S)
      → k ≤ n
      → retry_loop rt policy func fuel k s ≡ some p
      → slept p.1 + weight policy.base_delay_ms k + 50 * resolution * k
        ≤ slept s + weight policy.base_delay_ms n + 50 * resolution * n
  retry_loop-slept zero k s p le h = unfold retry_loop in cc
  retry_loop-slept (suc fuel) k s p le h =
      round rt policy func
        (λ o.
          o ≡ some p
          → slept p.1 + weight policy.base_delay_ms k + 50 * resolution * k
            ≤ slept s + weight policy.base_delay_ms n + 50 * resolution * n)
        fuel k s (λ a e q. ended (ok a) q) (λ x e none_left q. ended (err x) q)
        (λ x t e some_left q.
          let (lt, le') = slept-again k x s t some_left in
          omega (
            arith,
            retry_loop-slept fuel (k + 1) t p lt q,
            rw (suc-eq-add k) at (weight-suc policy.base_delay_ms k),
          ))
        h
    where
      suc-eq-add : (j : ℕ) → suc j ≡ j + 1
      suc-eq-add j = omega arith

      ended :
          (r : Result Failure A)
          → ◌≡◌ {A = Option (Result Failure A × S)} (some (r, (func s).1)) (some p)
          → slept p.1 + weight policy.base_delay_ms k + 50 * resolution * k
            ≤ slept s + weight policy.base_delay_ms n + 50 * resolution * n
      ended r q = ground (arith, clock.works s, weight-le policy.base_delay_ms k n le)

  -- If only the sleeps take time and a draw is below one, the loop sleeps in all at most `base *
  -- (2^n - 1)` ms of backoff and 50 ms of jitter a time, for `n` the number of sleeps that the
  -- policy allows (one fewer than the attempts).
  pub retry_with_backoff-slept :
      (s : S) (p : Result Failure A × S)
      → retry_with_backoff rt policy func s ≡ some p
      → slept p.1 + weight policy.base_delay_ms 0
        ≤ slept s + weight policy.base_delay_ms n + 50 * resolution * n
  unfolding retry_with_backoff
  retry_with_backoff-slept s p h =
      omega (arith, retry_loop-slept (policy.max_attempts + 1) 0 s p (omega arith) h)
