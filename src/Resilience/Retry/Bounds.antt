-- ===== src/Resilience/Retry/Bounds.antt =====
-- The retry loop ends, and how often it calls the function and how long it sleeps.
use fastapi_kafka_guide.Prelude.{
  ℕ, zero, suc, ◌+◌, ◌≤◌, ◌<◌, ◌≡◌, refl, subst, ◌∙◌, inl, inr, true, false, Option, none, some,
  arith, Option-cases, Result, ok, err, Exec, Result-cases,
}
use Prim.Native.Nat.{max}
use fastapi_kafka_guide.Resilience.Errors.{Failure}
use fastapi_kafka_guide.Resilience.Retry.{
  Policy, Runtime, backoff, on_error, retry_loop, retry_with_backoff, nap,
}

module _ {S A : Type 0} (rt : Runtime S) (policy : Policy) (func : Exec S Failure A) where
  -- One round of the loop, by how the attempt and its `except` clauses end.
  pub round {ℓ} :
      (P : Option (Result Failure A × S) → Type ℓ) (fuel attempt : ℕ) (s : S)
      → ((a : A) → (func s).0 ≡ ok a → P (some (ok a, (func s).1)))
      → ((e : Failure)
          → (func s).0 ≡ err e
          → on_error rt policy func (attempt + 1) e (func s).1 ≡ none
          → P (some (err e, (func s).1)))
      → ((e : Failure) (t : S)
          → (func s).0 ≡ err e
          → on_error rt policy func (attempt + 1) e (func s).1 ≡ some t
          → P (retry_loop rt policy func fuel (attempt + 1) t))
      → P (retry_loop rt policy func (suc fuel) attempt s)
  unfolding retry_loop
  round P fuel attempt s returns raises again = elim (Result-cases (func s).0) [
    | inl (a, e) ↦ rw (e, retry_loop) (returns a e)
    | inr (x, e) ↦ elim (Option-cases (on_error rt policy func (attempt + 1) x (func s).1)) [
      | inl q ↦ rw (e, retry_loop) (rw (q, retry_loop) (raises x e q))
      | inr (t, q) ↦ rw (e, retry_loop) (rw (q, retry_loop) (again x t e q))
    ]
  ]

  pub on_error-some :
      (attempt : ℕ) (e : Failure) (s t : S)
      → on_error rt policy func attempt e s ≡ some t
      → (attempt < policy.max_attempts) × (t ≡ nap rt policy func attempt s)
  unfolding on_error
  on_error-some attempt e s t h = ground arith

  retry_loop_total :
      (fuel attempt : ℕ) (s : S)
      → policy.max_attempts < fuel + attempt
      → 0 < fuel
      → (p : Result Failure A × S) × (retry_loop rt policy func fuel attempt s ≡ some p)
  retry_loop_total zero attempt s h pos = absurd (omega arith)
  retry_loop_total (suc fuel) attempt s h pos =
      round (λ o. (p : Result Failure A × S) × (o ≡ some p)) fuel attempt s
        (λ a e. ((ok a, (func s).1), refl)) (λ x e q. ((err x, (func s).1), refl))
        λ x t e q.
          retry_loop_total fuel (attempt + 1) t (omega arith)
            (omega (arith, (on_error-some (attempt + 1) x (func s).1 t q).0))

  -- The loop always ends, with a result or an exception, whatever the function does.
  pub retry_with_backoff_total :
      (s : S) → (p : Result Failure A × S) × (retry_with_backoff rt policy func s ≡ some p)
  unfolding retry_with_backoff
  retry_with_backoff_total s =
      retry_loop_total (policy.max_attempts + 1) 0 s (omega arith) (omega arith)

module _ {S A : Type 0} (rt : Runtime S) (policy : Policy) (func : Exec S Failure A)
    (P : S → Type 0) (works : (s : S) → P s → P (func s).1)
    (draws : (s : S) → P s → P (rt.random s).1)
    (sleeps : (d : ℕ) (s : S) → P s → P (rt.sleep d s)) where
  nap-keeps : (attempt : ℕ) (s : S) → P s → P (nap rt policy func attempt s)
  unfolding nap
  nap-keeps attempt s h =
      let (draw, s') = rt.random s in
      sleeps (backoff policy.base_delay_ms attempt draw) s' (draws s h)

  retry_loop-keeps :
      (fuel attempt : ℕ) (s : S) (p : Result Failure A × S)
      → P s
      → retry_loop rt policy func fuel attempt s ≡ some p
      → P p.1
  retry_loop-keeps zero attempt s p h k = unfold retry_loop in cc
  retry_loop-keeps (suc fuel) attempt s p h k =
      round rt policy func (λ o. o ≡ some p → P p.1) fuel attempt s (λ a e q. ended (ok a) q)
        (λ x e _ q. ended (err x) q)
        (λ x t e q. retry_loop-keeps fuel (attempt + 1) t p (
          rw ((on_error-some rt policy func (attempt + 1) x (func s).1 t q).1)
            (nap-keeps (attempt + 1) (func s).1 (works s h))))
        k
    where
      ended :
          (r : Result Failure A)
          → ◌≡◌ {A = Option (Result Failure A × S)} (some (r, (func s).1)) (some p)
          → P p.1
      ended r q = let e : (func s).1 ≡ p.1 = ground arith in subst P e (works s h)

  -- What the function, the draws and the sleeps keep, the whole loop keeps.
  pub retry_with_backoff-keeps :
      (s : S) (p : Result Failure A × S)
      → P s
      → retry_with_backoff rt policy func s ≡ some p
      → P p.1
  unfolding retry_with_backoff
  retry_with_backoff-keeps s p = retry_loop-keeps (policy.max_attempts + 1) 0 s p

-- A count of what the function does: it rises by at most one with each call, and neither a draw nor a
-- sleep changes it.
pub record Counts {S A : Type 0} (rt : Runtime S) (func : Exec S Failure A) (count : S → ℕ)
    : Type 0 where
  pub at_most : (s : S) → count (func s).1 ≤ count s + 1
  pub draws : (s : S) → count (rt.random s).1 ≡ count s
  pub sleeps : (d : ℕ) (s : S) → count (rt.sleep d s) ≡ count s

module _ {S A : Type 0} (rt : Runtime S) (policy : Policy) (func : Exec S Failure A) (count : S → ℕ)
    (counts : Counts rt func count) where
  count-nap : (attempt : ℕ) (s : S) → count (nap rt policy func attempt s) ≡ count s
  unfolding nap
  count-nap attempt s =
      let (draw, s') = rt.random s in
      counts.sleeps (backoff policy.base_delay_ms attempt draw) s' ∙ counts.draws s

  count-again :
      (attempt : ℕ) (e : Failure) (s t : S)
      → on_error rt policy func attempt e (func s).1 ≡ some t
      → (attempt < policy.max_attempts) × (count t ≡ count (func s).1)
  count-again attempt e s t q =
      let (lt, eq) = on_error-some rt policy func attempt e (func s).1 t q in
      (lt, rw eq (count-nap attempt (func s).1))

  retry_loop-count :
      (fuel attempt : ℕ) (s : S) (p : Result Failure A × S)
      → retry_loop rt policy func fuel attempt s ≡ some p
      → count p.1 + attempt ≤ count s + max (attempt + 1) policy.max_attempts
  retry_loop-count zero attempt s p h = unfold retry_loop in cc
  retry_loop-count (suc fuel) attempt s p h =
      round rt policy func
        (λ o. o ≡ some p → count p.1 + attempt ≤ count s + max (attempt + 1) policy.max_attempts)
        fuel attempt s (λ a e k. ground (arith, counts.at_most s))
        (λ x e q k. ground (arith, counts.at_most s))
        (λ x t e q k. omega (
          arith,
          count-again (attempt + 1) x s t q,
          counts.at_most s,
          retry_loop-count fuel (attempt + 1) t p k,
        ))
        h

  -- What rises by at most one with each call of the function rises by at most `max_attempts` in all (by
  -- at most one, if that is 0).
  pub retry_with_backoff-count :
      (s : S) (p : Result Failure A × S)
      → retry_with_backoff rt policy func s ≡ some p
      → count p.1 ≤ count s + max 1 policy.max_attempts
  unfolding retry_with_backoff
  retry_with_backoff-count s p h = omega (arith, retry_loop-count (policy.max_attempts + 1) 0 s p h)

  module _ (x : Failure) (fails : (s : S) → (func s).0 ≡ err x)
      (once : (s : S) → count (func s).1 ≡ count s + 1) (retried : policy.retriable x ≡ true)
      (allowed : policy.do_not_retry x ≡ false) where
    on_error-exhausted :
        (attempt : ℕ) (y : Failure) (s : S)
        → y ≡ x
        → on_error rt policy func attempt y s ≡ none
        → policy.max_attempts ≤ attempt
    unfolding on_error
    on_error-exhausted attempt y s e q = ground arith

    retry_loop_exhausts :
        (fuel attempt : ℕ) (s : S) (p : Result Failure A × S)
        → retry_loop rt policy func fuel attempt s ≡ some p
        → (p.0 ≡ err x) × (count p.1 + attempt ≡ count s + max (attempt + 1) policy.max_attempts)
    retry_loop_exhausts zero attempt s p h = unfold retry_loop in cc
    retry_loop_exhausts (suc fuel) attempt s p h =
        round rt policy func
          (λ o.
            o ≡ some p
            → (p.0 ≡ err x)
              × (count p.1 + attempt ≡ count s + max (attempt + 1) policy.max_attempts))
          fuel attempt s (λ a e k. cc (fails s))
          (λ y e q k.
            let late = on_error-exhausted (attempt + 1) y (func s).1 (ground (arith, fails s)) q in
            ground (arith, late, fails s, once s))
          (λ y t e q k.
            let (lt, eq) = count-again (attempt + 1) y s t q in
            let (last, total) = retry_loop_exhausts fuel (attempt + 1) t p k in
            (last, omega (arith, once s)))
          h

    -- A function that always raises the same exception, one that is retried, is called exactly
    -- `max_attempts` times (once, if that is 0), and the exception is raised in the end; the calls
    -- are counted by what rises by one with each and by nothing else.
    pub retry_with_backoff_exhausts :
        (s : S) (p : Result Failure A × S)
        → retry_with_backoff rt policy func s ≡ some p
        → (p.0 ≡ err x) × (count p.1 ≡ count s + max 1 policy.max_attempts)
    unfolding retry_with_backoff
    retry_with_backoff_exhausts s p h =
        let (last, total) = retry_loop_exhausts (policy.max_attempts + 1) 0 s p h in
        (last, omega arith)

-- An exception that is not to be retried is raised by the first attempt: nothing is slept.
pub retry_with_backoff_passes :
    {S A : Type 0} (rt : Runtime S) (policy : Policy) (func : Exec S Failure A) (s : S)
    (e : Failure)
    → (func s).0 ≡ err e
    → policy.do_not_retry e ≡ true
    → retry_with_backoff rt policy func s ≡ some (err e, (func s).1)
unfolding retry_with_backoff
retry_with_backoff_passes {S} {A} rt policy func s e raised passed =
    subst (λ (n : ℕ). retry_loop rt policy func n 0 s ≡ some (err e, (func s).1)) one_more
      (round rt policy func (λ o. o ≡ some (err e, (func s).1)) policy.max_attempts 0 s (λ a q. cc)
        (λ x q _. ground arith) (λ x t q again. absurd (stops x t (ground arith) again)))
  where
    one_more : suc policy.max_attempts ≡ policy.max_attempts + 1
    one_more = omega arith

    stops : (x : Failure) (t : S) → x ≡ e → on_error rt policy func 1 x (func s).1 ≡ some t → ⊥
    stops x t same again = unfold on_error in ground arith
