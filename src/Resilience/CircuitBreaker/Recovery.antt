-- ===== src/Resilience/CircuitBreaker/Recovery.antt =====
-- When a circuit breaker opens, how long it refuses calls, and how a trial call decides.
use fastapi_kafka_guide.Prelude.{
  ℕ, zero, suc, ◌+◌, ◌≤◌, ◌<◌, ◌≡◌, refl, ap, subst, true, false, none, some, arith, Result, ok,
  err, Exec,
}
use fastapi_kafka_guide.Resilience.Errors.{Failure, circuit_open}
use fastapi_kafka_guide.Resilience.CircuitBreaker.{
  CircuitBreaker, closed, opened, half_open, before_call, on_success, on_failure, World, call,
  settle, proceed,
}

module _ {X A : Type 0} (func : Exec (World X) Failure A) where
  -- The world after `n` calls in a row.
  pub calls : ℕ → World X → World X
  calls zero w = w
  calls (suc n) w = (call func (calls n w)).1

  -- While an open circuit's recovery time has not passed, a call raises CircuitBreakerOpenError at
  -- once: the awaited code does not run and nothing changes.
  pub call-refused :
      (w : World X) (t : ℕ)
      → w.breaker.state ≡ opened
      → w.breaker.opened_at ≡ some t
      → w.clock < t + w.breaker.recovery_timeout
      → call func w ≡ (err circuit_open, w)
  unfolding call
  call-refused w t st at early = ground arith

  call-enters :
      (w : World X) (b : CircuitBreaker)
      → before_call w.clock w.breaker ≡ (ok tt, b)
      → call func w ≡ settle (func (record w { breaker = b }))
  unfolding call
  call-enters w b e = rw (e, call)

settle-ok :
    {X A : Type 0} (p : Result Failure A × World X) (a : A) → (settle p).0 ≡ ok a → p.0 ≡ ok a
settle-ok (ok b, u) a h = h
settle-ok (err e, u) a h = cc

proceed-ok :
    {X A : Type 0} (passed : Result Failure (Unit {0})) (func : Exec (World X) Failure A)
    (w : World X) (a : A)
    → (proceed passed func w).0 ≡ ok a
    → (func w).0 ≡ ok a
proceed-ok (ok _) func w a h = settle-ok (func w) a h
proceed-ok (err e) func w a h = cc

-- A call returns only what the awaited code returned.
pub call-ok :
    {X A : Type 0} (func : Exec (World X) Failure A) (w : World X) (a : A)
    → (call func w).0 ≡ ok a
    → (v : World X) × ((func v).0 ≡ ok a)
unfolding call
call-ok func w a h =
    let (passed, b) = before_call w.clock w.breaker in
    let v = record w { breaker = b } in (v, proceed-ok passed func v a h)

-- How the end of the awaited code decides: `p` is what that code returned or raised, and the world
-- that it left.
abbrev pub Decides :
    {X A : Type 0} → Result Failure A × World X → Result Failure A × World X → Type 0
Decides {A = A} (r, u) (r', u') =
    (r' ≡ r)
    × ((a : A)
        → r ≡ ok a
        → u'.breaker ≡ record u.breaker { state = closed; failure_count = 0; opened_at = none })
    × ((e : Failure)
        → r ≡ err e
        → u.breaker.expected_exception e ≡ true
        → u'.breaker ≡ record u.breaker { state = opened; opened_at = some u.clock })
    × ((e : Failure) → r ≡ err e → u.breaker.expected_exception e ≡ false → u'.breaker ≡ u.breaker)

settle-Decides :
    {X A : Type 0} (p : Result Failure A × World X)
    → p.1.breaker.state ≡ half_open
    → Decides p (settle p)
unfolding on_success on_failure
settle-Decides (ok a, u) h = (refl, λ a' e. refl, λ e c. cc, λ e c. cc)
settle-Decides (err x, u) h =
    (refl, λ a c. cc, λ e c counted. ground arith, λ e c passed_on. ground arith)

-- The first call after the recovery time is a trial: the awaited code runs on a half-open circuit.
-- If it leaves the breaker alone, a success closes the circuit and clears its count, an expected
-- failure opens it again from the time of the failure, and another exception leaves it half-open.
pub trial_call :
    {X A : Type 0} (func : Exec (World X) Failure A) (w : World X) (t : ℕ)
    → ((w' : World X) → (func w').1.breaker ≡ w'.breaker)
    → w.breaker.state ≡ opened
    → w.breaker.opened_at ≡ some t
    → t + w.breaker.recovery_timeout ≤ w.clock
    → Decides (func (record w { breaker = record w.breaker { state = half_open } })) (call func w)
trial_call func w t keeps st at late =
    let b = record w.breaker { state = half_open } in
    rw (call-enters func w b (unfold before_call in ground arith)) (
      settle-Decides (func (record w { breaker = b }))
        (ap (λ (x : CircuitBreaker). x.state) (keeps (record w { breaker = b }))))

-- A closed circuit that has counted `c` failures, for an expected exception `e`.
pub record Counted {X : Type 0} (e : Failure) (threshold c : ℕ) (w : World X) : Type 0 where
  pub is_closed : w.breaker.state ≡ closed
  pub count : w.breaker.failure_count ≡ c
  pub limit : w.breaker.failure_threshold ≡ threshold
  pub expects : w.breaker.expected_exception e ≡ true

module _ {X A : Type 0} (func : Exec (World X) Failure A) (e : Failure)
    (fails : (w : World X) → (func w).0 ≡ err e)
    (keeps : (w : World X) → (func w).1.breaker ≡ w.breaker) where
  call-closed :
      (w : World X)
      → w.breaker.state ≡ closed
      → w.breaker.expected_exception e ≡ true
      → (call func w).1.breaker ≡ on_failure (func w).1.clock w.breaker
  unfolding call
  call-closed w st x = grind (arith, fails w, keeps w)

  call-Counted :
      (threshold c : ℕ) (w : World X)
      → Counted e threshold c w
      → c + 1 < threshold
      → Counted e threshold (c + 1) (call func w).1
  unfolding on_failure
  call-Counted threshold c w h lt =
      let eq = call-closed w h.is_closed h.expects in
      record {
        is_closed = rw eq (ground (arith, h));
        count = rw eq (ground (arith, h));
        limit = rw eq (ground (arith, h));
        expects = rw eq (ground (arith, h));
      }

  call-trips :
      (threshold c : ℕ) (w : World X)
      → Counted e threshold c w
      → c + 1 ≡ threshold
      → ((call func w).1.breaker.state ≡ opened)
        × ((call func w).1.breaker.opened_at ≡ some (func w).1.clock)
  unfolding on_failure
  call-trips threshold c w h eq =
      rw (call-closed w h.is_closed h.expects) (ground (arith, h), ground (arith, h))

  calls-Counted :
      (threshold n : ℕ) (w : World X)
      → Counted e threshold 0 w
      → n < threshold
      → Counted e threshold n (calls func n w)
  unfolding calls
  calls-Counted threshold zero w h lt = h
  calls-Counted threshold (suc n) w h lt =
      subst (λ (k : ℕ). Counted e threshold k (call func (calls func n w)).1) (omega arith)
        (call-Counted threshold n (calls func n w) (calls-Counted threshold n w h (omega arith))
          (omega arith))

  -- For awaited code that always raises the same expected failure and leaves the breaker alone: a
  -- closed circuit with no failure counted stays closed through any number of calls below the
  -- threshold, and the call that reaches the threshold opens it, from the time at which that failure
  -- was seen.
  pub calls_trip :
      (n : ℕ) (w : World X)
      → Counted e (n + 1) 0 w
      → ((k : ℕ) → k < n + 1 → (calls func k w).breaker.state ≡ closed)
        × ((calls func (suc n) w).breaker.state ≡ opened)
        × ((calls func (suc n) w).breaker.opened_at ≡ some (func (calls func n w)).1.clock)
  unfolding calls
  calls_trip n w h =
      let (st, at) =
        call-trips (n + 1) n (calls func n w) (calls-Counted (n + 1) n w h (omega arith)) refl in
      (λ k lt. (calls-Counted (n + 1) k w h lt).is_closed, st, at)
