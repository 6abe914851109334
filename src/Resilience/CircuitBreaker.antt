-- ===== src/Resilience/CircuitBreaker.antt =====
-- circuit_breaker.py. Times are whole units of `time.monotonic()`; what a call awaits may change the
-- whole state, so other tasks that use the same breaker meanwhile are covered.
pub mod Invariant
pub mod Recovery
pub mod Frame
use fastapi_kafka_guide.Prelude.{
  ℕ, ◌+◌, String, Bool, true, Option, none, some, leb, if◌then◌else◌, Result, ok, err, Exec,
}
use fastapi_kafka_guide.Resilience.Errors.{Failure, circuit_open}

-- `CircuitState`; `opened` is OPEN.
pub data CircuitState : Type 0 where
  closed opened half_open : CircuitState

-- The fields of a `CircuitBreaker`; `expected_exception` is the class as a test.
pub record CircuitBreaker : Type 0 where
  pub name : String
  pub failure_threshold : ℕ
  pub recovery_timeout : ℕ
  pub expected_exception : Failure → Bool
  pub state : CircuitState
  pub failure_count : ℕ
  pub opened_at : Option ℕ

-- `__init__`
unfoldable pub new_breaker : String → ℕ → ℕ → (Failure → Bool) → CircuitBreaker
new_breaker name failure_threshold recovery_timeout expected_exception = record {
  name = name;
  failure_threshold = failure_threshold;
  recovery_timeout = recovery_timeout;
  expected_exception = expected_exception;
  state = closed;
  failure_count = 0;
  opened_at = none;
}

-- `_should_attempt_recovery` at the clock reading `now`
unfoldable pub should_attempt_recovery : ℕ → CircuitBreaker → Bool
should_attempt_recovery now b = elim b.opened_at [
  | none ↦ true
  | some opened_at ↦ leb (opened_at + b.recovery_timeout) now
]

-- `_open`
unfoldable pub open_circuit : ℕ → CircuitBreaker → CircuitBreaker
open_circuit now b = record b { state = opened; opened_at = some now }

-- `_before_call`: passes, or raises CircuitBreakerOpenError
unfoldable pub before_call : ℕ → Exec CircuitBreaker Failure (Unit {0})
unfolding should_attempt_recovery
before_call now b = elim b.state [
  | opened ↦
      if should_attempt_recovery now b
      then (ok tt, record b { state = half_open })
      else (err circuit_open, b)
  | _ ↦ (ok tt, b)
]

-- `_on_success`
unfoldable pub on_success : CircuitBreaker → CircuitBreaker
on_success b = record b { state = closed; failure_count = 0; opened_at = none }

count_failure : ℕ → CircuitBreaker → CircuitBreaker
unfolding open_circuit
count_failure now b =
    let b' = record b { failure_count = b.failure_count + 1 } in
    if leb b'.failure_threshold b'.failure_count then open_circuit now b' else b'

-- `_on_failure`
unfoldable pub on_failure : ℕ → CircuitBreaker → CircuitBreaker
unfolding open_circuit count_failure
on_failure now b = elim b.state [ half_open ↦ open_circuit now b | _ ↦ count_failure now b ]

-- What the awaited code and the breaker share: the breaker, the clock, and everything else.
pub record World (X : Type 0) : Type 0 where
  pub breaker : CircuitBreaker
  pub clock : ℕ
  pub outside : X

-- A method of the breaker, run at the clock of the world.
abbrev pub with_breaker : {X : Type 0} → (CircuitBreaker → CircuitBreaker) → World X → World X
with_breaker f w = record w { breaker = f w.breaker }

abbrev settle : {X A : Type 0} → Result Failure A × World X → Result Failure A × World X
settle (ok a, w) = (ok a, with_breaker on_success w)
settle (err e, w) =
    (err e, if w.breaker.expected_exception e then with_breaker (on_failure w.clock) w else w)

abbrev proceed :
    {X A : Type 0} → Result Failure (Unit {0}) → Exec (World X) Failure A → Exec (World X) Failure A
proceed (ok _) func w = settle (func w)
proceed (err e) func w = (err e, w)

-- `call`: `func` runs only if `_before_call` passes, on the state that `_before_call` left.
unfoldable pub call : {X A : Type 0} → Exec (World X) Failure A → Exec (World X) Failure A
unfolding before_call on_success on_failure
call func w =
    let (passed, b) = before_call w.clock w.breaker in
    proceed passed func (record w { breaker = b })
