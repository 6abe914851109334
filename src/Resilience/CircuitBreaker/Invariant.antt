-- ===== src/Resilience/CircuitBreaker/Invariant.antt =====
-- The invariant of a circuit breaker, and the point at which it trips.
use fastapi_kafka_guide.Prelude.{
  ℕ, zero, suc, ◌+◌, ◌-◌, ◌<◌, String, ◌≡◌, refl, inl, inr, Bool, true, none, arith, Bool-cases,
  is_some, Result, ok, err, Exec,
}
use fastapi_kafka_guide.Resilience.Errors.{Failure, circuit_open}
use fastapi_kafka_guide.Resilience.CircuitBreaker.{
  CircuitBreaker, closed, half_open, new_breaker, before_call, on_success, on_failure, World, call,
  settle, proceed,
}

-- A closed circuit has counted fewer failures than trip it and has no opening time; an open or a
-- half-open one has the time at which it was opened.
abbrev pub IsConsistent : CircuitBreaker → Type 0
IsConsistent b = elim b.state [
  | closed ↦ (b.failure_count < b.failure_threshold) × (b.opened_at ≡ none)
  | _ ↦ is_some b.opened_at ≡ true
]

pub record IsValid (b : CircuitBreaker) : Type 0 where
  pub trips : 0 < b.failure_threshold
  pub consistent : IsConsistent b

pub new_breaker-IsValid :
    (name : String) (threshold timeout : ℕ) (expected : Failure → Bool)
    → 0 < threshold
    → IsValid (new_breaker name threshold timeout expected)
unfolding new_breaker
new_breaker-IsValid name threshold timeout expected h = record { trips = h; consistent = (h, refl) }

pub before_call-IsValid : (now : ℕ) (b : CircuitBreaker) → IsValid b → IsValid (before_call now b).1
unfolding before_call
before_call-IsValid now b h = ground (arith, h.consistent)

pub on_success-IsValid : (b : CircuitBreaker) → IsValid b → IsValid (on_success b)
unfolding on_success
on_success-IsValid b h = ground (arith, h.consistent)

pub on_failure-IsValid : (now : ℕ) (b : CircuitBreaker) → IsValid b → IsValid (on_failure now b)
unfolding on_failure
on_failure-IsValid now b h = ground (arith, h.consistent)

settle-IsValid :
    {X A : Type 0} (r : Result Failure A) (w : World X)
    → IsValid w.breaker
    → IsValid (settle (r, w)).1.breaker
settle-IsValid (ok a) w h = on_success-IsValid w.breaker h
settle-IsValid (err e) w h = elim (Bool-cases (w.breaker.expected_exception e)) [
  | inl counted ↦ rw counted (on_failure-IsValid w.clock w.breaker h)
  | inr passed_on ↦ rw passed_on h
]

module _ {X A : Type 0} (func : Exec (World X) Failure A)
    (keeps : (w : World X) → IsValid w.breaker → IsValid (func w).1.breaker) where
  proceed-IsValid :
      (passed : Result Failure (Unit {0})) (w : World X)
      → IsValid w.breaker
      → IsValid (proceed passed func w).1.breaker
  proceed-IsValid (ok _) w h = settle-IsValid (func w).0 (func w).1 (keeps w h)
  proceed-IsValid (err e) w h = h

  -- A call keeps the invariant on every path, whatever the awaited code does to the shared state, as
  -- long as that code keeps it.
  pub call-IsValid : (w : World X) → IsValid w.breaker → IsValid (call func w).1.breaker
  unfolding call
  call-IsValid w h =
      let (passed, b) = before_call w.clock w.breaker in
      proceed-IsValid passed (record w { breaker = b }) (before_call-IsValid w.clock w.breaker h)

-- Tasks that share one breaker: any number of calls are between `_before_call` and their end.
pub record Shared : Type 0 where
  pub breaker : CircuitBreaker
  pub in_flight : ℕ
  pub clock : ℕ

-- What the event loop may run next: time passes, a call enters or is refused, a call in flight ends.
pub data Step (s : Shared) : Shared → Type 0 where
  wait : (n : ℕ) → Step s (record s { clock = s.clock + n })
  enter :
      (before_call s.clock s.breaker).0 ≡ ok tt
      → Step s
          (record s { breaker = (before_call s.clock s.breaker).1; in_flight = s.in_flight + 1 })
  refuse : (before_call s.clock s.breaker).0 ≡ err circuit_open → Step s s
  succeed :
      0 < s.in_flight
      → Step s (record s { breaker = on_success s.breaker; in_flight = s.in_flight - 1 })
  fail :
      0 < s.in_flight
      → Step s (record s { breaker = on_failure s.clock s.breaker; in_flight = s.in_flight - 1 })
  escape : 0 < s.in_flight → Step s (record s { in_flight = s.in_flight - 1 })

pub data Reach (s : Shared) : Shared → Type 0 where
  here : Reach s s
  next : {t u : Shared} → Reach s t → Step t u → Reach s u

Step-IsValid : {s t : Shared} → Step s t → IsValid s.breaker → IsValid t.breaker
Step-IsValid (wait n) h = h
Step-IsValid {s} (enter passed) h = before_call-IsValid s.clock s.breaker h
Step-IsValid (refuse refused) h = h
Step-IsValid {s} (succeed busy) h = on_success-IsValid s.breaker h
Step-IsValid {s} (fail busy) h = on_failure-IsValid s.clock s.breaker h
Step-IsValid (escape busy) h = h

-- Whatever order the event loop runs the calls of all tasks in, the invariant holds if it held at
-- the start: the threshold is at least one, a closed circuit has counted fewer failures than trip it
-- and has no opening time, any other has an opening time.
pub Reach-IsValid : {s t : Shared} → IsValid s.breaker → Reach s t → IsValid t.breaker
Reach-IsValid h here = h
Reach-IsValid h (next r st) = Step-IsValid st (Reach-IsValid h r)

-- An entry into a half-open circuit changes nothing of the breaker.
enter_half_open :
    (s : Shared)
    → s.breaker.state ≡ half_open
    → (t : Shared) × Step s t × (t.breaker.state ≡ half_open) × (t.in_flight ≡ s.in_flight + 1)
unfolding before_call
enter_half_open s h = (
  record s { breaker = (before_call s.clock s.breaker).1; in_flight = s.in_flight + 1 },
  enter (ground arith),
  ground arith,
  refl,
)

-- A half-open circuit lets any number of calls in: from there the event loop can admit `n` calls with
-- none of them ended, and the circuit is still half-open.
pub half_open_admits :
    (s : Shared) (n : ℕ)
    → s.breaker.state ≡ half_open
    → (t : Shared) × Reach s t × (t.breaker.state ≡ half_open) × (t.in_flight ≡ s.in_flight + n)
half_open_admits s zero h = (s, here, h, omega arith)
half_open_admits s (suc n) h =
    let (t, r, st, k) = half_open_admits s n h in
    let (u, step, st', k') = enter_half_open t st in (u, next r step, st', omega arith)
