-- ===== src/Resilience/Examples.antt =====
-- The theorems on retries, the circuit breaker and the gateway's client at concrete inputs.
use fastapi_kafka_guide.Prelude.{
  ltb, ℕ, ◌+◌, ◌*◌, ◌≤◌, ◌<◌, ◌≡◌, refl, Bool, true, false, none, some, arith, Result, ok, err,
  Exec,
}
use Prim.Native.Nat.{max}
use fastapi_kafka_guide.Resilience.Errors.{Failure, http_error}
use fastapi_kafka_guide.Resilience.CircuitBreaker.{
  CircuitBreaker, closed, opened, half_open, World, call,
}
use fastapi_kafka_guide.Resilience.CircuitBreaker.Invariant.{
  IsValid, Shared, Reach, wait, here, next, Reach-IsValid, half_open_admits,
}
use fastapi_kafka_guide.Resilience.CircuitBreaker.Recovery.{
  calls, Decides, trial_call, Counted, calls_trip,
}
use fastapi_kafka_guide.Resilience.Retry.{resolution, Policy, Runtime, retry_with_backoff}
use fastapi_kafka_guide.Resilience.Retry.Bounds.{
  Counts, retry_with_backoff_total, retry_with_backoff_exhausts,
}
use fastapi_kafka_guide.Resilience.Retry.Sleeps.{Slept, weight, retry_with_backoff-slept}
use fastapi_kafka_guide.Resilience.GatewayClient.{
  Client, PaymentRequest, Reply, http_exception, is_valid_request, charge, create_payment,
}
use fastapi_kafka_guide.Resilience.GatewayClient.Outcomes.{
  create_payment_short_circuited, create_payment_total, charge-count,
}

abbrev every : Failure → Bool
every e = true

abbrev fresh_breaker : CircuitBreaker
fresh_breaker = record {
  name = "pg";
  failure_threshold = 1;
  recovery_timeout = 10;
  expected_exception = every;
  state = closed;
  failure_count = 0;
  opened_at = none;
}

abbrev open_breaker : CircuitBreaker
open_breaker = record fresh_breaker { state = opened; opened_at = some 5 }

abbrev shared : Shared
shared = record { breaker = fresh_breaker; in_flight = 1; clock = 0 }

fresh_breaker-IsValid : IsValid fresh_breaker
fresh_breaker-IsValid = record { trips = omega arith; consistent = (omega arith, refl) }

abbrev later : Shared
later = record shared { clock = 3 }

Reach-IsValid_example : IsValid later.breaker
Reach-IsValid_example =
    Reach-IsValid {s = shared} {t = later} fresh_breaker-IsValid (next here (wait 3))

abbrev trying : Shared
trying = record { breaker = record open_breaker { state = half_open }; in_flight = 0; clock = 20 }

half_open_admits_example :
    (t : Shared) × Reach trying t × (t.breaker.state ≡ half_open) × (t.in_flight ≡ 0 + 2)
half_open_admits_example = half_open_admits trying 2 refl

-- Code that fails, and counts its calls.
abbrev failing : Exec (World ℕ) Failure ℕ
failing w = (err http_error, record w { outside = w.outside + 1 })

abbrev world : CircuitBreaker → ℕ → World ℕ
world b clock = record { breaker = b; clock = clock; outside = 0 }

trial_call_example :
    Decides
      (failing (world (record open_breaker { state = half_open }) 15))
      (call failing (world open_breaker 15))
trial_call_example =
    trial_call failing (world open_breaker 15) 5 (λ w. refl) refl refl (omega arith)

fresh-Counted : Counted {X = ℕ} http_error 1 0 (world fresh_breaker 0)
fresh-Counted = record { is_closed = refl; count = refl; limit = refl; expects = refl }

calls_trip_example :
    ((k : ℕ) → k < 0 + 1 → (calls failing k (world fresh_breaker 0)).breaker.state ≡ closed)
    × ((calls failing 1 (world fresh_breaker 0)).breaker.state ≡ opened)
    × ((calls failing 1 (world fresh_breaker 0)).breaker.opened_at
        ≡ some (failing (calls failing 0 (world fresh_breaker 0))).1.clock)
calls_trip_example =
    calls_trip failing http_error (λ w. refl) (λ w. refl) 0 (world fresh_breaker 0) fresh-Counted

-- The calls made and the time slept.
record Work : Type 0 where
  calls_made : ℕ
  slept : ℕ

abbrev runtime : Runtime Work
runtime = record { random = λ w. (0, w); sleep = λ d w. record w { slept = w.slept + d } }

abbrev policy : Policy
policy = record {
  max_attempts = 3;
  base_delay_ms = 100;
  retriable = every;
  do_not_retry = λ e. false;
}

abbrev attempt : Exec Work Failure ℕ
attempt w = (err http_error, record w { calls_made = w.calls_made + 1 })

abbrev idle : Work
idle = record { calls_made = 0; slept = 0 }

retry_with_backoff_total_example :
    (p : Result Failure ℕ × Work) × (retry_with_backoff runtime policy attempt idle ≡ some p)
retry_with_backoff_total_example = retry_with_backoff_total runtime policy attempt idle

abbrev outcome : Result Failure ℕ × Work
outcome = (retry_with_backoff_total runtime policy attempt idle).0

attempt-Counts : Counts runtime attempt (λ w. w.calls_made)
attempt-Counts = record { at_most = λ w. omega arith; draws = λ w. refl; sleeps = λ d w. refl }

retry_with_backoff_exhausts_example :
    (outcome.0 ≡ err http_error) × (outcome.1.calls_made ≡ 0 + max 1 3)
retry_with_backoff_exhausts_example =
    retry_with_backoff_exhausts runtime policy attempt (λ w. w.calls_made) attempt-Counts http_error
      (λ w. refl) (λ w. refl) refl refl idle outcome
      (retry_with_backoff_total runtime policy attempt idle).1

attempt-Slept : Slept runtime attempt (λ w. w.slept)
attempt-Slept = record {
  works = λ w. refl;
  draws = λ w. refl;
  below_one = λ w. omega arith;
  sleeps = λ d w. refl;
}

retry_with_backoff-slept_example :
    outcome.1.slept + weight 100 0 ≤ 0 + weight 100 2 + 50 * resolution * 2
retry_with_backoff-slept_example =
    retry_with_backoff-slept runtime policy attempt (λ w. w.slept) attempt-Slept 2 (omega arith)
      idle outcome (retry_with_backoff_total runtime policy attempt idle).1

abbrev client : Client ℕ ℕ ℕ
client = record {
  retry_max_attempts = 3;
  retry_base_delay_ms = 100;
  runtime = record { random = λ w. (0, w); sleep = λ d w. record w { clock = w.clock + d } };
  is_positive = λ n. ltb 0 n;
  post = λ order_id amount w.
      (ok (record { status_code = 500; json = none }), record w { outside = w.outside + 1 });
}

abbrev payment : PaymentRequest ℕ
payment = record { order_id = "o1"; amount = 30 }

payment-valid : is_valid_request client.is_positive payment ≡ true
unfolding is_valid_request
payment-valid = refl

create_payment_short_circuited_example :
    create_payment client payment (world open_breaker 6)
    ≡ some (http_exception 503, world open_breaker 6)
create_payment_short_circuited_example =
    create_payment_short_circuited client payment (world open_breaker 6) 5 payment-valid refl refl
      (omega arith)

-- A gateway that accepts every charge with the body 7.
abbrev paying : Client ℕ ℕ ℕ
paying = record client {
  post = λ order_id amount w.
      (ok (record { status_code = 200; json = some 7 }), record w { outside = w.outside + 1 });
}

abbrev paid_world : World ℕ
paid_world = record (world fresh_breaker 0) { outside = 1 }

abbrev answered :
    (p : Reply ℕ × World ℕ) × (create_payment client payment (world fresh_breaker 0) ≡ some p)
answered =
    let total = create_payment_total client payment (world fresh_breaker 0) in (total.0, total.1)

abbrev charged :
    (r : Result Failure ℕ) × (charge client "o1" 30 (world fresh_breaker 0)
      ≡ some (r, answered.0.1))
charged =
    let total = create_payment_total client payment (world fresh_breaker 0) in
    let c = total.3 payment-valid in (c.0, c.1)

charge-count_example : answered.0.1.outside ≤ 0 + max 1 3
charge-count_example =
    charge-count client (λ n. n) "o1" 30 (λ w. omega arith) (λ w. refl) (λ d w. refl)
      (world fresh_breaker 0) (charged.0, answered.0.1) charged.1
