-- ===== src/Resilience/GatewayClient/Outcomes.antt =====
-- What a payment request is answered, how often it reaches the gateway, and that it always ends.
use fastapi_kafka_guide.Prelude.{
  ℕ, ◌+◌, ◌≤◌, ◌<◌, String, ◌≡◌, refl, ap, inl, inr, true, false, some, arith, Bool-cases, Result,
  Result-cases,
}
use Prim.Native.Nat.{max}
use fastapi_kafka_guide.Resilience.Errors.{Failure, circuit_open}
use fastapi_kafka_guide.Resilience.CircuitBreaker.{World, opened, call}
use fastapi_kafka_guide.Resilience.CircuitBreaker.Invariant.{IsValid, call-IsValid}
use fastapi_kafka_guide.Resilience.CircuitBreaker.Recovery.{call-refused}
use fastapi_kafka_guide.Resilience.CircuitBreaker.Frame.{call-outside}
use fastapi_kafka_guide.Resilience.Retry.Bounds.{
  retry_with_backoff_total, retry_with_backoff_passes, retry_with_backoff-count,
  retry_with_backoff-keeps,
}
use fastapi_kafka_guide.Resilience.GatewayClient.{
  Client, PaymentRequest, Reply, http_exception, is_valid_request, to_reply, charge_policy,
  http_call, charge, create_payment,
}

module _ {X B F : Type 0} (c : Client X B F) where
  -- While the circuit is open and its recovery time has not passed, a valid request is answered with
  -- 503 at once: nothing is sent to the gateway, nothing is slept, and the world stays as it was.
  pub create_payment_short_circuited :
      (req : PaymentRequest F) (w : World X) (t : ℕ)
      → is_valid_request c.is_positive req ≡ true
      → w.breaker.state ≡ opened
      → w.breaker.opened_at ≡ some t
      → w.clock < t + w.breaker.recovery_timeout
      → create_payment c req w ≡ some (http_exception 503, w)
  unfolding create_payment
  create_payment_short_circuited req w t valid st at early =
      let refused = call-refused (http_call c req.order_id req.amount) w t st at early in
      let raised =
        retry_with_backoff_passes c.runtime
          (charge_policy c.retry_max_attempts c.retry_base_delay_ms)
          (call (http_call c req.order_id req.amount)) w circuit_open
          (ap (λ (p : Result Failure B × World X). p.0) refused) refl in
      rw (valid, raised, refused)

  -- Every request is answered, whatever the gateway does. A request that is not valid gets 422 and
  -- changes nothing; a valid one gets what the outcome of `charge` says, and `charge` has an outcome.
  pub create_payment_total :
      (req : PaymentRequest F) (w : World X)
      → (p : Reply B × World X) × (create_payment c req w ≡ some p)
        × (is_valid_request c.is_positive req ≡ false → p ≡ (http_exception 422, w))
        × (is_valid_request c.is_positive req ≡ true
            → (r : Result Failure B) × (charge c req.order_id req.amount w ≡ some (r, p.1))
              × (p.0 ≡ to_reply req.order_id r))
  unfolding create_payment
  create_payment_total req w = elim (Bool-cases (is_valid_request c.is_positive req)) [
    | inl valid ↦
        let ((r, w'), e) =
          retry_with_backoff_total c.runtime
            (charge_policy c.retry_max_attempts c.retry_base_delay_ms)
            (call (http_call c req.order_id req.amount)) w in
        ((to_reply req.order_id r, w'), rw (valid, e), λ invalid. cc, λ _. (r, e, refl))
    | inr invalid ↦ ((http_exception 422, w), rw invalid, λ _. refl, λ valid. cc)
  ]

  http_call-world :
      (order_id : String) (amount : F) (w : World X)
      → (http_call c order_id amount w).1 ≡ (c.post order_id amount w).1
  unfolding http_call
  http_call-world order_id amount w = elim (Result-cases (c.post order_id amount w).0) [
    | inl (response, e) ↦ rw (e, http_call)
    | inr (x, e) ↦ rw (e, http_call)
  ]

  -- The circuit breaker's invariant survives a payment, if the code outside keeps it.
  pub charge-IsValid :
      (order_id : String) (amount : F)
      → ((w : World X) → IsValid w.breaker → IsValid (c.post order_id amount w).1.breaker)
      → ((w : World X) → IsValid w.breaker → IsValid (c.runtime.random w).1.breaker)
      → ((d : ℕ) (w : World X) → IsValid w.breaker → IsValid (c.runtime.sleep d w).breaker)
      → (w : World X) (p : Result Failure B × World X) → IsValid w.breaker
      → charge c order_id amount w ≡ some p
      → IsValid p.1.breaker
  unfolding charge
  charge-IsValid order_id amount posts draws sleeps w p h e =
      retry_with_backoff-keeps c.runtime (charge_policy c.retry_max_attempts c.retry_base_delay_ms)
        (call (http_call c order_id amount)) (λ w. IsValid w.breaker)
        (call-IsValid (http_call c order_id amount)
          (λ w' h'. rw (http_call-world order_id amount w') (posts w' h')))
        draws sleeps w p h e

  -- One payment sends at most `RETRY_MAX_ATTEMPTS` requests to the gateway (one, if that is 0): what
  -- counts the requests rises by at most that, if each call of `post` adds at most one and neither a
  -- draw nor a sleep adds any.
  pub charge-count :
      (requests : X → ℕ) (order_id : String) (amount : F)
      → ((w : World X) → requests (c.post order_id amount w).1.outside ≤ requests w.outside + 1)
      → ((w : World X) → requests (c.runtime.random w).1.outside ≡ requests w.outside)
      → ((d : ℕ) (w : World X) → requests (c.runtime.sleep d w).outside ≡ requests w.outside)
      → (w : World X) (p : Result Failure B × World X) → charge c order_id amount w ≡ some p
      → requests p.1.outside ≤ requests w.outside + max 1 c.retry_max_attempts
  unfolding charge
  charge-count requests order_id amount posts draws sleeps w p e =
      retry_with_backoff-count c.runtime (charge_policy c.retry_max_attempts c.retry_base_delay_ms)
        (call (http_call c order_id amount)) (λ w. requests w.outside)
        (record { at_most = once; draws = draws; sleeps = sleeps }) w p e
    where
      once :
          (w : World X)
          → requests (call (http_call c order_id amount) w).1.outside ≤ requests w.outside + 1
      once w =
          call-outside (http_call c order_id amount) (λ x. requests x ≤ requests w.outside + 1) w
            (omega arith) (λ w' same. rw (http_call-world order_id amount w', ← same) (posts w'))
