-- ===== src/Resilience/GatewayClient.antt =====
-- gateway_client.py and client_main.py: a payment goes through the retry loop, the circuit breaker and
-- one HTTP call. The call of httpx is the parameter `post`; it may change the whole world, since other
-- requests run while it waits. An amount is a float, of any type `F`: it is tested for `gt=0` and passed on.
pub mod Outcomes
pub mod Paid
use fastapi_kafka_guide.Prelude.{
  ℕ, String, Bool, true, false, ◌&&◌, not, Option, none, some, leb, if◌then◌else◌, Result, ok, err,
  Exec, ◌==◌,
}
use Prim.Native.String.{String}
use fastapi_kafka_guide.Resilience.Errors.{Failure, http_error, circuit_open, unexpected}
use fastapi_kafka_guide.Resilience.CircuitBreaker.{World, call}
use fastapi_kafka_guide.Resilience.Retry.{Policy, Runtime, retry_with_backoff}

-- An `httpx.Response`: its status, and its body if that is JSON.
pub record Response (B : Type 0) : Type 0 where
  pub status_code : ℕ
  pub json : Option B

-- `raise_for_status`, then `json()`: httpx raises `HTTPStatusError` unless the status is 2xx.
unfoldable pub read_response : {B : Type 0} → Response B → Result Failure B
read_response r =
    if leb 200 r.status_code && leb r.status_code 299
    then elim r.json [ some b ↦ ok b | none ↦ err unexpected ]
    else err http_error

abbrev is_http_error : Failure → Bool
is_http_error http_error = true
is_http_error _ = false

abbrev is_circuit_open : Failure → Bool
is_circuit_open circuit_open = true
is_circuit_open _ = false

-- The arguments that `charge` gives `retry_with_backoff`.
unfoldable pub charge_policy : ℕ → ℕ → Policy
charge_policy max_attempts base_delay_ms = record {
  max_attempts = max_attempts;
  base_delay_ms = base_delay_ms;
  retriable = is_http_error;
  do_not_retry = is_circuit_open;
}

-- `PaymentRequest`
pub record PaymentRequest (F : Type 0) : Type 0 where
  pub order_id : String
  pub amount : F

-- What the endpoint answers: the result, or an `HTTPException` with its status.
pub data Reply (B : Type 0) : Type 0 where
  paid : String → B → Reply B
  http_exception : ℕ → Reply B

-- `Field(min_length=1)` and `Field(gt=0)`
unfoldable pub is_valid_request : {F : Type 0} → (F → Bool) → PaymentRequest F → Bool
is_valid_request is_positive req = not (req.order_id == "") && is_positive req.amount

-- The `except` clauses of `create_payment`; any other exception becomes a 500.
unfoldable pub to_reply : {B : Type 0} → String → Result Failure B → Reply B
to_reply order_id (ok result) = paid order_id result
to_reply order_id (err circuit_open) = http_exception 503
to_reply order_id (err http_error) = http_exception 502
to_reply order_id (err unexpected) = http_exception 500

-- The settings of config.py and the code outside: `is_positive` is the test `amount > 0`, and
-- `post` sends one request of an order and an amount.
pub record Client (X B F : Type 0) : Type 0 where
  pub retry_max_attempts : ℕ
  pub retry_base_delay_ms : ℕ
  pub runtime : Runtime (World X)
  pub is_positive : F → Bool
  pub post : String → F → Exec (World X) Failure (Response B)

module _ {X B F : Type 0} (c : Client X B F) where
  -- `_http_call`
  unfoldable pub http_call : String → F → Exec (World X) Failure B
  unfolding read_response
  http_call order_id amount w =
      let (r, w') = c.post order_id amount w in
      elim r [ ok response ↦ (read_response response, w') | err e ↦ (err e, w') ]

  -- `charge` (the client is started); `none` would mean that the loop did not end
  unfoldable pub charge : String → F → World X → Option (Result Failure B × World X)
  unfolding charge_policy
  charge order_id amount =
      retry_with_backoff c.runtime (charge_policy c.retry_max_attempts c.retry_base_delay_ms)
        (call (http_call order_id amount))

  -- `POST /payments`; a request that is not valid is answered with 422 before the handler runs
  unfoldable pub create_payment : PaymentRequest F → World X → Option (Reply B × World X)
  unfolding charge to_reply is_valid_request
  create_payment req w =
      if is_valid_request c.is_positive req
      then elim (charge req.order_id req.amount w) [
        | some (r, w') ↦ some (to_reply req.order_id r, w')
        | none ↦ none
      ]
      else some (http_exception 422, w)
