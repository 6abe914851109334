-- ===== src/ErrorHandling/Payments.antt =====
-- consumer.py, dlq_consumer.py, producer.py, schemas.py and the endpoints of main.py of
-- 07-error-handling-and-retry. Amounts are floats, of which the code only tests some against constants.
use fastapi_kafka_guide.Prelude.{
  ℕ, ◌+◌, String, Bool, false, Option, none, some, List, [], ◌∷◌, ◌++◌, if◌then◌else◌, get_or,
  Result, ok, err, Exec,
}
use fastapi_kafka_guide.Messaging.{
  SendOutcome, ServiceError, commit_failed, publish, Ended, consume_loop,
}
use fastapi_kafka_guide.ErrorHandling.Retry.{Runtime, retry_with_backoff}
use Prim.Native.String.{◌++◌ as ◌+++◌}

-- The amounts, with the constants of the code and its tests.
pub record Amounts (F : Type 0) : Type 0 where
  pub no_amount : F
  pub is_ten : F → Bool
  pub is_positive : F → Bool

-- A payment as the consumer reads it: a field that is missing is `none`.
pub record Payment (F : Type 0) : Type 0 where
  pub payment_id : Option String
  pub user_id : Option String
  pub amount : Option F
  pub currency : Option String

pub record ProcessedPayment (F : Type 0) : Type 0 where
  pub payment_id : String
  pub user_id : String
  pub amount : F
  pub currency : String
  pub status : String
  pub processed_at : String

-- What `send_to_dlq` sends.
pub record DeadLetter (F : Type 0) : Type 0 where
  pub payment_id : String
  pub user_id : String
  pub amount : F
  pub currency : String
  pub error : String
  pub retry_count : ℕ
  pub failed_at : String

pub data PaymentError : Type 0 where
  rejected : Option String → PaymentError
  key_error : String → PaymentError

-- The app: the producer, the dead letter topic, `processed_payments`, the offsets committed, and what
-- was slept.
pub record App (F : Type 0) : Type 0 where
  pub producer : Bool
  pub dead_letters : List (DeadLetter F)
  pub processed_payments : List (ProcessedPayment F)
  pub commits : ℕ
  pub slept : List ℕ

-- The settings, the clock, a draw of `random` (over 2 ^ 53), how a send ends, and whether the commit raises.
pub record Env : Type 0 where
  pub max_retries : ℕ
  pub base_delay : ℕ
  pub now : String
  pub draw : ℕ
  pub send : SendOutcome
  pub commit_fails : Bool

-- `str(e)`
unfoldable pub error_text : Option PaymentError → String
error_text none = "exceptions must derive from BaseException"
error_text (some (key_error k)) = "'" +++ k +++ "'"
error_text (some (rejected payment_id)) =
    "결제 처리 실패 (payment_id="
    +++ get_or payment_id "None"
    +++ "): "
    +++ "금액 검증 오류 - amount=10은 처리할 수 없습니다"

-- What the loop's sleeps do here: they are noted.
abbrev pub runtime : {F : Type 0} → Env → Runtime (App F)
runtime env = record {
  draw = λ s. (env.draw, s);
  sleep = λ d s. record s { slept = s.slept ++ d ∷ [] };
}

module _ {F : Type 0} (amounts : Amounts F) where
  -- `payment.get("amount") == 10`
  abbrev pub is_refused : Option F → Bool
  is_refused none = false
  is_refused (some a) = amounts.is_ten a

  -- The dict of a payment that succeeds: each key must be there.
  unfoldable pub completed :
      String
      → Option String
      → Option String
      → Option F
      → Option String
      → Result PaymentError (ProcessedPayment F)
  completed now none user_id amount currency = err (key_error "payment_id")
  completed now (some p) none amount currency = err (key_error "user_id")
  completed now (some p) (some u) none currency = err (key_error "amount")
  completed now (some p) (some u) (some a) none = err (key_error "currency")
  completed now (some p) (some u) (some a) (some c) = ok (record {
    payment_id = p;
    user_id = u;
    amount = a;
    currency = c;
    status = "completed";
    processed_at = now;
  })

  unfoldable pub process_payment : String → Payment F → Result PaymentError (ProcessedPayment F)
  process_payment now payment =
      if is_refused payment.amount
      then err (rejected payment.payment_id)
      else completed now payment.payment_id payment.user_id payment.amount payment.currency

  -- `send_to_dlq`: what `send_message` raises is caught.
  unfoldable pub dead_letter : Env → Payment F → Option PaymentError → DeadLetter F
  dead_letter env payment error = record {
    payment_id = get_or payment.payment_id "unknown";
    user_id = get_or payment.user_id "unknown";
    amount = get_or payment.amount amounts.no_amount;
    currency = get_or payment.currency "KRW";
    error = error_text error;
    retry_count = env.max_retries;
    failed_at = env.now;
  }

  unfoldable pub send_to_dlq : Env → Payment F → Option PaymentError → App F → App F
  send_to_dlq env payment error s = record s {
    dead_letters = (publish s.producer env.send (dead_letter env payment error) s.dead_letters).1;
  }

  -- `try … except` around the retries: store the result, or send a dead letter.
  abbrev pub settle :
      Env → Payment F → Result (Option PaymentError) (ProcessedPayment F) → App F → App F
  settle env payment (ok result) s = record s {
    processed_payments = s.processed_payments ++ result ∷ [];
  }
  settle env payment (err error) s = send_to_dlq env payment error s

  -- `consumer.commit()`, which stands outside the `try`.
  abbrev pub committed : Env → Exec (App F) ServiceError (Unit {0})
  committed env s =
      if env.commit_fails
      then (err commit_failed, s)
      else (ok tt, record s { commits = s.commits + 1 })

  -- One message of `consume_payments`: the offset is committed whether the payment succeeded or not.
  unfoldable pub consume_payment : Env → Payment F → Exec (App F) ServiceError (Unit {0})
  consume_payment env payment s =
      let (r, s') =
        retry_with_backoff (runtime env) env.max_retries env.base_delay
          (λ t. (process_payment env.now payment, t)) s in
      committed env (settle env payment r s')

  -- The loop of `consume_payments`, which an exception of the commit ends.
  unfoldable pub consume_payments : List (Env × Payment F) → App F → Ended × App F
  consume_payments messages = consume_loop (λ m. consume_payment m.0 m.1) messages

-- The loop of `consume_dlq`: `failed_payments` after the messages.
unfoldable pub consume_dlq :
    {F : Type 0} → List (DeadLetter F) → List (DeadLetter F) → List (DeadLetter F)
consume_dlq [] failed_payments = failed_payments
consume_dlq (msg ∷ messages) failed_payments = consume_dlq messages (failed_payments ++ msg ∷ [])

-- schemas.py, with the defaults filled in
pub record PaymentRequest (F : Type 0) : Type 0 where
  pub user_id : String
  pub amount : F
  pub currency : String
  pub description : String

pub record PaymentEvent (F : Type 0) : Type 0 where
  pub payment_id : String
  pub user_id : String
  pub amount : F
  pub currency : String
  pub description : String
  pub created_at : String

-- The answer of `create_payment` by how its send ended: the id, or a 500.
abbrev pub answered : String → Result ServiceError (Unit {0}) → Result ℕ String
answered payment_id (ok _) = ok payment_id
answered payment_id (err e) = err 500

-- `create_payment`, on the records of the payments topic; an amount that is not positive is answered with
-- 422 before the handler runs.
unfoldable pub create_payment :
    {F : Type 0}
    → Amounts F
    → Bool
    → SendOutcome
    → String
    → String
    → PaymentRequest F
    → List (PaymentEvent F)
    → Result ℕ String × List (PaymentEvent F)
create_payment amounts producer outcome payment_id now request payments =
    let event : PaymentEvent _ = record {
      payment_id = payment_id;
      user_id = request.user_id;
      amount = request.amount;
      currency = request.currency;
      description = request.description;
      created_at = now;
    } in
    let (r, written) = publish producer outcome event payments in
    if amounts.is_positive request.amount
    then (answered payment_id r, written)
    else (err 422, payments)
