-- ===== src/MultiService/PaymentService.antt =====
-- payment-service of 11-multi-service-architecture: consumer.py, producer.py and the list of main.py.
-- A draw of `random.random()` is a numerator over 2 ^ 53. The failure rate is configured: `rate` is the
-- greatest numerator that does not exceed it.
pub mod Answers
use fastapi_kafka_guide.Prelude.{
  ℕ, zero, suc, String, Bool, Option, none, some, List, [], ◌∷◌, ◌++◌, ltb, length, if◌then◌else◌,
  get_or, Result, Exec,
}
use fastapi_kafka_guide.Prelude.Dict
use fastapi_kafka_guide.Prelude.Dict.{Dict}
use fastapi_kafka_guide.Messaging.{SendOutcome, ServiceError, publish}
use fastapi_kafka_guide.Saga.Events.{Floats}
use fastapi_kafka_guide.MultiService.Events.{EventType, Topic, Event, Record}

-- An entry of `payment_records`.
pub data PaymentRecord (F : Type 0) : Type 0 where
  completed : F → String → PaymentRecord F
  failed : String → PaymentRecord F

-- `payment_records`, the producer, and what Kafka holds.
pub record PaymentStore (F : Type 0) : Type 0 where
  pub payment_records : Dict (PaymentRecord F)
  pub producer : Bool
  pub log : List (Record F)

-- What the handling of a message meets: the draw, the index that `random.choice` picks, the first eight
-- characters of a UUID, the clock, and how the send ends.
pub record Env : Type 0 where
  pub draw : ℕ
  pub pick : ℕ
  pub transaction_id : String
  pub now : String
  pub send : SendOutcome

-- `random.choice(reasons)`
unfoldable pub failure_reason : ℕ → String
failure_reason zero = "잔액 부족"
failure_reason (suc zero) = "카드 한도 초과"
failure_reason (suc (suc zero)) = "결제 게이트웨이 오류"
failure_reason (suc (suc (suc n))) = "카드 만료"

module _ {F : Type 0} where
  -- `publish_payment_result`
  unfoldable pub publish_payment_result :
      SendOutcome → Event F → Exec (PaymentStore F) ServiceError (Unit {0})
  publish_payment_result outcome event s =
      let (r, log) =
        publish s.producer outcome
          (record { topic = Topic.payment_result; key = get_or event.order_id ""; value = event })
          s.log in
      (r, record s { log = log })

  -- The event of a payment that succeeds, and of one that does not.
  unfoldable pub result_event : Env → Bool → String → F → Event F
  result_event env success order_id total_price = record {
    event_type = if success then EventType.payment_completed else EventType.payment_failed;
    order_id = some order_id;
    user_id = none;
    items = none;
    total_price = none;
    shipping_address = none;
    amount = some total_price;
    payment_method = if success then some "credit_card" else none;
    transaction_id = if success then some env.transaction_id else none;
    reason = if success then none else some (failure_reason env.pick);
    warehouse_id = none;
    failed_items = none;
    timestamp = some env.now;
  }

  unfoldable pub payment_record : Env → Bool → F → PaymentRecord F
  payment_record env success total_price =
      if success then completed total_price env.transaction_id else failed (failure_reason env.pick)

  -- The body of the loop for one message; what it raises is caught and logged.
  unfoldable pub process_order :
      Floats F → ℕ → Env → Event F → Exec (PaymentStore F) ServiceError (Unit {0})
  process_order float rate env event s =
      let order_id = get_or event.order_id "" in
      let total_price = get_or event.total_price float.zero_amount in
      let success = ltb rate env.draw in
      let row = payment_record env success total_price in
      publish_payment_result env.send (result_event env success order_id total_price)
        (record s { payment_records = Dict.put s.payment_records order_id row })

  unfoldable pub process_orders :
      Floats F → ℕ → List (Env × Event F) → PaymentStore F → PaymentStore F
  process_orders float rate [] s = s
  process_orders float rate ((env, event) ∷ messages) s =
      process_orders float rate messages (process_order float rate env event s).1

  -- `list_payments`
  abbrev pub list_payments : PaymentStore F → ℕ × Dict (PaymentRecord F)
  list_payments s = (length s.payment_records, s.payment_records)
