-- ===== src/Saga/PaymentService.antt =====
-- payment-service of 09-saga-pattern-order-system: consumer.py, producer.py and the lists of main.py.
-- A draw of `random.random()` is a numerator over 2 ^ 53, and so are the rates of config.py.
use fastapi_kafka_guide.Prelude.{
  ℕ, String, Bool, Option, none, some, List, [], ◌∷◌, ◌++◌, ltb, length, if◌then◌else◌, get_or, ok,
  Exec,
}
use fastapi_kafka_guide.Messaging.{SendOutcome, ServiceError, Ended, publish, start_consumer}
use fastapi_kafka_guide.Saga.Events.{
  Floats, EventType, Topic, Event, Record, PaymentRecord, RefundRecord, System, Env,
  payment_completed, refund_completed, refund_failed,
}

-- 0.8
abbrev pub payment_success_rate : ℕ
payment_success_rate = 7205759403792794

-- 0.95
abbrev pub refund_success_rate : ℕ
refund_success_rate = 8556839292003942

abbrev declined : String
declined = "잔액 부족으로 결제가 거부되었습니다"

abbrev refund_error : String
refund_error = "환불 처리 중 오류가 발생했습니다"

module _ {F : Type 0} where
  -- `publish_payment_result` and `publish_refund_result`, by the topic.
  unfoldable pub publish_result :
      SendOutcome → Topic → Event F → Exec (System F) ServiceError (Unit {0})
  publish_result outcome topic event s =
      let (r, log) =
        publish s.payment_producer outcome
          (record { topic = topic; key = event.order_id; value = event }) s.log in
      (r, record s { log = log })

  -- What `process_order_created` publishes, by whether the payment succeeds.
  unfoldable pub payment_event : Env → Bool → Option String → F → Event F
  payment_event env is_success order_id total_price =
      if is_success
      then record {
        event_type = payment_completed;
        order_id = order_id;
        user_id = none;
        items = none;
        total_price = none;
        amount = some total_price;
        reason = none;
        timestamp = some (env.now 0);
      }
      else record {
        event_type = EventType.payment_failed;
        order_id = order_id;
        user_id = none;
        items = none;
        total_price = none;
        amount = none;
        reason = some declined;
        timestamp = some (env.now 0);
      }

  -- The row that it stores.
  unfoldable pub payment_record : Env → Bool → Option String → String → F → PaymentRecord F
  payment_record env is_success order_id user_id total_price = record {
    order_id = order_id;
    user_id = user_id;
    amount = total_price;
    status = if is_success then "COMPLETED" else "FAILED";
    reason = if is_success then none else some declined;
    processed_at = env.now 1;
  }

  unfoldable pub process_order_created :
      Floats F → Env → Event F → Exec (System F) ServiceError (Unit {0})
  process_order_created float env event s =
      let total_price = get_or event.total_price float.zero_amount in
      let user_id = get_or event.user_id "unknown" in
      let is_success = ltb env.draw payment_success_rate in
      let row = payment_record env is_success event.order_id user_id total_price in
      publish_result env.send Topic.payment_result
        (payment_event env is_success event.order_id total_price)
        (record s { payments_db = s.payments_db ++ row ∷ [] })

  -- What `process_refund_request` publishes, by whether the refund succeeds.
  unfoldable pub refund_event : Env → Bool → Option String → F → Event F
  refund_event env is_success order_id amount =
      if is_success
      then record {
        event_type = refund_completed;
        order_id = order_id;
        user_id = none;
        items = none;
        total_price = none;
        amount = some amount;
        reason = none;
        timestamp = some (env.now 0);
      }
      else record {
        event_type = refund_failed;
        order_id = order_id;
        user_id = none;
        items = none;
        total_price = none;
        amount = none;
        reason = some refund_error;
        timestamp = some (env.now 0);
      }

  -- The row that it stores.
  unfoldable pub refund_record : Env → Bool → Option String → String → F → RefundRecord F
  refund_record env is_success order_id reason amount = record {
    order_id = order_id;
    amount = amount;
    status = if is_success then "COMPLETED" else "FAILED";
    reason = if is_success then reason else refund_error;
    processed_at = env.now 1;
  }

  unfoldable pub process_refund_request :
      Floats F → Env → Event F → Exec (System F) ServiceError (Unit {0})
  process_refund_request float env event s =
      let amount = get_or event.amount float.zero_amount in
      let is_success = ltb env.draw refund_success_rate in
      let row = refund_record env is_success event.order_id (get_or event.reason "") amount in
      publish_result env.send Topic.refund_result
        (refund_event env is_success event.order_id amount)
        (record s { refunds_db = s.refunds_db ++ row ∷ [] })

  -- The branch on the topic in the loop of `start_consumer`.
  unfoldable pub dispatch :
      Floats F → Env → Topic → Event F → Exec (System F) ServiceError (Unit {0})
  dispatch float env Topic.order_created event = process_order_created float env event
  dispatch float env Topic.refund_request event = process_refund_request float env event
  dispatch float env topic event = λ s. (ok tt, s)

  unfoldable pub start_payment_consumer :
      Floats F → (ℕ → Bool) → List (Env × Record F) → System F → Ended × System F
  start_payment_consumer float accepts messages =
      start_consumer accepts (λ m. dispatch float m.0 m.1.topic m.1.value) messages

  -- `list_payments` and `list_refunds`: the count and the rows.
  abbrev pub list_payments : System F → ℕ × List (PaymentRecord F)
  list_payments s = (length s.payments_db, s.payments_db)

  abbrev pub list_refunds : System F → ℕ × List (RefundRecord F)
  list_refunds s = (length s.refunds_db, s.refunds_db)
