-- ===== src/Saga/InventoryService.antt =====
-- inventory-service of 09-saga-pattern-order-system: consumer.py and producer.py.
use fastapi_kafka_guide.Prelude.{
  ℕ, String, Bool, Option, none, some, List, [], ◌∷◌, ◌++◌, ltb, if◌then◌else◌, get_or, ok, Exec,
}
use fastapi_kafka_guide.Messaging.{SendOutcome, ServiceError, Ended, publish, start_consumer}
use fastapi_kafka_guide.Saga.Events.{
  OrderItem, EventType, Topic, Event, Record, InventoryRecord, System, Env, payment_completed,
  inventory_reserved, inventory_failed,
}

-- 0.9, over 2 ^ 53
abbrev pub inventory_success_rate : ℕ
inventory_success_rate = 8106479329266893

abbrev shortage : String
shortage = "요청한 상품의 재고가 부족합니다"

-- The row that `process_payment_result` stores, by whether the stock suffices.
unfoldable pub inventory_record : Env → Bool → Option String → InventoryRecord
inventory_record env is_success order_id = record {
  order_id = order_id;
  status = if is_success then "RESERVED" else "FAILED";
  reason = if is_success then none else some shortage;
  processed_at = env.now 1;
}

module _ {F : Type 0} where
  -- `publish_inventory_result`
  unfoldable pub publish_inventory_result :
      SendOutcome → Event F → Exec (System F) ServiceError (Unit {0})
  publish_inventory_result outcome event s =
      let (r, log) =
        publish s.inventory_producer outcome
          (record { topic = Topic.inventory_result; key = event.order_id; value = event }) s.log in
      (r, record s { log = log })

  -- What it publishes.
  unfoldable pub inventory_event : Env → Bool → Option String → List (OrderItem F) → Event F
  inventory_event env is_success order_id items =
      if is_success
      then record {
        event_type = inventory_reserved;
        order_id = order_id;
        user_id = none;
        items = some items;
        total_price = none;
        amount = none;
        reason = none;
        timestamp = some (env.now 0);
      }
      else record {
        event_type = inventory_failed;
        order_id = order_id;
        user_id = none;
        items = none;
        total_price = none;
        amount = none;
        reason = some shortage;
        timestamp = some (env.now 0);
      }

  -- The body of `process_payment_result`, by the type of the event: only a completed payment counts.
  unfoldable pub process_payment :
      Env → EventType → Event F → Exec (System F) ServiceError (Unit {0})
  process_payment env payment_completed event s =
      let is_success = ltb env.draw inventory_success_rate in
      let row = inventory_record env is_success event.order_id in
      publish_inventory_result env.send
        (inventory_event env is_success event.order_id (get_or event.items []))
        (record s { inventory_db = s.inventory_db ++ row ∷ [] })
  process_payment env event_type event s = (ok tt, s)

  unfoldable pub process_payment_result : Env → Event F → Exec (System F) ServiceError (Unit {0})
  process_payment_result env event = process_payment env event.event_type event

  unfoldable pub start_inventory_consumer :
      (ℕ → Bool) → List (Env × Record F) → System F → Ended × System F
  start_inventory_consumer accepts messages =
      start_consumer accepts (λ m. process_payment_result m.0 m.1.value) messages
