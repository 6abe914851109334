-- ===== src/MultiService/InventoryService.antt =====
-- inventory-service of 11-multi-service-architecture: consumer.py, producer.py and the list of main.py.
-- The stock table of the module is only shown, so it has no part here.
use fastapi_kafka_guide.Prelude.{
  ℕ, zero, suc, String, Bool, Option, none, some, List, [], ◌∷◌, ltb, length, if◌then◌else◌, get_or,
  Exec,
}
use fastapi_kafka_guide.Prelude.Dict
use fastapi_kafka_guide.Prelude.Dict.{Dict}
use fastapi_kafka_guide.Messaging.{SendOutcome, ServiceError, publish}
use fastapi_kafka_guide.MultiService.Events.{EventType, Topic, OrderItem, Event, Record}
use Prim.Native.String.{◌++◌ as ◌+++◌}

-- An entry of `reservation_records`.
pub data Reservation (F : Type 0) : Type 0 where
  reserved : List (OrderItem F) → Reservation F
  failed : String → Reservation F

pub record InventoryStore (F : Type 0) : Type 0 where
  pub reservation_records : Dict (Reservation F)
  pub producer : Bool
  pub log : List (Record F)

-- What the handling of a message meets: the draw, the index that `random.choice` picks, the warehouse
-- that `f"WH-{random.randint(1, 5):03d}"` names, the clock, and how the send ends.
pub record Env : Type 0 where
  pub draw : ℕ
  pub pick : ℕ
  pub warehouse_id : String
  pub now : String
  pub send : SendOutcome

module _ {F : Type 0} where
  -- `random.choice(items) if items else {}`, by the index that is picked.
  unfoldable pub choice : ℕ → List (OrderItem F) → Option (OrderItem F)
  choice n [] = none
  choice zero (item ∷ items) = some item
  choice (suc n) (item ∷ []) = some item
  choice (suc n) (item ∷ next ∷ items) = choice n (next ∷ items)

  unfoldable pub product_name : Option (OrderItem F) → String
  product_name none = "알 수 없음"
  product_name (some item) = item.product_name

  unfoldable pub product_id : Option (OrderItem F) → String
  product_id none = ""
  product_id (some item) = item.product_id

  unfoldable pub shortage : Option (OrderItem F) → String
  unfolding product_name
  shortage failed_item = "상품 '" +++ product_name failed_item +++ "' 재고 부족"

  -- `publish_inventory_result`
  unfoldable pub publish_inventory_result :
      SendOutcome → Event F → Exec (InventoryStore F) ServiceError (Unit {0})
  publish_inventory_result outcome event s =
      let (r, log) =
        publish s.producer outcome
          (record { topic = Topic.inventory_result; key = get_or event.order_id ""; value = event })
          s.log in
      (r, record s { log = log })

  unfoldable pub inventory_event : Env → Bool → String → List (OrderItem F) → Event F
  inventory_event env success order_id items =
      let failed_item = choice env.pick items in
      record {
        event_type = if success then EventType.inventory_reserved else EventType.inventory_failed;
        order_id = some order_id;
        user_id = none;
        items = if success then some items else none;
        total_price = none;
        shipping_address = none;
        amount = none;
        payment_method = none;
        transaction_id = none;
        reason = if success then none else some (shortage failed_item);
        warehouse_id = if success then some env.warehouse_id else none;
        failed_items = if success then none else some (product_id failed_item ∷ []);
        timestamp = some env.now;
      }

  unfoldable pub reservation : Env → Bool → List (OrderItem F) → Reservation F
  reservation env success items =
      if success then reserved items else failed (shortage (choice env.pick items))

  -- The body of the loop for one message; what it raises is caught and logged. `rate` is the greatest
  -- numerator over 2 ^ 53 that does not exceed the configured failure rate.
  unfoldable pub process_order : ℕ → Env → Event F → Exec (InventoryStore F) ServiceError (Unit {0})
  process_order rate env event s =
      let order_id = get_or event.order_id "" in
      let items = get_or event.items [] in
      let success = ltb rate env.draw in
      publish_inventory_result env.send (inventory_event env success order_id items) (record s {
        reservation_records =
            Dict.put s.reservation_records order_id (reservation env success items);
      })

  unfoldable pub process_orders : ℕ → List (Env × Event F) → InventoryStore F → InventoryStore F
  process_orders rate [] s = s
  process_orders rate ((env, event) ∷ messages) s =
      process_orders rate messages (process_order rate env event s).1

  -- `list_reservations`
  abbrev pub list_reservations : InventoryStore F → ℕ × Dict (Reservation F)
  list_reservations s = (length s.reservation_records, s.reservation_records)
