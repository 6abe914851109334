-- ===== src/MultiService/OrderService.antt =====
-- order-service of 11-multi-service-architecture: models.py, producer.py, consumer.py and main.py.
pub mod Ordering
use fastapi_kafka_guide.Prelude.{
  ℕ, String, Bool, true, false, Option, none, some, List, [], ◌∷◌, ◌++◌, map, length, if◌then◌else◌,
  get_or, Result, ok, err, Exec,
}
use fastapi_kafka_guide.Prelude.Dict
use fastapi_kafka_guide.Prelude.Dict.{Dict}
use fastapi_kafka_guide.Messaging.{SendOutcome, ServiceError, publish}
use fastapi_kafka_guide.Saga.Events.{Floats}
use fastapi_kafka_guide.MultiService.Events.{EventType, Topic, OrderItem, Event, Record}

pub data OrderStatus : Type 0 where
  created payment_completed payment_failed : OrderStatus
  inventory_reserved inventory_failed completed cancelled : OrderStatus

pub record CreateOrderRequest (F : Type 0) : Type 0 where
  pub user_id : String
  pub items : List (OrderItem F)
  pub shipping_address : Option String

pub record Order (F : Type 0) : Type 0 where
  pub order_id : String
  pub user_id : String
  pub items : List (OrderItem F)
  pub total_price : F
  pub status : OrderStatus
  pub shipping_address : Option String
  pub created_at : String
  pub updated_at : String
  pub events : List EventType

-- What the service keeps and sends.
pub record OrderStore (F : Type 0) : Type 0 where
  pub orders_db : Dict (Order F)
  pub producer : Bool
  pub log : List (Record F)

-- What `create_order` answers.
pub record Created (F : Type 0) : Type 0 where
  pub order_id : String
  pub status : OrderStatus
  pub total_price : F

-- A line of `list_orders`.
pub record Summary (F : Type 0) : Type 0 where
  pub order_id : String
  pub user_id : String
  pub total_price : F
  pub status : OrderStatus
  pub created_at : String
  pub updated_at : String

-- `"PAYMENT_COMPLETED" in order.events`
unfoldable pub has_paid : List EventType → Bool
has_paid [] = false
has_paid (EventType.payment_completed ∷ events) = true
has_paid (_ ∷ events) = has_paid events

module _ {F : Type 0} where
  -- The branches of the consumer's loop on the type of the event, for a known order.
  unfoldable pub apply_event : EventType → Order F → Order F
  apply_event EventType.payment_completed order = record order {
    status = payment_completed;
    events = order.events ++ EventType.payment_completed ∷ [];
  }
  apply_event EventType.payment_failed order = record order {
    status = cancelled;
    events = order.events ++ EventType.payment_failed ∷ [];
  }
  apply_event EventType.inventory_reserved order =
      let events = order.events ++ EventType.inventory_reserved ∷ [] in
      record order {
        status = if has_paid events then completed else inventory_reserved;
        events = events;
      }
  apply_event EventType.inventory_failed order = record order {
    status = cancelled;
    events = order.events ++ EventType.inventory_failed ∷ [];
  }
  apply_event event_type order = order

  -- One message of the consumer's loop: an unknown order is passed over.
  unfoldable pub handle_event : String → Event F → OrderStore F → OrderStore F
  handle_event now event s =
      let order_id = get_or event.order_id "" in
      elim (Dict.get s.orders_db order_id) [
        | none ↦ s
        | some order ↦ record s {
          orders_db =
              Dict.put s.orders_db order_id
                (record (apply_event event.event_type order) { updated_at = now });
        }
      ]

  -- The loop over the messages, each with the clock at its handling.
  unfoldable pub handle_events : List (String × Event F) → OrderStore F → OrderStore F
  handle_events [] s = s
  handle_events ((now, event) ∷ events) s = handle_events events (handle_event now event s)

  -- `publish_order_created`
  unfoldable pub publish_order_created :
      SendOutcome → Event F → Exec (OrderStore F) ServiceError (Unit {0})
  publish_order_created outcome event s =
      let (r, log) =
        publish s.producer outcome
          (record { topic = Topic.order_created; key = get_or event.order_id ""; value = event })
          s.log in
      (r, record s { log = log })

  -- `sum(item.price * item.quantity for item in request.items)`
  unfoldable pub total_of : Floats F → List (OrderItem F) → F → F
  total_of float [] total = total
  total_of float (item ∷ items) total =
      total_of float items (float.plus total (float.times item.price item.quantity))

  -- `Order(...)`: both times are the one reading of the clock.
  unfoldable pub new_order : Floats F → String → String → CreateOrderRequest F → Order F
  new_order float now order_id request = record {
    order_id = order_id;
    user_id = request.user_id;
    items = request.items;
    total_price = total_of float request.items float.zero_amount;
    status = created;
    shipping_address = request.shipping_address;
    created_at = now;
    updated_at = now;
    events = [];
  }

  -- The event that announces an order.
  unfoldable pub created_event : Order F → Event F
  created_event order = record {
    event_type = EventType.order_created;
    order_id = some order.order_id;
    user_id = some order.user_id;
    items = some order.items;
    total_price = some order.total_price;
    shipping_address = order.shipping_address;
    amount = none;
    payment_method = none;
    transaction_id = none;
    reason = none;
    warehouse_id = none;
    failed_items = none;
    timestamp = some order.created_at;
  }

  abbrev pub answered :
      String
      → F
      → Result ServiceError (Unit {0})
      → Option (Order F)
      → Result ServiceError (Created F)
  answered order_id total (err e) o = err e
  answered order_id total (ok _) none =
      ok (record { order_id = order_id; status = created; total_price = total })
  answered order_id total (ok _) (some o) =
      ok (record { order_id = order_id; status = o.status; total_price = total })

  -- `create_order`: the order is stored before its event is sent, and stays when the send raises.
  -- `meanwhile` is what the other tasks do during the `await`; the answer shows the order as it is then.
  unfoldable pub create_order :
      Floats F
      → String
      → SendOutcome
      → (OrderStore F → OrderStore F)
      → String
      → CreateOrderRequest F
      → Exec (OrderStore F) ServiceError (Created F)
  create_order float now outcome meanwhile order_id request s =
      let order = new_order float now order_id request in
      let stored = record s { orders_db = Dict.put s.orders_db order_id order } in
      let (r, sent) = publish_order_created outcome (created_event order) stored in
      let s' = meanwhile sent in
      (answered order_id order.total_price r (Dict.get s'.orders_db order_id), s')

  abbrev pub summary : Order F → Summary F
  summary o = record {
    order_id = o.order_id;
    user_id = o.user_id;
    total_price = o.total_price;
    status = o.status;
    created_at = o.created_at;
    updated_at = o.updated_at;
  }

  -- `list_orders`: the count and the lines.
  abbrev pub list_orders : OrderStore F → ℕ × List (Summary F)
  list_orders s = (length s.orders_db, map summary (Dict.values s.orders_db))

  -- `get_order`: `none` is its 404.
  abbrev pub get_order : String → OrderStore F → Option (Order F)
  get_order order_id s = Dict.get s.orders_db order_id
