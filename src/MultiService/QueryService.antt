-- ===== src/MultiService/QueryService.antt =====
-- query-service of 11-multi-service-architecture: consumer.py (the read model) and main.py.
pub mod Replay
pub mod Coherence
pub mod Stats
pub mod Search
pub mod Listing
use fastapi_kafka_guide.Prelude.{
  ℕ, String, Bool, true, false, Option, none, some, List, [], ◌∷◌, ◌++◌, map, length, drop, ltb,
  ◌-◌, ◌+◌, ◌==◌, if◌then◌else◌, get_or, is_some,
}
use fastapi_kafka_guide.Prelude.Dict
use fastapi_kafka_guide.Prelude.Dict.{Dict}
use fastapi_kafka_guide.Saga.Events.{Floats}
use fastapi_kafka_guide.MultiService.Events.{EventType, Topic, OrderItem, Event}

pub data PaymentStatus : Type 0 where
  pending completed failed : PaymentStatus

pub data InventoryStatus : Type 0 where
  pending reserved failed : InventoryStatus

pub data ViewStatus : Type 0 where
  created payment_completed inventory_reserved completed cancelled : ViewStatus

-- The aggregated view of one order.
pub record View (F : Type 0) : Type 0 where
  pub order_id : String
  pub user_id : String
  pub items : List (OrderItem F)
  pub total_price : F
  pub shipping_address : Option String
  pub status : ViewStatus
  pub payment_status : PaymentStatus
  pub inventory_status : InventoryStatus
  pub payment_amount : Option F
  pub payment_method : Option String
  pub transaction_id : Option String
  pub payment_failure_reason : Option String
  pub warehouse_id : Option String
  pub inventory_failure_reason : Option String
  pub created_at : String
  pub updated_at : String
  pub events : List (EventType × String)

pub record LogEntry (F : Type 0) : Type 0 where
  pub event_type : EventType
  pub order_id : String
  pub topic : Topic
  pub timestamp : String
  pub data_ : Event F

-- `orders_read_model` and `event_log`
pub record ReadModel (F : Type 0) : Type 0 where
  pub orders_read_model : Dict (View F)
  pub event_log : List (LogEntry F)

-- The status once the payment is complete.
unfoldable pub status_when_paid : InventoryStatus → ViewStatus
status_when_paid reserved = completed
status_when_paid _ = payment_completed

-- The status once the stock is reserved.
unfoldable pub status_when_reserved : PaymentStatus → ViewStatus
status_when_reserved completed = completed
status_when_reserved _ = inventory_reserved

module _ {F : Type 0} where
  -- `updated_at` and the new entry of `events`, which every branch writes.
  abbrev pub touched : EventType → String → View F → View F
  touched event_type timestamp view = record view {
    updated_at = timestamp;
    events = view.events ++ (event_type, timestamp) ∷ [];
  }

  -- The branches of `process_event` for an order that has a view.
  unfoldable pub update_view : Floats F → EventType → Event F → String → View F → View F
  update_view float EventType.payment_completed event timestamp view =
      record (touched EventType.payment_completed timestamp view) {
        payment_status = PaymentStatus.completed;
        payment_amount = some (get_or event.amount float.zero_amount);
        payment_method = some (get_or event.payment_method "");
        transaction_id = some (get_or event.transaction_id "");
        status = status_when_paid view.inventory_status;
      }
  update_view float EventType.payment_failed event timestamp view =
      record (touched EventType.payment_failed timestamp view) {
        payment_status = PaymentStatus.failed;
        payment_failure_reason = some (get_or event.reason "");
        status = cancelled;
      }
  update_view float EventType.inventory_reserved event timestamp view =
      record (touched EventType.inventory_reserved timestamp view) {
        inventory_status = reserved;
        warehouse_id = some (get_or event.warehouse_id "");
        status = status_when_reserved view.payment_status;
      }
  update_view float EventType.inventory_failed event timestamp view =
      record (touched EventType.inventory_failed timestamp view) {
        inventory_status = InventoryStatus.failed;
        inventory_failure_reason = some (get_or event.reason "");
        status = cancelled;
      }
  update_view float EventType.notification_sent event timestamp view =
      touched EventType.notification_sent timestamp view
  update_view float event_type event timestamp view = view

  -- The view of ORDER_CREATED.
  unfoldable pub new_view : Floats F → String → Event F → String → View F
  new_view float order_id event timestamp = record {
    order_id = order_id;
    user_id = get_or event.user_id "";
    items = get_or event.items [];
    total_price = get_or event.total_price float.zero_amount;
    shipping_address = event.shipping_address;
    status = created;
    payment_status = PaymentStatus.pending;
    inventory_status = InventoryStatus.pending;
    payment_amount = none;
    payment_method = none;
    transaction_id = none;
    payment_failure_reason = none;
    warehouse_id = none;
    inventory_failure_reason = none;
    created_at = timestamp;
    updated_at = timestamp;
    events = (EventType.order_created, timestamp) ∷ [];
  }

  -- What an event makes of the view of its order, if there is one.
  unfoldable pub apply_event :
      Floats F → EventType → String → Event F → String → Option (View F) → Option (View F)
  apply_event float EventType.order_created order_id event timestamp o =
      some (new_view float order_id event timestamp)
  apply_event float event_type order_id event timestamp none = none
  apply_event float event_type order_id event timestamp (some view) =
      some (update_view float event_type event timestamp view)

  abbrev pub written : String → Option (View F) → Dict (View F) → Dict (View F)
  written order_id none d = d
  written order_id (some view) d = Dict.put d order_id view

  -- `process_event`: `now` is the clock, for an event without a timestamp.
  unfoldable pub process_event : Floats F → String → Event F → Topic → ReadModel F → ReadModel F
  process_event float now event topic s =
      let order_id = get_or event.order_id "" in
      let timestamp = get_or event.timestamp now in
      let entry : LogEntry F = record {
        event_type = event.event_type;
        order_id = order_id;
        topic = topic;
        timestamp = timestamp;
        data_ = event;
      } in
      record {
        orders_read_model =
            if order_id == ""
            then s.orders_read_model
            else written order_id
                (apply_event float event.event_type order_id event timestamp
                  (Dict.get s.orders_read_model order_id))
                s.orders_read_model;
        event_log = s.event_log ++ entry ∷ [];
      }

  -- The loop over the messages.
  unfoldable pub process_events :
      Floats F → List (String × Event F × Topic) → ReadModel F → ReadModel F
  process_events float [] s = s
  process_events float ((now, event, topic) ∷ messages) s =
      process_events float messages (process_event float now event topic s)

  -- The entries of an order, in the order of the log.
  unfoldable pub entries_of : String → List (LogEntry F) → List (LogEntry F)
  entries_of order_id [] = []
  entries_of order_id (e ∷ log) =
      let rest = entries_of order_id log in if e.order_id == order_id then e ∷ rest else rest

  -- `get_order_detail`: the view and the timeline, or `none` for its 404.
  unfoldable pub get_order_detail : String → ReadModel F → Option (View F × List (LogEntry F))
  get_order_detail order_id s = elim (Dict.get s.orders_read_model order_id) [
    | none ↦ none
    | some view ↦ some (view, entries_of order_id s.event_log)
  ]

  -- `sum(o["total_price"] for o in orders if o["status"] == "COMPLETED")`
  abbrev pub revenue_of : Floats F → ViewStatus → F → F → F
  revenue_of float completed price total = float.plus total price
  revenue_of float _ price total = total

  unfoldable pub total_revenue : Floats F → List (View F) → F → F
  total_revenue float [] total = total
  total_revenue float (view ∷ views) total =
      total_revenue float views (revenue_of float view.status view.total_price total)
