-- ===== src/Saga/Examples.antt =====
-- The theorems on the saga at concrete inputs: one order that is paid, stocked and completed.
use fastapi_kafka_guide.Prelude.{String, ◌≡◌, refl, ◌≢◌, true, none, some, List, [], ◌∷◌}
use fastapi_kafka_guide.Prelude.Int.{ℤ, pos, ◌+ℤ◌, ◌*ℤ◌}
use fastapi_kafka_guide.Prelude.Dict
use fastapi_kafka_guide.Messaging.{acked, publish}
use fastapi_kafka_guide.Saga.Events.{
  Floats, EventType, Topic, Event, Record, Order, System, Env, inventory_failed, created, completed,
  compensating,
}
use fastapi_kafka_guide.Saga.OrderService.{
  CreateOrderRequest, moved, process_event, process_message, place_order,
}
use fastapi_kafka_guide.Saga.OrderService.Compensation.{Requests, inventory_failed-compensates}
use fastapi_kafka_guide.Saga.PaymentService.{dispatch}
use fastapi_kafka_guide.Saga.InventoryService.{process_payment_result}
use fastapi_kafka_guide.Saga.Safety.Reachable.{new_system}

abbrev whole : Floats ℤ
whole = record {
  zero_amount = pos 0;
  times = λ a b. a *ℤ b;
  plus = λ a b. a +ℤ b;
  shown = λ a. "0";
}

abbrev env : Env
env = record { now = λ n. "noon"; draw = 0; send = acked }

abbrev book : CreateOrderRequest ℤ
book = record {
  user_id = "ann";
  items = record { product_id = "b"; product_name = "book"; quantity = pos 2; price = pos 30 } ∷ [];
}

abbrev start : System ℤ
start = new_system true true true

abbrev first : {A : Type 0} → A → List A → A
first d [] = d
first d (x ∷ xs) = x

abbrev last : {A : Type 0} → A → List A → A
last d [] = d
last d (x ∷ xs) = last x xs

abbrev blank : Event ℤ
blank = record {
  event_type = EventType.order_created;
  order_id = some "o1";
  user_id = none;
  items = none;
  total_price = none;
  amount = none;
  reason = none;
  timestamp = none;
}

abbrev newest : System ℤ → Record ℤ
newest s = last (record { topic = Topic.order_created; key = none; value = blank }) s.log

abbrev placed : System ℤ
placed = (place_order whole env "o1" book start).1

abbrev paid : System ℤ
paid = (dispatch whole env (newest placed).topic (newest placed).value placed).1

abbrev stocked : System ℤ
stocked = (process_payment_result env (newest paid).value paid).1

abbrev done : System ℤ
done = (process_message whole env (newest stocked) stocked).1

abbrev completed_order : Order ℤ
completed_order = record {
  order_id = "o1";
  user_id = "ann";
  items = book.items;
  total_price = pos 60;
  status = completed;
  created_at = "noon";
  updated_at = "noon";
  status_history =
      record { status = created; timestamp = "noon"; reason = none }
      ∷ record { status = completed; timestamp = "noon"; reason = none }
      ∷ [];
}

abbrev known : System ℤ
known = record start { orders_db = ("o1", completed_order) ∷ [] }

known-get : Dict.get known.orders_db "o1" ≡ some completed_order
unfolding Dict.get
known-get = refl

inventory_failed-compensates_example :
    (Dict.get
        (process_event whole env Topic.inventory_result inventory_failed blank known).1.orders_db
        "o1"
      ≡ some (moved "noon" "noon" compensating "재고 부족" completed_order))
    × ((j : String)
        → "o1" ≢ j
        → Dict.get
            (process_event whole env Topic.inventory_result inventory_failed blank
              known).1.orders_db
            j
          ≡ Dict.get known.orders_db j)
    × ((r : Record ℤ) × Requests "o1" (pos 60) r
        × ((
          (process_event whole env Topic.inventory_result inventory_failed blank known).0,
          (process_event whole env Topic.inventory_result inventory_failed blank known).1.log,
        )
            ≡ publish true acked r []))
inventory_failed-compensates_example =
    inventory_failed-compensates whole env blank "o1" completed_order known refl known-get
