-- ===== src/MultiService/Examples.antt =====
-- The theorems on the services of 11-multi-service-architecture at concrete inputs.
use fastapi_kafka_guide.Prelude.{String, ◌≡◌, refl, true, none, some, List, [], ◌∷◌, ◌++◌}
use fastapi_kafka_guide.Prelude.Int.{ℤ, pos, ◌+ℤ◌, ◌*ℤ◌}
use fastapi_kafka_guide.Prelude.Dict
use mathlib.Core.Option.{none-ne-some}
use fastapi_kafka_guide.Messaging.{acked}
use fastapi_kafka_guide.Saga.Events.{Floats}
use fastapi_kafka_guide.MultiService.Events.{EventType, Topic, Event, Record}
use fastapi_kafka_guide.MultiService.OrderService.{Order, OrderStore, created, handle_events}
use fastapi_kafka_guide.MultiService.OrderService.Ordering.{
  AllEarned, IsEarned, handle_events-AllEarned,
}
use fastapi_kafka_guide.MultiService.PaymentService.{
  PaymentRecord, PaymentStore, Env, process_order,
}
use fastapi_kafka_guide.MultiService.PaymentService.Answers.{Agrees, process_order-answers}
use fastapi_kafka_guide.MultiService.Notifier.{
  Notification, by_order, notify_all, about, told, by_order-notify_all,
}
use fastapi_kafka_guide.MultiService.QueryService.{ReadModel, process_event, process_events}
use fastapi_kafka_guide.MultiService.QueryService.Replay.{
  IsReplayed, replay, process_events-IsReplayed,
}
use fastapi_kafka_guide.Prelude.{Option, map}
use fastapi_kafka_guide.MultiService.QueryService.Coherence.{AllCoherent, process_event-AllCoherent}

abbrev whole : Floats ℤ
whole = record {
  zero_amount = pos 0;
  times = λ a b. a *ℤ b;
  plus = λ a b. a +ℤ b;
  shown = λ a. "0";
}

abbrev event : EventType → Event ℤ
event k = record {
  event_type = k;
  order_id = some "o1";
  user_id = some "ann";
  items = none;
  total_price = some (pos 60);
  shipping_address = none;
  amount = some (pos 60);
  payment_method = none;
  transaction_id = none;
  reason = none;
  warehouse_id = none;
  failed_items = none;
  timestamp = none;
}

abbrev env : Env
env = record { draw = 9; pick = 0; transaction_id = "t1"; now = "noon"; send = acked }

abbrev till : PaymentStore ℤ
till = record { payment_records = []; producer = true; log = [] }

process_order-answers_example :
    (r : Record ℤ) × (row : PaymentRecord ℤ) × ((process_order whole 5 env
        (event EventType.order_created)
        till).1.log
      ≡ [] ++ r ∷ [])
    × (r.topic ≡ Topic.payment_result)
    × (r.key ≡ "o1")
    × (r.value.order_id ≡ some "o1")
    × (Dict.get
          (process_order whole 5 env (event EventType.order_created) till).1.payment_records
          "o1"
        ≡ some row)
    × Agrees row r.value
process_order-answers_example =
    process_order-answers whole 5 env (event EventType.order_created) "o1" till refl refl refl

abbrev news : List (String × String × Event ℤ)
news = ("n2", "noon", event EventType.payment_failed) ∷ []

abbrev welcomed : List Notification
welcomed = notify_all whole (("n1", "dawn", event EventType.order_created) ∷ []) []

by_order-notify_all_example :
    by_order "o1" (notify_all whole news welcomed)
    ≡ by_order "o1" welcomed ++ map (told whole) (about whole "o1" news)
by_order-notify_all_example = by_order-notify_all whole "o1" news welcomed

abbrev nothing : ReadModel ℤ
nothing = record { orders_read_model = []; event_log = [] }

nothing-IsReplayed : IsReplayed whole nothing
unfolding Dict.get replay
nothing-IsReplayed i named = refl

nothing-AllCoherent : AllCoherent nothing
unfolding Dict.get
nothing-AllCoherent i v e = absurd (none-ne-some v e)

abbrev story : List (String × Event ℤ × Topic)
story =
    ("dawn", event EventType.order_created, Topic.order_created)
    ∷ ("noon", event EventType.inventory_reserved, Topic.inventory_result)
    ∷ ("dusk", event EventType.payment_completed, Topic.payment_result)
    ∷ []

process_events-IsReplayed_example : IsReplayed whole (process_events whole story nothing)
process_events-IsReplayed_example = process_events-IsReplayed whole story nothing nothing-IsReplayed

process_event-AllCoherent_example :
    AllCoherent
      (process_event whole "dawn" (event EventType.order_created) Topic.order_created nothing)
process_event-AllCoherent_example =
    process_event-AllCoherent whole "dawn" (event EventType.order_created) Topic.order_created
      nothing nothing-AllCoherent

abbrev order : Order ℤ
order = record {
  order_id = "o1";
  user_id = "ann";
  items = [];
  total_price = pos 60;
  status = created;
  shipping_address = none;
  created_at = "dawn";
  updated_at = "dawn";
  events = [];
}

abbrev store : OrderStore ℤ
store = record { orders_db = Dict.put [] "o1" order; producer = true; log = [] }

store-AllEarned : AllEarned store
unfolding Dict.get
store-AllEarned =
    Dict.put-AllValues IsEarned [] "o1" order (λ i o e. absurd (none-ne-some o e)) (λ c. cc)

abbrev results : List (String × Event ℤ)
results =
    ("noon", event EventType.payment_completed) ∷ ("dusk", event EventType.inventory_reserved) ∷ []

handle_events-AllEarned_example : AllEarned (handle_events results store)
handle_events-AllEarned_example = handle_events-AllEarned results store store-AllEarned

abbrev read : ReadModel ℤ
read = process_events whole story nothing

abbrev completed : Option String
completed = some "COMPLETED"
