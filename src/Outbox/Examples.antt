-- ===== src/Outbox/Examples.antt =====
-- The theorems on the outbox at concrete inputs.
use fastapi_kafka_guide.Prelude.{
  ◌+◌, ◌*◌, ◌≤◌, ◌≡◌, ◌/◌, Bool, some, ltb, if◌then◌else◌, refl, sym, ◌∙◌, inl, inr, true, false,
  none, List, [], ◌∷◌, arith, length, All, In, ok,
}
use fastapi_kafka_guide.Messaging.{acked, unacked}
use fastapi_kafka_guide.Prelude.Int.{pos, negsuc}
use fastapi_kafka_guide.Outbox.Database.{
  Decimal, Decimals, Order, OutboxEvent, pending, skip_locked, order_by_id, insert_by_id,
  select_batch, mark_published,
}
use fastapi_kafka_guide.Outbox.Orders.{
  CreateOrderRequest, OrderPayload, Fresh, completed, unrefreshed, zero_decimal, is_valid_order,
  create_order, commit, order_session, number_rows, enqueue_event, total_of,
}
use fastapi_kafka_guide.Outbox.Orders.Atomic.{Describes, Answers, create_order_atomic}
use fastapi_kafka_guide.Outbox.Relay.{Relay, Poll, publish_rows, publish_batch, tick, run}
use fastapi_kafka_guide.Outbox.Relay.Delivery.{IsKeyed, IsDelivered, tick-IsDelivered}
use fastapi_kafka_guide.Outbox.Relay.Progress.{IsGood, InOrder, run_drains}
use fastapi_kafka_guide.Outbox.Consumer.{
  Message, Partition, answered, ConsumerState, has, consume_messages, consume,
}
use fastapi_kafka_guide.Outbox.Consumer.Once.{IsOnce, consume-IsOnce}
use fastapi_kafka_guide.Outbox.History.{Act, request, poll, act, history, IsSound, history-IsSound}
use fastapi_kafka_guide.Outbox.EndToEnd.{messages_of, every_order_processed}

abbrev two_books : CreateOrderRequest
two_books = record {
  user_id = "ann";
  items =
      record {
        product_id = "book";
        quantity = 2;
        price = record { coefficient = pos 30005; exponent = negsuc 2 };
      }
      ∷ [];
}

-- Decimals of three places in the context, and a column that drops the third.
abbrev thousandths : Decimals
thousandths = record {
  times = λ d n. elim d.coefficient [
    | pos c ↦ some (record { coefficient = pos (c * n); exponent = negsuc 2 })
    | negsuc c ↦ none
  ];
  plus = λ d e. elim d.coefficient [
    | pos a ↦ elim e.coefficient [
      | pos b ↦ some (record { coefficient = pos (a + b); exponent = negsuc 2 })
      | negsuc b ↦ none
    ]
    | negsuc a ↦ none
  ];
  numeric = λ d. elim d.coefficient [
    | pos c ↦
        if ltb c 10000000000000
        then some (record { coefficient = pos (c / 10); exponent = negsuc 1 })
        else none
    | negsuc c ↦ none
  ];
}

abbrev fresh : Fresh
fresh = record { order_id = "o1"; event_id = "e1"; now = 7 }

abbrev nothing : Relay OrderPayload
nothing = record { db = record { orders = []; outbox = []; next_id = 1 }; log = [] }

abbrev good_poll : Poll OrderPayload
good_poll = record { send = λ m. acked; locked = []; now = 9; committed = true }

abbrev bad_poll : Poll OrderPayload
bad_poll = record { send = λ m. unacked; locked = []; now = 8; committed = true }

nothing-IsSound : IsSound thousandths nothing
nothing-IsSound = record { valid = record { paired = tt; ascends = omega arith }; delivered = tt }

abbrev acts : List Act
acts = request fresh completed two_books ∷ poll 10 bad_poll ∷ poll 10 good_poll ∷ []

history-IsSound_example : IsSound thousandths (history thousandths nothing acts)
history-IsSound_example = history-IsSound thousandths nothing acts nothing-IsSound

abbrev order_o1 : Order
order_o1 = record {
  order_id = "o1";
  user_id = "ann";
  items = two_books.items;
  total_price = record { coefficient = pos 6001; exponent = negsuc 1 };
  status = "CREATED";
  created_at = 7;
  updated_at = 7;
}

abbrev no_events : ConsumerState
no_events = record { processed_events = []; handled = []; commits = [] }

abbrev served : Relay OrderPayload
served = history thousandths nothing acts

served-pending : pending served.db.outbox ≡ []
unfolding history act create_order is_valid_order total_of commit order_session number_rows
    enqueue_event tick select_batch publish_batch publish_rows pending skip_locked order_by_id
    insert_by_id mark_published
served-pending = refl

served-order : In order_o1 served.db.orders
unfolding history act create_order is_valid_order total_of commit order_session number_rows
    enqueue_event tick select_batch publish_batch publish_rows pending skip_locked order_by_id
    insert_by_id mark_published
served-order = inl refl

every_order_processed_example :
    (e : OutboxEvent OrderPayload) × (c' : ConsumerState) × In e served.db.outbox
    × Describes thousandths order_o1 e
    × (consume_messages (messages_of 0 served.log) no_events ≡ (ok tt, c'))
    × (has e.event_id c'.processed_events ≡ true)
every_order_processed_example =
    every_order_processed thousandths served no_events order_o1
      (history-IsSound thousandths nothing acts nothing-IsSound) served-pending served-order

abbrev waiting : Relay OrderPayload
waiting = record {
  db = record {
    orders = [];
    outbox =
        record {
          id = 1;
          event_id = "e1";
          aggregate_type = "Order";
          aggregate_id = "o1";
          event_type = "OrderCreated";
          topic = "order.events";
          payload = record {
            order_id = "o1";
            user_id = "ann";
            items = [];
            total_price = record { coefficient = pos 60010; exponent = negsuc 2 };
          };
          headers = [];
          created_at = 7;
          published_at = none;
        }
        ∷ [];
    next_id = 2;
  };
  log = [];
}

good_poll-IsGood : IsGood good_poll
good_poll-IsGood = record { acknowledged = λ m. refl; unlocked = refl; commits = refl }

waiting-InOrder : InOrder 0 2 waiting.db.outbox
waiting-InOrder = (omega arith, omega arith)

waiting-length : length (pending waiting.db.outbox) ≤ 1 * length (good_poll ∷ [])
unfolding pending
waiting-length = omega arith

run_drains_example : pending (run 1 500 1000 (good_poll ∷ []) waiting).1.db.outbox ≡ []
run_drains_example =
    run_drains 1 500 1000 0 2 (good_poll ∷ []) waiting (good_poll-IsGood, tt) waiting-InOrder
      waiting-length

waiting-IsKeyed : IsKeyed waiting.db.outbox
waiting-IsKeyed r s (inl a) (inl b) e = a ∙ sym b
waiting-IsKeyed r s (inr a) j e = absurd a
waiting-IsKeyed r s (inl a) (inr b) e = absurd b

tick-IsDelivered_example :
    let t = (tick 1 bad_poll waiting).1 in All (IsDelivered t.log) t.db.outbox
tick-IsDelivered_example = tick-IsDelivered 1 bad_poll waiting waiting-IsKeyed (λ e. cc, tt)

create_order_atomic_example :
    Answers thousandths unrefreshed nothing.db
      (create_order thousandths fresh unrefreshed two_books nothing.db)
    × ((total stored : Decimal)
        → is_valid_order two_books ≡ true
        → total_of thousandths zero_decimal two_books.items ≡ some total
        → thousandths.numeric total ≡ some stored
        → unrefreshed ≡ completed
        → (create_order thousandths fresh unrefreshed two_books nothing.db).0 ≡ ok tt)
create_order_atomic_example = create_order_atomic thousandths fresh unrefreshed two_books nothing.db

abbrev message : Bool → Message
message is_dict = record {
  offset = 4;
  headers = ("event_id", some "e1") ∷ [];
  is_dict = is_dict;
  insert = answered;
}

abbrev batch : List Partition
batch =
    record {
      tp = "order.events-0";
      messages = message true ∷ message true ∷ message false ∷ [];
      commit_fails = true;
    }
    ∷ []

consume-IsOnce_example : IsOnce (consume (some batch ∷ some batch ∷ none ∷ []) no_events).1
consume-IsOnce_example =
    consume-IsOnce (some batch ∷ some batch ∷ none ∷ []) no_events
      (record { distinct = tt; recorded = tt })
