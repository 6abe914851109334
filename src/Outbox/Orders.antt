-- ===== src/Outbox/Orders.antt =====
-- outbox.py and the endpoints of main.py. `uuid4()` and the database's clock are arguments, and so is
-- how the transaction ends.
pub mod Atomic
use fastapi_kafka_guide.Prelude.{
  ℕ, ◌+◌, ◌*◌, String, Bool, true, false, ◌&&◌, Option, none, some, List, [], ◌∷◌, ◌++◌, ltb,
  if◌then◌else◌, get_or, length, take, Result, ok, err, Exec, ◌==◌,
}
use fastapi_kafka_guide.Prelude.Int.{pos}
use fastapi_kafka_guide.Prelude.Dict.{Dict}
use mathlib.Core.List.{reverse}
use fastapi_kafka_guide.Outbox.Database.{
  Decimal, Decimals, is_positive, OrderItem, Order, OutboxEvent, Database, pending, order_by_id,
}

-- `CreateOrderRequest` of schemas.py
pub record CreateOrderRequest : Type 0 where
  pub user_id : String
  pub items : List OrderItem

-- `Field(gt=0)` on the quantity and the price of each item, `Field(min_length=1)` on the items
abbrev pub positive_items : List OrderItem → Bool
positive_items [] = true
positive_items (i ∷ items) = ltb 0 i.quantity && is_positive i.price && positive_items items

unfoldable pub is_valid_order : CreateOrderRequest → Bool
is_valid_order request = ltb 0 (length request.items) && positive_items request.items

-- The payload that `create_order` puts into its event: `str` writes a `Decimal` digit by digit.
pub record OrderPayload : Type 0 where
  pub order_id : String
  pub user_id : String
  pub items : List OrderItem
  pub total_price : Decimal

-- `sum((item.price * item.quantity for item in request.items), Decimal("0"))`; `none` is a raised error.
unfoldable pub total_of : Decimals → Decimal → List OrderItem → Option Decimal
total_of decimal acc [] = some acc
total_of decimal acc (i ∷ items) = elim (decimal.times i.price i.quantity) [
  | none ↦ none
  | some price ↦ elim (decimal.plus acc price) [
    | none ↦ none
    | some sum ↦ total_of decimal sum items
  ]
]

abbrev pub zero_decimal : Decimal
zero_decimal = record { coefficient = pos 0; exponent = pos 0 }

-- A session holds what it will write when it commits.
pub record Session (J : Type 0) : Type 0 where
  pub new_orders : List Order
  pub new_events : List (OutboxEvent J)

-- `enqueue_event`: adds an event to the session and commits nothing. The caller gives the `event_id`
-- that it has, or a fresh UUID is taken. The id of the row is set when the row is written.
unfoldable pub enqueue_event :
    {J : Type 0}
    → String
    → String
    → String
    → String
    → J
    → Option (Dict String)
    → Option String
    → String
    → ℕ
    → Session J
    → Session J
enqueue_event aggregate_type aggregate_id event_type topic payload headers event_id fresh now s =
    record s {
      new_events =
          s.new_events
          ++ record {
            id = 0;
            event_id = get_or event_id fresh;
            aggregate_type = aggregate_type;
            aggregate_id = aggregate_id;
            event_type = event_type;
            topic = topic;
            payload = payload;
            headers = get_or headers [];
            created_at = now;
            published_at = none;
          }
            ∷ [];
    }

-- The autoincrement column numbers the new rows in the order in which they were added.
unfoldable pub number_rows : {J : Type 0} → ℕ → List (OutboxEvent J) → List (OutboxEvent J)
number_rows next [] = []
number_rows next (e ∷ events) = record e { id = next } ∷ number_rows (next + 1) events

-- The end of `async with session.begin()`: all rows of the session are written, or none.
unfoldable pub commit : {J : Type 0} → Bool → Session J → Database J → Database J
unfolding number_rows
commit committed s db =
    if committed
    then record {
      orders = db.orders ++ s.new_orders;
      outbox = db.outbox ++ number_rows db.next_id s.new_events;
      next_id = db.next_id + length s.new_events;
    }
    else db

-- The UUIDs and the clock reading that one request takes.
pub record Fresh : Type 0 where
  pub order_id : String
  pub event_id : String
  pub now : ℕ

-- The session that `create_order` fills, with the total that it has computed and what the column makes of
-- it.
unfoldable pub order_session : Fresh → CreateOrderRequest → Decimal → Decimal → Session OrderPayload
unfolding enqueue_event
order_session fresh request total stored =
    enqueue_event "Order" fresh.order_id "OrderCreated" "order.events"
      (record {
        order_id = fresh.order_id;
        user_id = request.user_id;
        items = request.items;
        total_price = total;
      })
      (some (("schema_version", "1") ∷ [])) none fresh.event_id fresh.now
      (record {
        new_orders =
            record {
              order_id = fresh.order_id;
              user_id = request.user_id;
              items = request.items;
              total_price = stored;
              status = "CREATED";
              created_at = fresh.now;
              updated_at = fresh.now;
            }
            ∷ [];
        new_events = [];
      })

-- How the rest of a request goes: all of it works, `session.refresh` raises after the commit, COMMIT raises
-- although the database has committed, or the transaction is rolled back.
pub data Ending : Type 0 where
  completed unrefreshed unanswered rolled_back : Ending

abbrev pub is_written : Ending → Bool
is_written rolled_back = false
is_written _ = true

abbrev pub answer : Ending → Result ℕ (Unit {0})
answer completed = ok tt
answer _ = err 500

-- The transaction of `create_order` and its answer; a total that the column refuses makes it raise.
abbrev pub transaction :
    Fresh
    → Ending
    → CreateOrderRequest
    → Decimal
    → Option Decimal
    → Exec (Database OrderPayload) ℕ (Unit {0})
transaction fresh ending request total none db = (err 500, db)
transaction fresh ending request total (some stored) db =
    (answer ending, commit (is_written ending) (order_session fresh request total stored) db)

-- The rest of `create_order` once the total is computed, which may have raised.
abbrev pub place_order :
    Decimals
    → Fresh
    → Ending
    → CreateOrderRequest
    → Option Decimal
    → Exec (Database OrderPayload) ℕ (Unit {0})
place_order decimal fresh ending request none db = (err 500, db)
place_order decimal fresh ending request (some total) db =
    transaction fresh ending request total (decimal.numeric total) db

-- `POST /orders`: 422 for a request that is not valid, 500 if anything raises
unfoldable pub create_order :
    Decimals → Fresh → Ending → CreateOrderRequest → Exec (Database OrderPayload) ℕ (Unit {0})
create_order decimal fresh ending request db =
    let total = total_of decimal zero_decimal request.items in
    if is_valid_order request
    then place_order decimal fresh ending request total db
    else (err 422, db)

-- `GET /orders/{order_id}`
unfoldable pub find_order : String → List Order → Option Order
find_order order_id [] = none
find_order order_id (o ∷ orders) =
    if o.order_id == order_id then some o else find_order order_id orders

unfoldable pub get_order : {J : Type 0} → String → Database J → Result ℕ Order
unfolding find_order
get_order order_id db = elim (find_order order_id db.orders) [ some o ↦ ok o | none ↦ err 404 ]

-- `GET /outbox`: the newest rows first
unfoldable pub list_outbox : {J : Type 0} → Bool → ℕ → Database J → List (OutboxEvent J)
unfolding pending order_by_id
list_outbox unpublished_only limit db =
    take limit (reverse (order_by_id (if unpublished_only then pending db.outbox else db.outbox)))
