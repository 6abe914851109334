-- ===== src/Serialization/Examples.antt =====
-- The theorems at concrete events: two prices, 12.5 and 0.25, and two times.
use fastapi_kafka_guide.Prelude.{
  ◌≡◌, refl, Bool, true, false, Option, none, some, List, [], ◌∷◌, arith,
}
use fastapi_kafka_guide.Prelude.Int.{ℤ, pos}
use fastapi_kafka_guide.Prelude.Windows.{keep_last}
use fastapi_kafka_guide.Messaging.{acked}
use mathlib.Core.Option
use fastapi_kafka_guide.Python.Utf8.{Str, Bytes, IsText, text}
use fastapi_kafka_guide.Python.Utf8.RoundTrip.{IsText-all_scalar}
use fastapi_kafka_guide.Python.Json.Numbers.{FloatCodec, num_run, num_step, kind_of, IsFinite}
use fastapi_kafka_guide.Python.Json.Values.{Value, str, int, float, same}
use fastapi_kafka_guide.Serialization.Events.{OrderPlacedEvent, Pydantic}
use fastapi_kafka_guide.Serialization.Sound.{Documented, OrderIsSound}
use fastapi_kafka_guide.Serialization.Consumer.{
  Message, Consumed, max_events, consume_message, consume_messages, an_order,
}
use fastapi_kafka_guide.Serialization.Memory.{recorded, raises, consume_messages-keeps}
use fastapi_kafka_guide.Serialization.Api.{
  CreateOrderRequest, Arithmetic, Sent, create_order, placed_event, sum_prices,
}
use fastapi_kafka_guide.Serialization.Delivery.{message_of, order_reaches_consumer}

abbrev shown_price : Bool → Str
shown_price true = text "12.5"
shown_price false = text "0.25"

abbrev prices : FloatCodec Bool
prices = record { shown = shown_price; read = λ s. same s (text "12.5") }

abbrev isoformat : Bool → Str
isoformat true = text "2024-05-01T09:00:00"
isoformat false = text "2024-05-01T10:30:00.250000"

abbrev text_of : Value Bool → Option Str
text_of (str s) = some s
text_of _ = none

abbrev int_of : Value Bool → Option ℤ
int_of (int i) = some i
int_of _ = none

abbrev float_of : Value Bool → Option Bool
float_of (float x) = some x
float_of _ = none

abbrev time_of : Value Bool → Option Bool
time_of (str s) = some (same s (isoformat true))
time_of _ = none

abbrev pydantic : Pydantic Bool Bool
pydantic = record {
  to_text = text_of;
  to_int = int_of;
  to_float = float_of;
  to_datetime = time_of;
  is_nonneg = λ x. true;
}

read_time : (d : Bool) → some (same (isoformat d) (isoformat true)) ≡ some d
unfolding same
read_time true = refl
read_time false = refl

plain_time : (d : Bool) → IsText (isoformat d)
plain_time true = IsText-all_scalar (isoformat true) refl
plain_time false = IsText-all_scalar (isoformat false) refl

abbrev documented : Documented pydantic isoformat
documented = record {
  text_taken = λ s. refl;
  int_taken = λ i. refl;
  float_taken = λ x. refl;
  time_read = read_time;
  time_plain = plain_time;
}

price-IsFinite : (x : Bool) → IsFinite prices x
unfolding num_run num_step kind_of same Option.bind
price-IsFinite true = refl
price-IsFinite false = refl

abbrev request : CreateOrderRequest Bool
request = record {
  order_id = text "order-001";
  user_id = text "user-001";
  items =
      (record {
        product_id = text "prod-001";
        product_name = text "키보드 \"A\"\n";
        quantity = pos 2;
        price = true;
      })
      ∷ [];
}

abbrev arithmetic : Arithmetic Bool
arithmetic = record {
  zero_amount = false;
  times = λ n x. x;
  plus = λ x y. y;
  rounded = shown_price;
}

abbrev placed : OrderPlacedEvent Bool Bool
placed = placed_event arithmetic (text "7c9e") true request

placed-OrderIsSound : OrderIsSound prices pydantic placed
unfolding sum_prices
placed-OrderIsSound = record {
  event_id = IsText-all_scalar placed.event_id refl;
  order_id = IsText-all_scalar request.order_id refl;
  user_id = IsText-all_scalar request.user_id refl;
  items = (
    record {
      product_id = IsText-all_scalar (text "prod-001") refl;
      product_name = IsText-all_scalar (text "키보드 \"A\"\n") refl;
      price = price-IsFinite true;
      positive = refl;
      nonneg = refl;
    },
    tt,
  );
  total_price = price-IsFinite placed.total_price;
  nonneg = refl;
}

abbrev nothing : Consumed Bool Bool
nothing = record { consumed_events = []; conversions = [] }

order_reaches_consumer_example :
    (r : Sent) × (s' : Consumed Bool Bool) × ((create_order prices isoformat pydantic arithmetic
        true
        (text "7c9e")
        true
        acked
        request
        []).1
      ≡ r ∷ [])
    × (consume_message prices pydantic (text "x") false (message_of r 1 42) nothing ≡ some s')
    × (s'.conversions ≡ an_order placed ∷ [])
order_reaches_consumer_example =
    order_reaches_consumer prices pydantic isoformat documented arithmetic (text "7c9e") (text "x")
      true false request [] 1 42 nothing placed-OrderIsSound

abbrev bytes_message : Bytes → Message
bytes_message bs = record {
  topic = "user-events";
  partition = 0;
  offset = 7;
  key = none;
  headers = [];
  value = some bs;
}

-- The second message is no JSON, so the third is not reached.
abbrev messages : List (Message × Str × Bool)
messages =
    (bytes_message (text "{\"a\": [1, true]}"), [], true)
    ∷ (bytes_message (text "{1: 2}"), [], true)
    ∷ (bytes_message (text "{}"), [], true)
    ∷ []

consume_messages-keeps_example :
    ((consume_messages prices pydantic messages nothing).1.consumed_events
      ≡ keep_last max_events (recorded prices pydantic messages))
    × ((consume_messages prices pydantic messages nothing).0 ≡ raises prices pydantic messages)
consume_messages-keeps_example =
    consume_messages-keeps prices pydantic messages nothing (omega arith)
