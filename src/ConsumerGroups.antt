-- ===== src/ConsumerGroups.antt =====
-- producer/app/main.py and schemas.py of 05-consumer-groups: the orders that the producer sends. The draws of
-- `uuid4` are their 128-bit numbers.
pub mod Consumer
pub mod Bulk
pub mod Delivery
pub mod Received
pub mod Examples
use fastapi_kafka_guide.Prelude.{
  ℕ, zero, suc, ◌+◌, ◌-◌, ◌*◌, ◌/◌, ◌%◌, ◌^◌, ◌≤◌, ◌<◌, String, ◌≡◌, refl, sym, ap, subst, ◌∙◌, ◌≢◌,
  ◌↔◌, ◌⊎◌, inl, inr, Bool, true, false, ◌&&◌, ◌||◌, not, Option, none, some, List, [], ◌∷◌, ◌++◌,
  map, append-nil, append_assoc, arith, ltb, leb, eqb, if◌then◌else◌, Bool-cases, Option-cases,
  some_injective, get_or, is_some, length, take, drop, replicate, length-append, length-drop,
  length-take_le, nil_of_length, All, All-append, In, In-append_left, In-append_right, In-take,
  In-if, All-In, In-All, eqb_iff, le→leb, Result, ok, err, Exec, Result-cases, pure, raise, modify,
  gets, ◌==◌, eq_iff, eq_refl,
}
use fastapi_kafka_guide.Prelude.Int.{ℤ, pos, negsuc}
use fastapi_kafka_guide.Messaging.Clients.{
  Sent, Outcome, acked, refused, unacked, key_bytes, sent_record,
}
use fastapi_kafka_guide.Python.Utf8.{Str, Bytes, text}
use fastapi_kafka_guide.Python.Json.Numbers.{FloatCodec}
use fastapi_kafka_guide.Python.Json.Values.{Value, Fields, str, int, object, no_fields, field}
use fastapi_kafka_guide.Python.Json.Bytes.{to_bytes}

pub record OrderResponse : Type 0 where
  pub order_id : Str
  pub topic : String
  pub partition : ℕ
  pub offset : ℕ

-- The three calls of `uuid4` for one order.
pub record Draws : Type 0 where
  pub id : ℕ
  pub item : ℕ
  pub quantity : ℕ

abbrev pub hex_char : ℕ → ℕ
hex_char d = if ltb d 10 then 48 + d else 87 + d

-- The last digits of a number in base 16, the most significant first.
unfoldable pub hex_digits : ℕ → ℕ → Str
hex_digits zero n = []
hex_digits (suc k) n = hex_digits k (n / 16) ++ hex_char (n % 16) ∷ []

-- `str(uuid.uuid4())[:8]`: the first 32 bits.
abbrev pub order_id_of : ℕ → Str
order_id_of n = hex_digits 8 (n / 2 ^ 96)

-- `f"item-{uuid.uuid4().hex[:4]}"`: the first 16 bits.
abbrev pub item_of : ℕ → Str
item_of n = text "item-" ++ hex_digits 4 (n / 2 ^ 112)

-- `int(uuid.uuid4().int % 10) + 1`
abbrev pub quantity_of : ℕ → ℕ
quantity_of n = n % 10 + 1

module _ {F : Type 0} where
  abbrev pub order_data : Draws → Fields F
  order_data d = field (text "order_id") (str (order_id_of d.id)) (
      field (text "item") (str (item_of d.item))
        (field (text "quantity") (int (pos (quantity_of d.quantity))) no_fields))

module _ {F : Type 0} (codec : FloatCodec F) where
  -- The record of an order. Its texts are ASCII, which `json.dumps` writes alike with and without
  -- `ensure_ascii`.
  unfoldable pub order_record : String → Draws → Option Sent
  order_record topic d =
      sent_record topic (key_bytes (some (order_id_of d.id)))
        (to_bytes codec (object (order_data d)))

abbrev pub deliver : Outcome → Str → Sent → List Sent → Option OrderResponse × List Sent
deliver (acked partition offset) order_id r log = (
  some (record { order_id = order_id; topic = r.topic; partition = partition; offset = offset }),
  log ++ r ∷ [],
)
deliver refused order_id r log = (none, log)
deliver unacked order_id r log = (none, log ++ r ∷ [])

abbrev pub deliver_record :
    Outcome → Str → Option Sent → List Sent → Option OrderResponse × List Sent
deliver_record outcome order_id none log = (none, log)
deliver_record outcome order_id (some r) log = deliver outcome order_id r log

-- What the endpoints raise: a body that pydantic refuses, or the 500 of a send that raised.
pub data OrderError : Type 0 where
  invalid_count order_failed bulk_failed : OrderError

pub record BulkOrderResponse : Type 0 where
  pub total_sent : ℕ
  pub orders : List OrderResponse

-- `count: int = Field(default=10, ge=1, le=1000)`
unfoldable pub count_of : Option ℤ → Option ℕ
count_of none = some 10
count_of (some (negsuc n)) = none
count_of (some (pos n)) = if leb 1 n && leb n 1000 then some n else none

abbrev pub to_order : Option OrderResponse × List Sent → Result OrderError OrderResponse × List Sent
to_order (none, log) = (err order_failed, log)
to_order (some o, log) = (ok o, log)

abbrev pub to_bulk :
    Option (List OrderResponse) × List Sent → Result OrderError BulkOrderResponse × List Sent
to_bulk (none, log) = (err bulk_failed, log)
to_bulk (some orders, log) = (ok (record { total_sent = length orders; orders = orders }), log)

-- The draws of one order after the other, and how each send ends.
abbrev pub Attempts : Type 0
Attempts = ℕ → Draws × Outcome

module _ {F : Type 0} (codec : FloatCodec F) (topic : String) where
  -- `_send_order`; `none` is a raised error.
  unfoldable pub send_order : Draws × Outcome → List Sent → Option OrderResponse × List Sent
  send_order (d, outcome) log =
      deliver_record outcome (order_id_of d.id) (order_record codec topic d) log

  -- `POST /orders`
  unfoldable pub post_order :
      Draws × Outcome → List Sent → Result OrderError OrderResponse × List Sent
  post_order attempt log = to_order (send_order attempt log)

  -- The loop of `send_bulk_orders`, which an error ends.
  unfoldable pub send_orders :
      ℕ → Attempts → List OrderResponse → List Sent → Option (List OrderResponse) × List Sent
  send_orders zero attempts orders log = (some orders, log)
  send_orders (suc n) attempts orders log =
      let sent = send_order (attempts 0) log in
      elim sent.0 [
        | none ↦ (none, sent.1)
        | some order ↦ send_orders n (λ j. attempts (suc j)) (orders ++ order ∷ []) sent.1
      ]

  -- `POST /bulk-orders`
  unfoldable pub send_bulk_orders :
      Option ℤ → Attempts → List Sent → Result OrderError BulkOrderResponse × List Sent
  send_bulk_orders count attempts log = elim (count_of count) [
    | none ↦ (err invalid_count, log)
    | some n ↦ to_bulk (send_orders n attempts [] log)
  ]

-- `GET /health` of the producer, from the brokers that the client knows, if any.
pub record Health : Type 0 where
  pub status : String
  pub kafka_connected : Bool

unfoldable pub health_check : Option ℕ → Health
health_check brokers =
    let connected : Bool = elim brokers [ none ↦ false | some n ↦ ltb 0 n ] in
    record { status = if connected then "healthy" else "unhealthy"; kafka_connected = connected }
