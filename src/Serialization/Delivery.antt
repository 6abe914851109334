-- ===== src/Serialization/Delivery.antt =====
-- From a request to the consumer's log.
use fastapi_kafka_guide.Prelude.{ℕ, String, ◌≡◌, refl, true, Option, some, List, [], ◌∷◌, ◌++◌, All}
use fastapi_kafka_guide.Prelude.Dict
use fastapi_kafka_guide.Prelude.Dict.{Dict}
use fastapi_kafka_guide.Python.Utf8.{Str, Bytes, IsText, text, decode_from, decode_byte}
use mathlib.Core.Option
use fastapi_kafka_guide.Python.Utf8.RoundTrip.{encode_total, decode-encode}
use fastapi_kafka_guide.Python.Json.Numbers.{FloatCodec}
use fastapi_kafka_guide.Python.Json.Values.{same}
use fastapi_kafka_guide.Serialization.Serializers.{key_serializer, key_deserializer, text_key}
use fastapi_kafka_guide.Serialization.Events.{OrderItem, OrderPlacedEvent, Pydantic}
use fastapi_kafka_guide.Serialization.Consumer.{
  Message, EventRecord, an_order, Consumed, max_events, read_headers, remember, convert,
  event_record, consume_message,
}
use fastapi_kafka_guide.Messaging.{acked}
use fastapi_kafka_guide.Serialization.Api.{
  CreateOrderRequest, Arithmetic, Sent, deliver, headers_of, create_order, placed_event,
  items_valid, event_valid,
}
use fastapi_kafka_guide.Serialization.Sound.{Documented, ItemIsSound, OrderIsSound}
use fastapi_kafka_guide.Serialization.RoundTrip.{order_event_arrives}

-- What a consumer is handed of a sent record: the broker adds the partition and the offset.
abbrev pub some_values : List (String × Bytes) → List (String × Option Bytes)
some_values [] = []
some_values ((k, v) ∷ rest) = (k, some v) ∷ some_values rest

abbrev pub message_of : Sent → ℕ → ℕ → Message
message_of r partition offset = record {
  topic = r.topic;
  partition = partition;
  offset = offset;
  key = r.key;
  headers = some_values r.headers;
  value = some r.value;
}

-- The headers that the endpoints write, as they are read back.
abbrev headers_read : String → String → Dict (Option Str)
headers_read event_type source =
    ("event_type", some (text event_type))
    ∷ ("source", some (text source))
    ∷ ("content_type", some (text "application/json"))
    ∷ []

read_headers-order :
    read_headers (some_values (headers_of "order_placed" "order-service")) Dict.empty
    ≡ some (headers_read "order_placed" "order-service")
unfolding read_headers decode_from decode_byte Option.bind Dict.put
read_headers-order = refl

module _ {F D : Type 0} (codec : FloatCodec F) (py : Pydantic F D) (isoformat : D → Str)
    (laws : Documented py isoformat) where
  items_valid-ItemIsSound :
      (is : List (OrderItem F)) → All (ItemIsSound codec py) is → items_valid py is ≡ true
  items_valid-ItemIsSound [] h = refl
  items_valid-ItemIsSound (i ∷ is) h =
      rw (h.0.positive, h.0.nonneg) (items_valid-ItemIsSound is h.1)

  event_valid-OrderIsSound :
      (e : OrderPlacedEvent F D) → OrderIsSound codec py e → event_valid py e ≡ true
  event_valid-OrderIsSound e h = rw (items_valid-ItemIsSound e.items h.items, h.nonneg) refl

  -- A key without surrogates is sent, and read back as it was.
  key_arrives :
      (k : Str)
      → IsText k
      → (bs : Bytes) × (key_serializer (text_key k) ≡ some (some bs))
        × (key_deserializer (some bs) ≡ some (some k))
  unfolding key_serializer key_deserializer
  key_arrives k h =
      let (bs, e) = encode_total k h in (bs, rw e refl, rw (decode-encode k bs e) refl)

  -- When the broker acknowledges the record of an order whose texts have no surrogates, whose floats are
  -- finite and not negative and whose quantities are positive, the request adds one record to Kafka, and
  -- a consumer that is handed this record, at any place of the topic, restores the very event that the
  -- request placed.
  pub order_reaches_consumer :
      (floats : Arithmetic F) (fresh fresh' : Str) (now now' : D) (request : CreateOrderRequest F)
      (log : List Sent) (partition offset : ℕ) (s : Consumed F D)
      → OrderIsSound codec py (placed_event floats fresh now request)
      → (r : Sent) × (s' : Consumed F D) × ((create_order codec isoformat py floats true fresh now
            acked request log).1
          ≡ log ++ r ∷ [])
        × (consume_message codec py fresh' now' (message_of r partition offset) s ≡ some s')
        × (s'.conversions ≡ s.conversions ++ an_order (placed_event floats fresh now request) ∷ [])
  unfolding create_order deliver consume_message event_record convert Dict.get same
  order_reaches_consumer floats fresh fresh' now now' request log partition offset s h =
      let event = placed_event floats fresh now request in
      let (kb, key_sent, key_read) = key_arrives request.order_id h.order_id in
      let (bs, v, sent, read, valid) =
        order_event_arrives codec isoformat py laws fresh' now' event h in
      let r : Sent = record {
        topic = "order-events";
        key = some kb;
        value = bs;
        headers = headers_of "order_placed" "order-service";
      } in
      let e : EventRecord F = record {
        topic = "order-events";
        partition = partition;
        offset = offset;
        key = some request.order_id;
        headers = headers_read "order_placed" "order-service";
        value = v;
      } in
      (
        r,
        record {
          consumed_events = remember max_events s.consumed_events e;
          conversions = s.conversions ++ an_order event ∷ [];
        },
        rw (event_valid-OrderIsSound event h, key_sent, sent) refl,
        rw (key_read, read, read_headers-order, valid) refl,
        refl,
      )
