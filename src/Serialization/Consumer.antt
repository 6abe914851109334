-- ===== src/Serialization/Consumer.antt =====
-- app/consumer.py: the background consumer, which keeps the last 1000 events. A deserializer that raises
-- ends the loop, since it runs inside `async for`.
use fastapi_kafka_guide.Prelude.{
  ℕ, String, Bool, true, false, Option, none, some, List, [], ◌∷◌, ◌++◌, ltb, if◌then◌else◌, get_or,
  length, drop,
}
use fastapi_kafka_guide.Prelude.Dict
use fastapi_kafka_guide.Prelude.Dict.{Dict}
use fastapi_kafka_guide.Messaging.{connect_loop}
use fastapi_kafka_guide.Python.Utf8.{Str, Bytes, text, decode}
use fastapi_kafka_guide.Python.Json.Numbers.{FloatCodec}
use fastapi_kafka_guide.Python.Json.Parser.{Parsed, parsed, malformed, out_of_fuel}
use fastapi_kafka_guide.Python.Json.Values.{Value, same}
use fastapi_kafka_guide.Serialization.Serializers.{json_deserializer, key_deserializer, ◌>>=◌}
use fastapi_kafka_guide.Serialization.Events.{
  UserCreatedEvent, OrderPlacedEvent, Pydantic, validate_user, validate_order,
}

-- A record as Kafka hands it out.
pub record Message : Type 0 where
  pub topic : String
  pub partition : ℕ
  pub offset : ℕ
  pub key : Option Bytes
  pub headers : List (String × Option Bytes)
  pub value : Option Bytes

pub record EventRecord (F : Type 0) : Type 0 where
  pub topic : String
  pub partition : ℕ
  pub offset : ℕ
  pub key : Option Str
  pub headers : Dict (Option Str)
  pub value : Value F

-- What the log says of a message's model: none is known for it, the restored event, or a failure.
pub data Conversion (F D : Type 0) : Type 0 where
  no_model : Conversion F D
  a_user : UserCreatedEvent D → Conversion F D
  an_order : OrderPlacedEvent F D → Conversion F D
  not_converted : Conversion F D

-- The memory of the consumer, with what it has logged of the models.
pub record Consumed (F D : Type 0) : Type 0 where
  pub consumed_events : List (EventRecord F)
  pub conversions : List (Conversion F D)

abbrev pub max_events : ℕ
max_events = 1000

-- `header_value.decode("utf-8") if header_value else None`; the outer `none` is a raised error.
abbrev pub header_text : Option Bytes → Option (Option Str)
header_text none = some none
header_text (some []) = some none
header_text (some (b ∷ bs)) = decode (b ∷ bs) >>= λ s. some (some s)

unfoldable pub read_headers :
    List (String × Option Bytes) → Dict (Option Str) → Option (Dict (Option Str))
read_headers [] headers = some headers
read_headers ((k, v) ∷ rest) headers =
    header_text v >>= λ s. read_headers rest (Dict.put headers k s)

-- `headers.get("event_type")`
abbrev pub event_type_of : Dict (Option Str) → Option Str
event_type_of headers = get_or (Dict.get headers "event_type") none

-- A full list loses its oldest event.
unfoldable pub remember : {A : Type 0} → ℕ → List A → A → List A
remember most events e =
    let appended = events ++ e ∷ [] in
    if ltb most (length appended) then drop 1 appended else appended

module _ {F D : Type 0} where
  abbrev pub converted : {E : Type 0} → (E → Conversion F D) → Option E → Conversion F D
  converted wrap none = not_converted
  converted wrap (some e) = wrap e

  -- `EVENT_MODEL_MAP`, and the model's validation. Without a type, or with an empty one, there is no model.
  unfoldable pub convert : Pydantic F D → Str → D → Option Str → Value F → Conversion F D
  convert py fresh now none v = no_model
  convert py fresh now (some event_type) v =
      if same event_type (text "user_created")
      then converted a_user (validate_user py fresh now v)
      else if same event_type (text "order_placed")
      then converted an_order (validate_order py fresh now v)
      else no_model

module _ {F : Type 0} where
  -- The value, where parsing did not raise.
  abbrev pub loaded : Parsed (Value F) → Option (Value F)
  loaded (parsed v) = some v
  loaded malformed = none
  loaded out_of_fuel = none

  -- `event_record`; `none` is a raised error.
  unfoldable pub event_record : FloatCodec F → Message → Option (EventRecord F)
  event_record codec msg = do
    key ← key_deserializer msg.key
    value ← loaded (json_deserializer codec msg.value)
    headers ← read_headers msg.headers Dict.empty
    some (record {
      topic = msg.topic;
      partition = msg.partition;
      offset = msg.offset;
      key = key;
      headers = headers;
      value = value;
    })

module _ {F D : Type 0} where
  -- One round of the loop.
  unfoldable pub consume_message :
      FloatCodec F → Pydantic F D → Str → D → Message → Consumed F D → Option (Consumed F D)
  consume_message codec py fresh now msg s = do
    e ← event_record codec msg
    some (record {
      consumed_events = remember max_events s.consumed_events e;
      conversions = s.conversions ++ convert py fresh now (event_type_of e.headers) e.value ∷ [];
    })

  -- `async for msg in consumer`: the flag is whether the loop was ended by an error. A message comes with
  -- what the model's factories would give for it.
  unfoldable pub consume_messages :
      FloatCodec F → Pydantic F D → List (Message × Str × D) → Consumed F D → Bool × Consumed F D
  consume_messages codec py [] s = (false, s)
  consume_messages codec py ((msg, fresh, now) ∷ messages) s =
      elim (consume_message codec py fresh now msg s) [
        | none ↦ (true, s)
        | some s' ↦ consume_messages codec py messages s'
      ]

  -- `start_consumer`: 30 attempts to connect, then the loop.
  unfoldable pub start_consumer :
      FloatCodec F
      → Pydantic F D
      → (ℕ → Bool)
      → List (Message × Str × D)
      → Consumed F D
      → Bool × Consumed F D
  start_consumer codec py accepts messages s =
      let (connected, _) = connect_loop 30 accepts 0 in
      if connected then consume_messages codec py messages s else (false, s)
