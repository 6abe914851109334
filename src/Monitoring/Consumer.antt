-- ===== src/Monitoring/Consumer.antt =====
-- app/consumer.py: `KafkaConsumerService`. Deserializing and decoding may raise, which ends the loop.
use fastapi_kafka_guide.Prelude.{
  ℕ, ◌+◌, String, Bool, true, false, Option, none, some, List, [], ◌∷◌, ◌++◌, ltb, if◌then◌else◌,
  length,
}
use fastapi_kafka_guide.Prelude.Windows.{keep_last}
use fastapi_kafka_guide.Messaging.Clients.{Message, key_text}
use fastapi_kafka_guide.Python.Utf8.{Str}
use fastapi_kafka_guide.Python.Json.Numbers.{FloatCodec}
use fastapi_kafka_guide.Python.Json.Values.{Value}
use fastapi_kafka_guide.Python.Json.Parser.{Parsed, parsed, malformed, out_of_fuel}
use fastapi_kafka_guide.Python.Json.Bytes.{from_bytes}

pub record ConsumedMessage (F : Type 0) : Type 0 where
  pub topic : String
  pub partition : ℕ
  pub offset : ℕ
  pub key : Option Str
  pub value : Value F

pub record ConsumerService (F : Type 0) : Type 0 where
  pub messages : List (ConsumedMessage F)
  pub consumed_count : ℕ
  pub is_running : Bool

-- `__init__`
abbrev pub new_consumer : {F : Type 0} → ConsumerService F
new_consumer = record { messages = []; consumed_count = 0; is_running = false }

module _ {F : Type 0} where
  -- `start`: the flag is set once the client has connected.
  unfoldable pub start : Bool → ConsumerService F → Bool × ConsumerService F
  start connects c = if connects then (true, record c { is_running = true }) else (false, c)

  -- `stop`
  unfoldable pub stop : ConsumerService F → ConsumerService F
  stop c = record c { is_running = false }

  abbrev pub loaded : Parsed (Value F) → Option (Value F)
  loaded (parsed v) = some v
  loaded malformed = none
  loaded out_of_fuel = none

  abbrev pub consumed_of :
      Message → Option (Value F) → Option (Option Str) → Option (ConsumedMessage F)
  consumed_of msg (some value) (some key) = some (record {
    topic = msg.topic;
    partition = msg.partition;
    offset = msg.offset;
    key = key;
    value = value;
  })
  consumed_of msg _ _ = none

  unfoldable pub consumed : FloatCodec F → Message → Option (ConsumedMessage F)
  consumed codec msg = consumed_of msg (loaded (from_bytes codec msg.value)) (key_text msg.key)

  -- The last 100 messages are kept, and every message is counted.
  unfoldable pub keep_message : ConsumedMessage F → ConsumerService F → ConsumerService F
  keep_message m c =
      let appended = c.messages ++ m ∷ [] in
      let kept = if ltb 100 (length appended) then keep_last 100 appended else appended in
      record c { messages = kept; consumed_count = c.consumed_count + 1 }

  -- `_consume_loop` up to where the task is cancelled: an error ends it, and then the consumer no longer
  -- counts as running.
  unfoldable pub consume_loop : FloatCodec F → List Message → ConsumerService F → ConsumerService F
  consume_loop codec [] c = c
  consume_loop codec (msg ∷ messages) c = elim (consumed codec msg) [
    | none ↦ record c { is_running = false }
    | some m ↦ consume_loop codec messages (keep_message m c)
  ]
