-- ===== src/FirstServices/Texts.antt =====
-- app/main.py of 02-first-producer, and 03-first-consumer: producer/app/main.py, which sends alike, and
-- consumer/app/consumer.py and main.py, which list the texts.
use fastapi_kafka_guide.Prelude.{
  ℕ, String, Bool, false, Option, none, some, List, [], ◌∷◌, ◌++◌, ltb, if◌then◌else◌, length,
  Result, ok, err,
}
use fastapi_kafka_guide.Messaging.Clients.{
  Sent, Outcome, acked, refused, unacked, Message, key_bytes, key_text, sent_record,
}
use fastapi_kafka_guide.Python.Utf8.{Str, encode, decode}

pub record MessageRequest : Type 0 where
  pub topic : String
  pub key : Option Str
  pub value : Str

pub record MessageResponse : Type 0 where
  pub topic : String
  pub partition : ℕ
  pub offset : ℕ

-- Every exception of the send becomes a 500.
pub data HttpError : Type 0 where
  internal_error : HttpError

-- The record of a request, where both of its texts can be encoded.
abbrev pub message_record : MessageRequest → Option Sent
message_record body = sent_record body.topic (key_bytes body.key) (encode body.value)

abbrev pub deliver : Outcome → Sent → List Sent → Result HttpError MessageResponse × List Sent
deliver (acked partition offset) r log =
    (ok (record { topic = r.topic; partition = partition; offset = offset }), log ++ r ∷ [])
deliver refused r log = (err internal_error, log)
deliver unacked r log = (err internal_error, log ++ r ∷ [])

abbrev pub deliver_record :
    Outcome → Option Sent → List Sent → Result HttpError MessageResponse × List Sent
deliver_record outcome none log = (err internal_error, log)
deliver_record outcome (some r) log = deliver outcome r log

-- `POST /messages`
unfoldable pub send_message :
    Outcome → MessageRequest → List Sent → Result HttpError MessageResponse × List Sent
send_message outcome body log = deliver_record outcome (message_record body) log

pub record Health : Type 0 where
  pub status : String
  pub kafka_connected : Bool

-- `GET /health` of 02, from the number of the brokers that the client knows, if any.
unfoldable pub health_check : Option ℕ → Health
health_check brokers =
    let connected : Bool = elim brokers [ none ↦ false | some n ↦ ltb 0 n ] in
    record { status = if connected then "healthy" else "unhealthy"; kafka_connected = connected }

-- A message with Kafka's timestamp and the clock at its turn.
pub record Turn : Type 0 where
  pub message : Message
  pub timestamp : ℕ
  pub now : Str

pub record MessageData : Type 0 where
  pub topic : String
  pub partition : ℕ
  pub offset : ℕ
  pub key : Option Str
  pub value : Str
  pub timestamp : ℕ
  pub received_at : Str

abbrev pub data_of : Turn → Option (Option Str) → Option Str → Option MessageData
data_of t (some key) (some value) = some (record {
  topic = t.message.topic;
  partition = t.message.partition;
  offset = t.message.offset;
  key = key;
  value = value;
  timestamp = t.timestamp;
  received_at = t.now;
})
data_of t _ _ = none

-- The message after the deserializers, which may raise.
unfoldable pub received : Turn → Option MessageData
received t = data_of t (key_text t.message.key) (decode t.message.value)

-- `_consume_loop` up to where the task is cancelled: a message that does not decode ends it.
unfoldable pub consume_loop : List Turn → List MessageData → List MessageData
consume_loop [] stored = stored
consume_loop (t ∷ turns) stored = elim (received t) [
  | none ↦ stored
  | some m ↦ consume_loop turns (stored ++ m ∷ [])
]

pub record MessagePage : Type 0 where
  pub count : ℕ
  pub messages : List MessageData

-- `GET /messages`
unfoldable pub list_messages : List MessageData → MessagePage
list_messages messages = record { count = length messages; messages = messages }
