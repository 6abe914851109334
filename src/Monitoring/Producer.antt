-- ===== src/Monitoring/Producer.antt =====
-- app/producer.py: `KafkaProducerService`. `none` for a producer's start is that it was never called.
use fastapi_kafka_guide.Prelude.{
  ℕ, ◌+◌, String, Bool, true, false, not, Option, none, some, List, [], ◌∷◌, ◌++◌, if◌then◌else◌,
  Result, ok, err,
}
use fastapi_kafka_guide.Messaging.Clients.{
  sent_record, Sent, Outcome, acked, refused, unacked, key_bytes,
}
use fastapi_kafka_guide.Python.Utf8.{Str, text}
use fastapi_kafka_guide.Python.Json.Numbers.{FloatCodec}
use fastapi_kafka_guide.Python.Json.Values.{Fields, str, object, set_field}
use fastapi_kafka_guide.Python.Json.Bytes.{to_bytes}

pub record ProducerService : Type 0 where
  pub created : Bool
  pub sent_count : ℕ

-- `__init__`
abbrev pub new_producer : ProducerService
new_producer = record { created = false; sent_count = 0 }

pub data SendError : Type 0 where
  not_started not_serialized send_failed : SendError

-- What `send_message` returns.
pub record SendResult : Type 0 where
  pub status : String
  pub topic : String
  pub partition : ℕ
  pub offset : ℕ
  pub timestamp : Str

-- `start`: the producer is set before the connection is tried, which may raise.
unfoldable pub start : Bool → ProducerService → Bool × ProducerService
start connects p = (connects, record p { created = true })

module _ {F : Type 0} where
  -- The message with its metadata, which a field of the message does not displace.
  unfoldable pub enriched : Str → Str → Fields F → Fields F
  enriched app_name timestamp message =
      set_field (set_field message (text "timestamp") (str timestamp)) (text "source")
        (str app_name)

-- The state of the service with the records that Kafka holds.
abbrev pub Sending : Type 0
Sending = ProducerService × List Sent

abbrev pub counted : ProducerService → ProducerService
counted p = record p { sent_count = p.sent_count + 1 }

abbrev pub deliver : Outcome → Str → Sent → Sending → Result SendError SendResult × Sending
deliver (acked partition offset) timestamp r (p, log) = (
  ok (record {
    status = "sent";
    topic = r.topic;
    partition = partition;
    offset = offset;
    timestamp = timestamp;
  }),
  (counted p, log ++ r ∷ []),
)
deliver refused timestamp r (p, log) = (err send_failed, (p, log))
deliver unacked timestamp r (p, log) = (err send_failed, (p, log ++ r ∷ []))

abbrev pub send_record :
    Outcome → Str → Option Sent → Sending → Result SendError SendResult × Sending
send_record outcome timestamp none s = (err not_serialized, s)
send_record outcome timestamp (some r) s = deliver outcome timestamp r s

module _ {F : Type 0} where
  -- `send_message`
  unfoldable pub send_message :
      FloatCodec F
      → Str
      → Str
      → Outcome
      → String
      → Fields F
      → Option Str
      → Sending
      → Result SendError SendResult × Sending
  send_message codec app_name timestamp outcome topic message key s =
      let value = to_bytes codec (object (enriched app_name timestamp message)) in
      let sent = send_record outcome timestamp (sent_record topic (key_bytes key) value) s in
      if not s.0.created then (err not_started, s) else sent
