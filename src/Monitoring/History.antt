-- ===== src/Monitoring/History.antt =====
-- The counters through any history of the services.
use fastapi_kafka_guide.Prelude.{
  ◌-◌, ◌≤◌, String, ◌≡◌, refl, ap, ◌∙◌, Bool, true, false, not, Option, none, some, List, [], ◌∷◌,
  ◌++◌, arith, if◌then◌else◌, length, length-append, length-drop, Result,
}
use Prim.Native.Nat.{min}
use fastapi_kafka_guide.Python.Utf8.{Str}
use fastapi_kafka_guide.Python.Json.Numbers.{FloatCodec}
use fastapi_kafka_guide.Python.Json.Values.{Fields}
use fastapi_kafka_guide.Messaging.Clients.{Sent, Outcome, acked, refused, unacked, Message}
use fastapi_kafka_guide.Monitoring.Producer.{
  ProducerService, SendError, SendResult, new_producer, Sending, enriched, counted, deliver,
  send_record, send_message,
}
use fastapi_kafka_guide.Monitoring.Producer
use fastapi_kafka_guide.Monitoring.Consumer.{
  ConsumerService, ConsumedMessage, new_consumer, consumed, keep_message, consume_loop, stop,
}
use fastapi_kafka_guide.Monitoring.Consumer
use fastapi_kafka_guide.Monitoring.HealthChecker.{LagInfo}
use fastapi_kafka_guide.Monitoring.Api.{get_metrics}
use fastapi_kafka_guide.Monitoring.Counters.{consumed_prefix, consume_loop-stores}

-- The services with the records that Kafka holds.
pub record System (F : Type 0) : Type 0 where
  pub sending : Sending
  pub consumer : ConsumerService F

-- What happens to them: a start, a request, a run of the consumer's loop, or a stop.
pub data Step {F : Type 0} (codec : FloatCodec F) : System F → System F → Type 0 where
  producer_starts :
      (connects : Bool) (s : System F)
      → Step codec s (record s { sending = ((Producer.start connects s.sending.0).1, s.sending.1) })
  sends :
      (app_name timestamp : Str) (outcome : Outcome) (topic : String) (message : Fields F)
      (key : Option Str) (s : System F)
      → Step codec s (record s {
        sending = (send_message codec app_name timestamp outcome topic message key s.sending).1;
      })
  consumer_starts :
      (connects : Bool) (s : System F)
      → Step codec s (record s { consumer = (Consumer.start connects s.consumer).1 })
  consumes :
      (messages : List Message) (s : System F)
      → Step codec s (record s { consumer = consume_loop codec messages s.consumer })
  consumer_stops : (s : System F) → Step codec s (record s { consumer = stop s.consumer })

abbrev pub new_system : {F : Type 0} → System F
new_system = record { sending = (new_producer, []); consumer = new_consumer }

pub data Reachable {F : Type 0} (codec : FloatCodec F) : System F → Type 0 where
  initial : Reachable codec new_system
  after : {s s' : System F} → Reachable codec s → Step codec s s' → Reachable codec s'

-- The stored messages are as many as were counted, up to 100, and no more sends were counted than Kafka
-- holds records.
pub record IsCounted {F : Type 0} (s : System F) : Type 0 where
  pub stored : length s.consumer.messages ≡ min 100 s.consumer.consumed_count
  pub sent : s.sending.0.sent_count ≤ length s.sending.1

abbrev SentCounted : Sending → Type 0
SentCounted s = s.0.sent_count ≤ length s.1

send_record-SentCounted :
    (outcome : Outcome) (timestamp : Str) (r : Option Sent) (s : Sending)
    → SentCounted s
    → SentCounted (send_record outcome timestamp r s).1
send_record-SentCounted outcome timestamp none s h = h
send_record-SentCounted (acked partition offset) timestamp (some r) (p, log) h =
    omega (arith, length-append log (r ∷ []))
send_record-SentCounted refused timestamp (some r) (p, log) h = h
send_record-SentCounted unacked timestamp (some r) (p, log) h =
    omega (arith, length-append log (r ∷ []))

either :
    (b : Bool) (x y : Result SendError SendResult × Sending)
    → SentCounted x.1
    → SentCounted y.1
    → SentCounted (if b then x else y).1
either true x y hx hy = hx
either false x y hx hy = hy

module _ {F : Type 0} (codec : FloatCodec F) where
  send_message-SentCounted :
      (app_name timestamp : Str) (outcome : Outcome) (topic : String) (message : Fields F)
      (key : Option Str) (s : Sending)
      → SentCounted s
      → SentCounted (send_message codec app_name timestamp outcome topic message key s).1
  unfolding send_message
  send_message-SentCounted app_name timestamp outcome topic message key s h =
      either (not s.0.created) _ _ h (send_record-SentCounted outcome timestamp _ s h)

  -- What the loop leaves stored is what it has counted, up to 100.
  consume_loop-stored :
      (messages : List Message) (c : ConsumerService F)
      → length c.messages ≡ min 100 c.consumed_count
      → length (consume_loop codec messages c).messages
        ≡ min 100 (consume_loop codec messages c).consumed_count
  consume_loop-stored messages c h =
      let (stored, count, running) = consume_loop-stores codec messages c (omega arith) in
      let all = c.messages ++ consumed_prefix codec messages in
      let kept : length (consume_loop codec messages c).messages ≡ length all - (length all - 100) =
        ap length stored ∙ length-drop (length all - 100) all in
      omega (arith, length-append c.messages (consumed_prefix codec messages))

  Step-IsCounted : {s s' : System F} → Step codec s s' → IsCounted s → IsCounted s'
  unfolding Producer.start Consumer.start stop
  Step-IsCounted (producer_starts connects s) h = record { stored = h.stored; sent = h.sent }
  Step-IsCounted (sends app_name timestamp outcome topic message key s) h = record {
    stored = h.stored;
    sent = send_message-SentCounted app_name timestamp outcome topic message key s.sending h.sent;
  }
  Step-IsCounted (consumer_starts true s) h = record { stored = h.stored; sent = h.sent }
  Step-IsCounted (consumer_starts false s) h = record { stored = h.stored; sent = h.sent }
  Step-IsCounted (consumes messages s) h = record {
    stored = consume_loop-stored messages s.consumer h.stored;
    sent = h.sent;
  }
  Step-IsCounted (consumer_stops s) h = record { stored = h.stored; sent = h.sent }

  pub Reachable-IsCounted : {s : System F} → Reachable codec s → IsCounted s
  Reachable-IsCounted initial = record { stored = refl; sent = omega arith }
  Reachable-IsCounted (after r st) = Step-IsCounted st (Reachable-IsCounted r)

  -- Whatever starts, requests, messages and stops come, and in whatever order: `/metrics` shows as many
  -- stored messages as were consumed, up to 100, and no more counted sends than Kafka holds records of
  -- this service.
  pub metrics_counted :
      (lag : LagInfo) (s : System F)
      → Reachable codec s
      → ((get_metrics lag s.consumer s.sending.0).stored_messages
          ≡ min 100 (get_metrics lag s.consumer s.sending.0).consumed_count)
        × ((get_metrics lag s.consumer s.sending.0).sent_count ≤ length s.sending.1)
  unfolding get_metrics
  metrics_counted lag s r =
      let counted_all = Reachable-IsCounted r in (counted_all.stored, counted_all.sent)
