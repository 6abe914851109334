-- ===== src/Monitoring/Examples.antt =====
-- The theorems at concrete messages and partitions.
use fastapi_kafka_guide.Prelude.{◌≤◌, String, ◌≡◌, refl, true, none, some, [], ◌∷◌, length}
use Prim.Native.Nat.{min}
use fastapi_kafka_guide.Prelude.Int.{pos}
use fastapi_kafka_guide.Python.Utf8.{Str, IsText, text}
use fastapi_kafka_guide.Python.Utf8.RoundTrip.{all_scalar, IsText-all_scalar}
use fastapi_kafka_guide.Python.Json.Numbers.{FloatCodec}
use fastapi_kafka_guide.Python.Json.Values.{
  Fields, str, int, object, no_fields, field, same, set_field, set_fields, get_field,
}
use fastapi_kafka_guide.Python.Json.Entries.{IsLoadable}
use fastapi_kafka_guide.Monitoring.Producer
use fastapi_kafka_guide.Messaging.Clients.{Sent, acked, message_of}
use fastapi_kafka_guide.Monitoring.Producer.{
  ProducerService, new_producer, Sending, enriched, counted, send_message,
}
use fastapi_kafka_guide.Monitoring.Consumer.{ConsumedMessage, new_consumer, consumed}
use fastapi_kafka_guide.Monitoring.HealthChecker.{LagInfo}
use fastapi_kafka_guide.Monitoring.Api.{get_metrics}
use fastapi_kafka_guide.Monitoring.History.{
  System, Reachable, initial, after, producer_starts, sends, new_system, metrics_counted,
}
use fastapi_kafka_guide.Monitoring.Metadata.{sent_message_consumed}

abbrev one_float : FloatCodec (Unit {0})
one_float = record { shown = λ x. text "1.0"; read = λ s. tt }

abbrev login : Fields (Unit {0})
login = field (text "event") (str (text "login")) (field (text "source") (int (pos 3)) no_fields)

abbrev running : Sending
running = (record { created = true; sent_count = 4 }, [])

abbrev app : Str
app = text "FastAPI Kafka Monitoring"

abbrev now : Str
now = text "2024-05-01T09:00:00+00:00"

plain : (k : String) → all_scalar (text k) ≡ true → IsText (text k)
plain k h = IsText-all_scalar (text k) h

login-IsLoadable : IsLoadable one_float (object (enriched app now login))
unfolding IsLoadable enriched set_field set_fields same
login-IsLoadable = (
  (
    plain "event" refl,
    plain "login" refl,
    (
      plain "source" refl,
      plain "FastAPI Kafka Monitoring" refl,
      (plain "timestamp" refl, plain "2024-05-01T09:00:00+00:00" refl, tt),
    ),
  ),
  refl,
)

sent_message_consumed_example :
    (r : Sent) × (m : ConsumedMessage (Unit {0})) × ((send_message one_float app now
        (acked 2 17)
        "monitoring-topic"
        login
        (some (text "k1"))
        running).1
      ≡ (counted running.0, r ∷ []))
    × (consumed one_float (message_of r 2 17) ≡ some m)
    × (m.value ≡ object (enriched app now login))
    × (m.key ≡ some (text "k1"))
    × (get_field (enriched app now login) (text "source") ≡ some (str app))
    × (get_field (enriched app now login) (text "timestamp") ≡ some (str now))
sent_message_consumed_example =
    sent_message_consumed one_float app now "monitoring-topic" login (some (text "k1")) 2 17 running
      refl (plain "k1" refl) login-IsLoadable

abbrev after_send : System (Unit {0})
after_send = record {
  sending =
      (send_message one_float app now (acked 0 0) "monitoring-topic" login none
        ((Producer.start true new_producer).1, [])).1;
  consumer = new_consumer;
}

abbrev lag_unknown : LagInfo
lag_unknown = record {
  group_id = "monitoring-group";
  partitions = [];
  total_lag = none;
  error = some "timeout";
}

after_send-Reachable : Reachable one_float after_send
after_send-Reachable =
    after (after initial (producer_starts true new_system))
      (sends app now (acked 0 0) "monitoring-topic" login none _)

metrics_counted_example :
    ((get_metrics lag_unknown after_send.consumer after_send.sending.0).stored_messages
      ≡ min 100 (get_metrics lag_unknown after_send.consumer after_send.sending.0).consumed_count)
    × ((get_metrics lag_unknown after_send.consumer after_send.sending.0).sent_count
        ≤ length after_send.sending.1)
metrics_counted_example = metrics_counted one_float lag_unknown after_send after_send-Reachable
