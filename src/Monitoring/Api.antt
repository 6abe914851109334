-- ===== src/Monitoring/Api.antt =====
-- app/main.py: the endpoints over the two services and the health checker.
use fastapi_kafka_guide.Prelude.{
  ℕ, String, Bool, Option, none, some, List, if◌then◌else◌, length, Result, ok, err, ◌==◌,
}
use fastapi_kafka_guide.Prelude.Int.{ℤ}
use fastapi_kafka_guide.Prelude.Windows.{last_entries}
use fastapi_kafka_guide.Python.Utf8.{Str}
use fastapi_kafka_guide.Python.Json.Numbers.{FloatCodec}
use fastapi_kafka_guide.Python.Json.Values.{Fields}
use fastapi_kafka_guide.Messaging.Clients.{Outcome}
use fastapi_kafka_guide.Monitoring.Producer.{ProducerService, SendError, SendResult, Sending}
use fastapi_kafka_guide.Monitoring.Producer
use fastapi_kafka_guide.Monitoring.Consumer.{ConsumerService, ConsumedMessage}
use fastapi_kafka_guide.Monitoring.HealthChecker.{BrokerStatus, LagInfo, ClusterInfo}

pub record MessageRequest (F : Type 0) : Type 0 where
  pub key : Option Str
  pub value : Fields F
  pub topic : Option String

-- `request.topic or settings.kafka_topic`
abbrev pub topic_or : Option String → String → String
topic_or none default = default
topic_or (some t) default = if t == "" then default else t

-- Every exception becomes a 500 with its text.
pub data HttpError : Type 0 where
  internal_error : SendError → HttpError

abbrev pub to_response :
    Result SendError SendResult × Sending → Result HttpError SendResult × Sending
to_response (ok r, s) = (ok r, s)
to_response (err e, s) = (err (internal_error e), s)

pub record MessagePage (F : Type 0) : Type 0 where
  pub count : ℕ
  pub total_consumed : ℕ
  pub messages : List (ConsumedMessage F)

pub record HealthReport : Type 0 where
  pub status : String
  pub broker : BrokerStatus
  pub running : Bool
  pub consumed_count : ℕ
  pub sent_count : ℕ

pub record KafkaHealth : Type 0 where
  pub broker : BrokerStatus
  pub cluster : ClusterInfo
  pub consumer_lag : LagInfo

pub record Metrics : Type 0 where
  pub sent_count : ℕ
  pub consumed_count : ℕ
  pub is_running : Bool
  pub stored_messages : ℕ
  pub consumer_lag : LagInfo

module _ {F : Type 0} where
  -- `POST /messages`
  unfoldable pub send_message :
      FloatCodec F
      → Str
      → String
      → Str
      → Outcome
      → MessageRequest F
      → Sending
      → Result HttpError SendResult × Sending
  send_message codec app_name default_topic timestamp outcome request s = to_response (
      Producer.send_message codec app_name timestamp outcome (topic_or request.topic default_topic)
        request.value request.key s)

  -- `GET /messages`
  unfoldable pub get_messages : ℤ → ConsumerService F → MessagePage F
  get_messages limit c =
      let messages = last_entries limit c.messages in
      record { count = length messages; total_consumed = c.consumed_count; messages = messages }

  -- `GET /health`
  unfoldable pub health_check : BrokerStatus → ConsumerService F → ProducerService → HealthReport
  health_check broker c p = record {
    status = if broker.connected then "healthy" else "unhealthy";
    broker = broker;
    running = c.is_running;
    consumed_count = c.consumed_count;
    sent_count = p.sent_count;
  }

  -- `GET /metrics`
  unfoldable pub get_metrics : LagInfo → ConsumerService F → ProducerService → Metrics
  get_metrics lag c p = record {
    sent_count = p.sent_count;
    consumed_count = c.consumed_count;
    is_running = c.is_running;
    stored_messages = length c.messages;
    consumer_lag = lag;
  }

-- `GET /health/kafka`
unfoldable pub kafka_health : BrokerStatus → ClusterInfo → LagInfo → KafkaHealth
kafka_health broker info lag = record { broker = broker; cluster = info; consumer_lag = lag }
