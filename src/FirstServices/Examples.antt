-- ===== src/FirstServices/Examples.antt =====
-- The theorems at concrete requests and topics.
use fastapi_kafka_guide.Prelude.{ℕ, ◌+◌, ◌≡◌, refl, some, List, [], ◌∷◌, map, ok}
use fastapi_kafka_guide.Prelude.Int.{pos}
use fastapi_kafka_guide.Messaging.Clients.{Sent}
use fastapi_kafka_guide.Python.Utf8.{text}
use fastapi_kafka_guide.Python.Utf8.RoundTrip.{IsText-all_scalar}
use fastapi_kafka_guide.FirstServices.Texts.{
  MessageRequest, message_record, consume_loop, list_messages,
}
use fastapi_kafka_guide.FirstServices.Arrival.{Place, turns_of, all_data, texts_listed}
use fastapi_kafka_guide.FirstServices.Partitions.{TopicMeta, TopicInfo, get_topic_info}
use fastapi_kafka_guide.FirstServices.Topics.{Shows, get_topic_info-Shows}

abbrev hello : List MessageRequest
hello =
    record { topic = "test-topic"; key = some (text "user-1"); value = text "안녕, Kafka!" }
    ∷ record { topic = "test-topic"; key = some []; value = [] }
    ∷ []

abbrev at : ℕ → Place
at j = record {
  partition = 0;
  offset = j;
  timestamp = 1714554000000 + j;
  now = text "2024-05-01T09:00:00+00:00";
}

texts_listed_example :
    (rs : List Sent) × (map some rs ≡ map message_record hello)
    × ((list_messages (consume_loop (turns_of rs at) [])).messages ≡ all_data hello at)
    × ((list_messages (consume_loop (turns_of rs at) [])).count ≡ 2)
texts_listed_example = texts_listed hello at (
  (IsText-all_scalar (text "user-1") refl, IsText-all_scalar (text "안녕, Kafka!") refl),
  ((tt, tt), tt),
)

abbrev metadata : List TopicMeta
metadata =
    record { topic = text "__consumer_offsets"; partitions = [] }
    ∷ record {
      topic = text "orders";
      partitions =
          record { partition = 0; leader = pos 1; replicas = pos 1 ∷ []; isr = pos 1 ∷ [] } ∷ [];
    }
    ∷ []

get_topic_info-Shows_example :
    (topics : List TopicInfo) × (get_topic_info (some metadata) ≡ ok topics) × Shows metadata topics
get_topic_info-Shows_example = get_topic_info-Shows metadata
