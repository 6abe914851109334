-- ===== src/FirstServices/Partitions.antt =====
-- app/main.py and schemas.py of 04-topics-and-partitions: orders with their place, consumed orders, topics.
use fastapi_kafka_guide.Prelude.{
  ℕ, String, Bool, false, ◌&&◌, not, Option, none, some, List, [], ◌∷◌, ◌++◌, ltb, eqb,
  if◌then◌else◌, length, Result, ok, err,
}
use fastapi_kafka_guide.Prelude.Int.{ℤ, pos, negsuc}
use fastapi_kafka_guide.Messaging.Clients.{
  Sent, Outcome, acked, refused, unacked, Message, key_bytes, key_text, sent_record,
}
use fastapi_kafka_guide.Python.Utf8.{Str, text}
use fastapi_kafka_guide.Python.Json.Numbers.{FloatCodec}
use fastapi_kafka_guide.Python.Json.Values.{
  Value, Fields, null, bool, int, float, str, array, object, no_fields, field,
}
use fastapi_kafka_guide.Python.Json.Parser.{Parsed, parsed, malformed, out_of_fuel}
use fastapi_kafka_guide.Python.Json.Bytes.{to_bytes, from_bytes}

pub record OrderRequest (F : Type 0) : Type 0 where
  pub order_id : Str
  pub product : Str
  pub quantity : ℤ
  pub price : F

pub record OrderResponse : Type 0 where
  pub status : String
  pub order_id : Str
  pub topic : String
  pub partition : ℕ
  pub offset : ℕ

-- A body that pydantic refuses, the 503 without a producer, and an exception of the send, which the
-- handler does not catch.
pub data OrderError : Type 0 where
  invalid not_ready send_failed : OrderError

unfoldable pub at_least_one : ℤ → Bool
at_least_one (pos n) = ltb 0 n
at_least_one (negsuc n) = false

module _ {F : Type 0} where
  -- `quantity` is at least 1 and `price`, by the test of the floats, is over 0.
  unfoldable pub is_valid_order : (F → Bool) → OrderRequest F → Bool
  is_valid_order is_positive order = at_least_one order.quantity && is_positive order.price

  -- `order.model_dump()`
  abbrev pub model_dump : OrderRequest F → Fields F
  model_dump order = field (text "order_id") (str order.order_id) (
      field (text "product") (str order.product) (
        field (text "quantity") (int order.quantity)
          (field (text "price") (float order.price) no_fields)))

  abbrev pub order_record : FloatCodec F → String → OrderRequest F → Option Sent
  order_record codec topic order =
      sent_record topic (key_bytes (some order.order_id))
        (to_bytes codec (object (model_dump order)))

abbrev pub deliver : Outcome → Str → Sent → List Sent → Result OrderError OrderResponse × List Sent
deliver (acked partition offset) order_id r log = (
  ok (record {
    status = "success";
    order_id = order_id;
    topic = r.topic;
    partition = partition;
    offset = offset;
  }),
  log ++ r ∷ [],
)
deliver refused order_id r log = (err send_failed, log)
deliver unacked order_id r log = (err send_failed, log ++ r ∷ [])

abbrev pub deliver_record :
    Outcome → Str → Option Sent → List Sent → Result OrderError OrderResponse × List Sent
deliver_record outcome order_id none log = (err send_failed, log)
deliver_record outcome order_id (some r) log = deliver outcome order_id r log

module _ {F : Type 0} (codec : FloatCodec F) where
  -- `POST /orders`
  unfoldable pub create_order :
      (F → Bool)
      → Bool
      → String
      → Outcome
      → OrderRequest F
      → List Sent
      → Result OrderError OrderResponse × List Sent
  create_order is_positive ready topic outcome order log =
      let sent = deliver_record outcome order.order_id (order_record codec topic order) log in
      if not (is_valid_order is_positive order)
      then (err invalid, log)
      else if not ready
      then (err not_ready, log)
      else sent

pub record ConsumedMessage (F : Type 0) : Type 0 where
  pub topic : String
  pub partition : ℕ
  pub offset : ℕ
  pub key : Option Str
  pub value : Fields F

module _ {F : Type 0} where
  -- `value: dict`, on which pydantic insists.
  abbrev pub dict_of : Parsed (Value F) → Option (Fields F)
  dict_of (parsed null) = none
  dict_of (parsed (bool b)) = none
  dict_of (parsed (int i)) = none
  dict_of (parsed (float x)) = none
  dict_of (parsed (str s)) = none
  dict_of (parsed (array xs)) = none
  dict_of (parsed (object fs)) = some fs
  dict_of malformed = none
  dict_of out_of_fuel = none

  abbrev pub consumed_of :
      Message → Option (Fields F) → Option (Option Str) → Option (ConsumedMessage F)
  consumed_of msg (some value) (some key) = some (record {
    topic = msg.topic;
    partition = msg.partition;
    offset = msg.offset;
    key = key;
    value = value;
  })
  consumed_of msg _ _ = none

  unfoldable pub consumed : FloatCodec F → Message → Option (ConsumedMessage F)
  consumed codec msg = consumed_of msg (dict_of (from_bytes codec msg.value)) (key_text msg.key)

  -- `consume_loop` up to where the task is cancelled: any other exception ends it.
  unfoldable pub consume_loop :
      FloatCodec F → List Message → List (ConsumedMessage F) → List (ConsumedMessage F)
  consume_loop codec [] stored = stored
  consume_loop codec (msg ∷ messages) stored = elim (consumed codec msg) [
    | none ↦ stored
    | some m ↦ consume_loop codec messages (stored ++ m ∷ [])
  ]

-- The entries of `describe_topics`.
pub record PartitionMeta : Type 0 where
  pub partition : ℕ
  pub leader : ℤ
  pub replicas : List ℤ
  pub isr : List ℤ

pub record TopicMeta : Type 0 where
  pub topic : Str
  pub partitions : List PartitionMeta

pub record PartitionInfo : Type 0 where
  pub partition_id : ℕ
  pub leader : ℤ
  pub replicas : List ℤ
  pub isr : List ℤ

pub record TopicInfo : Type 0 where
  pub topic : Str
  pub num_partitions : ℕ
  pub partitions : List PartitionInfo

abbrev pub partition_info : PartitionMeta → PartitionInfo
partition_info p = record {
  partition_id = p.partition;
  leader = p.leader;
  replicas = p.replicas;
  isr = p.isr;
}

-- `topic_name.startswith("_")`
abbrev pub is_internal : Str → Bool
is_internal [] = false
is_internal (c ∷ s) = eqb c 0x5f

-- The loop over the partitions of a topic.
unfoldable pub add_partitions : List PartitionMeta → List PartitionInfo → List PartitionInfo
add_partitions [] partitions = partitions
add_partitions (p ∷ ps) partitions = add_partitions ps (partitions ++ partition_info p ∷ [])

-- The loop over the topics.
unfoldable pub add_topics : List TopicMeta → List TopicInfo → List TopicInfo
add_topics [] topics = topics
add_topics (t ∷ ts) topics =
    let partitions = add_partitions t.partitions [] in
    let info : TopicInfo = record {
      topic = t.topic;
      num_partitions = length partitions;
      partitions = partitions;
    } in
    let with_it = add_topics ts (topics ++ info ∷ []) in
    let without = add_topics ts topics in if is_internal t.topic then without else with_it

-- The 500 of `get_topic_info`, when the client does not start or does not answer.
pub data InfoError : Type 0 where
  lookup_failed : InfoError

-- `GET /topic-info`, from what `describe_topics` returns; `none` is a raised error.
unfoldable pub get_topic_info : Option (List TopicMeta) → Result InfoError (List TopicInfo)
get_topic_info none = err lookup_failed
get_topic_info (some metadata) = ok (add_topics metadata [])

pub record Health : Type 0 where
  pub status : String
  pub kafka_connected : Bool

-- `GET /health`, from whether the two clients are set.
unfoldable pub health_check : Bool → Bool → Health
health_check producer consumer =
    let kafka_ok = producer && consumer in
    record { status = if kafka_ok then "healthy" else "unhealthy"; kafka_connected = kafka_ok }
