-- ===== src/ConsumerGroups/Consumer.antt =====
-- consumer/app/consumer.py of 05-consumer-groups: the loop that commits by hand, the status and the messages.
use fastapi_kafka_guide.Prelude.{
  ℕ, ◌+◌, String, Bool, true, false, Option, none, some, List, [], ◌∷◌, ◌++◌, leb, if◌then◌else◌,
  length,
}
use fastapi_kafka_guide.Messaging.Clients.{Message, key_text}
use fastapi_kafka_guide.Python.Utf8.{Str}
use fastapi_kafka_guide.Python.Json.Numbers.{FloatCodec}
use fastapi_kafka_guide.Python.Json.Values.{Value}
use fastapi_kafka_guide.Python.Json.Parser.{Parsed, parsed}
use fastapi_kafka_guide.Python.Json.Bytes.{from_bytes}

pub record MessageInfo (F : Type 0) : Type 0 where
  pub consumer_id : String
  pub partition : ℕ
  pub offset : ℕ
  pub key : Option Str
  pub value : Value F
  pub timestamp : ℕ
  pub received_at : Str

-- A message with what its turn of the loop meets: Kafka's timestamp, the clock, whether the commit
-- succeeds, and the partitions that are assigned then.
pub record Turn : Type 0 where
  pub message : Message
  pub timestamp : ℕ
  pub now : Str
  pub commits : Bool
  pub assignment : List ℕ

-- `consumer_status`
pub record Status : Type 0 where
  pub consumer_id : String
  pub assigned_partitions : List ℕ
  pub message_count : ℕ
  pub started_at : Option Str

-- The module's state, with how many messages the client has handed out and how many of them are committed.
pub record Consumer (F : Type 0) : Type 0 where
  pub received_messages : List (MessageInfo F)
  pub consumer_status : Status
  pub is_set : Bool
  pub fetched : ℕ
  pub committed : ℕ

unfoldable pub insert : ℕ → List ℕ → List ℕ
insert x [] = x ∷ []
insert x (y ∷ ys) = let rest = insert x ys in if leb x y then x ∷ y ∷ ys else y ∷ rest

-- `sorted`
unfoldable pub sorted : List ℕ → List ℕ
sorted [] = []
sorted (x ∷ xs) = insert x (sorted xs)

module _ {F : Type 0} where
  abbrev pub new_consumer : String → Consumer F
  new_consumer consumer_id = record {
    received_messages = [];
    consumer_status = record {
      consumer_id = consumer_id;
      assigned_partitions = [];
      message_count = 0;
      started_at = none;
    };
    is_set = false;
    fetched = 0;
    committed = 0;
  }

  -- `start_consumer`, whose `start` may raise.
  unfoldable pub start_consumer : Bool → Str → Consumer F → Bool × Consumer F
  start_consumer connects now c =
      if connects
      then (
        true,
        record c {
          is_set = true;
          consumer_status = record c.consumer_status { started_at = some now };
        },
      )
      else (false, c)

  -- `stop_consumer`
  unfoldable pub stop_consumer : Consumer F → Consumer F
  stop_consumer c = record c { is_set = false }

  abbrev pub info_of :
      String → Turn → Parsed (Value F) → Option (Option Str) → Option (MessageInfo F)
  info_of consumer_id t (parsed value) (some key) = some (record {
    consumer_id = consumer_id;
    partition = t.message.partition;
    offset = t.message.offset;
    key = key;
    value = value;
    timestamp = t.timestamp;
    received_at = t.now;
  })
  info_of consumer_id t _ _ = none

  -- The message after the deserializers of the client, which may raise.
  unfoldable pub received : FloatCodec F → String → Turn → Option (MessageInfo F)
  received codec consumer_id t =
      info_of consumer_id t (from_bytes codec t.message.value) (key_text t.message.key)

  -- The first half of a turn: the message is stored.
  unfoldable pub store : MessageInfo F → Consumer F → Consumer F
  store info c = record c {
    received_messages = c.received_messages ++ info ∷ [];
    fetched = c.fetched + 1;
  }

  -- The second half: `commit` writes the position of the client, and the status follows.
  unfoldable pub commit : List ℕ → Consumer F → Consumer F
  commit assignment c = record c {
    committed = c.fetched;
    consumer_status = record c.consumer_status {
      message_count = length c.received_messages;
      assigned_partitions = sorted assignment;
    };
  }

  -- `consume_loop` up to where the task is cancelled; every other exception is caught and ends it.
  unfoldable pub consume_loop : FloatCodec F → List Turn → Consumer F → Consumer F
  consume_loop codec [] c = c
  consume_loop codec (t ∷ turns) c = elim (received codec c.consumer_status.consumer_id t) [
    | none ↦ c
    | some info ↦ elim t.commits [
      | true ↦ consume_loop codec turns (commit t.assignment (store info c))
      | false ↦ store info c
    ]
  ]

  -- `get_status`: the assignment is read if the consumer is set.
  unfoldable pub get_status : List ℕ → Consumer F → Status × Consumer F
  get_status assignment c =
      let partitions =
        if c.is_set then sorted assignment else c.consumer_status.assigned_partitions in
      let status = record c.consumer_status {
        assigned_partitions = partitions;
        message_count = length c.received_messages;
      } in
      (status, record c { consumer_status = status })

  -- `get_messages`
  unfoldable pub get_messages : Consumer F → List (MessageInfo F)
  get_messages c = c.received_messages
