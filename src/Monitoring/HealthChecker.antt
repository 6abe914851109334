-- ===== src/Monitoring/HealthChecker.antt =====
-- app/health.py: `KafkaHealthChecker`, with the answers of aiokafka's clients as arguments: what a call
-- returns, or the text of what it raises.
use fastapi_kafka_guide.Prelude.{
  ℕ, String, Bool, true, false, Option, none, some, List, [], ◌∷◌, ◌++◌, get_or, Result, ok, err,
}
use fastapi_kafka_guide.Prelude.Int.{ℤ, pos, ◌+ℤ◌, ◌-ℤ◌}

pub record BrokerStatus : Type 0 where
  pub connected : Bool
  pub broker : String
  pub error : Option String

pub record TopicPartition : Type 0 where
  pub topic : String
  pub partition : ℕ

pub record PartitionLag : Type 0 where
  pub topic : String
  pub partition : ℕ
  pub end_offset : ℕ
  pub committed_offset : ℕ
  pub lag : ℤ

pub record LagInfo : Type 0 where
  pub group_id : String
  pub partitions : List PartitionLag
  pub total_lag : Option ℤ
  pub error : Option String

-- An assigned partition with its end offset and what the group has committed there, if anything.
abbrev pub Assigned : Type 0
Assigned = TopicPartition × Result String (ℕ × Option ℕ)

pub record Broker : Type 0 where
  pub node_id : ℕ
  pub host : String
  pub port : ℕ

pub record Metadata : Type 0 where
  pub brokers : List Broker
  pub controller_id : ℕ

pub data ClusterInfo : Type 0 where
  cluster : List Broker → ℕ → List String → ClusterInfo
  no_cluster : String → ClusterInfo

abbrev Done : Type 0
Done = Result String (Unit {0})

abbrev status_of : String → Done → BrokerStatus
status_of broker (ok _) = record { connected = true; broker = broker; error = none }
status_of broker (err e) = record { connected = false; broker = broker; error = some e }

-- One call after another: the second is made when the first does not raise.
abbrev pub and_then : Done → Done → Done
and_then (ok _) second = second
and_then (err e) second = err e

-- `finally`: the closing call is made either way, and what it raises takes the place of the outcome.
abbrev pub finally : {A : Type 0} → Result String A → Done → Result String A
finally r (ok _) = r
finally r (err e) = err e

unfoldable pub check_broker_connection : String → Done → Done → BrokerStatus
check_broker_connection broker started closed = status_of broker (and_then started closed)

abbrev pub partition_lag : TopicPartition → ℕ → Option ℕ → PartitionLag
partition_lag tp end_offset committed =
    let committed_offset = get_or committed 0 in
    record {
      topic = tp.topic;
      partition = tp.partition;
      end_offset = end_offset;
      committed_offset = committed_offset;
      lag = pos end_offset -ℤ pos committed_offset;
    }

-- The loop over the assigned partitions: what it has appended, and its total, or what it raised.
unfoldable pub lag_loop :
    List Assigned → ℤ → List PartitionLag → Result String ℤ × List PartitionLag
lag_loop [] total partitions = (ok total, partitions)
lag_loop ((tp, err e) ∷ rest) total partitions = (err e, partitions)
lag_loop ((tp, ok (end_offset, committed)) ∷ rest) total partitions =
    let p = partition_lag tp end_offset committed in
    lag_loop rest (total +ℤ p.lag) (partitions ++ p ∷ [])

abbrev pub lag_info : String → List PartitionLag → Result String ℤ → LagInfo
lag_info group partitions (ok total) = record {
  group_id = group;
  partitions = partitions;
  total_lag = some total;
  error = none;
}
lag_info group partitions (err e) = record {
  group_id = group;
  partitions = partitions;
  total_lag = none;
  error = some e;
}

abbrev pub measured : String → Done → List Assigned → Done → LagInfo
measured group (err e) assigned stopped = lag_info group [] (err e)
measured group (ok _) assigned stopped =
    let (total, partitions) = lag_loop assigned (pos 0) [] in
    lag_info group partitions (finally total stopped)

-- `get_consumer_lag`
unfoldable pub get_consumer_lag : String → Done → List Assigned → Done → LagInfo
get_consumer_lag group started assigned stopped = measured group started assigned stopped

abbrev described : Result String Metadata → Result String (List String) → Result String ClusterInfo
described (err e) topics = err e
described (ok metadata) (err e) = err e
described (ok metadata) (ok topics) = ok (cluster metadata.brokers metadata.controller_id topics)

abbrev cluster_of : Result String ClusterInfo → ClusterInfo
cluster_of (ok info) = info
cluster_of (err e) = no_cluster e

abbrev within : Done → Result String ClusterInfo → Done → Result String ClusterInfo
within (err e) info closed = err e
within (ok _) info closed = finally info closed

-- `get_cluster_info`
unfoldable pub get_cluster_info :
    Done → Result String Metadata → Result String (List String) → Done → ClusterInfo
get_cluster_info started metadata topics closed =
    cluster_of (within started (described metadata topics) closed)
