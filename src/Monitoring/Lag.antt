-- ===== src/Monitoring/Lag.antt =====
-- What the lag report says.
use fastapi_kafka_guide.Prelude.{
  ℕ, ◌≤◌, String, ◌≡◌, refl, ◌∙◌, Option, none, some, List, [], ◌∷◌, ◌++◌, append-nil, append_assoc,
  get_or, All, ok, err,
}
use fastapi_kafka_guide.Prelude.Int.{ℤ, pos, ◌+ℤ◌, ◌≤ℤ◌, int_laws}
use fastapi_kafka_guide.Monitoring.HealthChecker.{
  TopicPartition, PartitionLag, Assigned, partition_lag, lag_loop, get_consumer_lag,
}

-- A partition whose offsets could be read.
abbrev pub Reading : Type 0
Reading = TopicPartition × ℕ × Option ℕ

abbrev pub read_all : List Reading → List Assigned
read_all [] = []
read_all ((tp, end_offset, committed) ∷ rest) = (tp, ok (end_offset, committed)) ∷ read_all rest

abbrev pub lags : List Reading → List PartitionLag
lags [] = []
lags ((tp, end_offset, committed) ∷ rest) = partition_lag tp end_offset committed ∷ lags rest

abbrev pub sum_lags : ℤ → List PartitionLag → ℤ
sum_lags total [] = total
sum_lags total (p ∷ ps) = sum_lags (total +ℤ p.lag) ps

lag_loop-read :
    (readings : List Reading) (rest : List Assigned) (total : ℤ) (before : List PartitionLag)
    → lag_loop (read_all readings ++ rest) total before
      ≡ lag_loop rest (sum_lags total (lags readings)) (before ++ lags readings)
unfolding lag_loop
lag_loop-read [] rest total before = rw append-nil refl
lag_loop-read ((tp, end_offset, committed) ∷ readings) rest total before =
    lag_loop-read readings rest _ _
    ∙ rw (append_assoc before (partition_lag tp end_offset committed ∷ []) (lags readings)) refl

-- When nothing raises, the report lists the lag of each assigned partition, in the order of the
-- assignment, and their sum as the total. When reading a partition's offsets raises, the report lists
-- the partitions before it, has the error, and has no total.
pub get_consumer_lag-reports :
    (group : String) (readings : List Reading) (tp : TopicPartition) (e : String)
    (rest : List Assigned)
    → (get_consumer_lag group (ok tt) (read_all readings) (ok tt) ≡ record {
      group_id = group;
      partitions = lags readings;
      total_lag = some (sum_lags (pos 0) (lags readings));
      error = none;
    })
      × (get_consumer_lag group (ok tt) (read_all readings ++ (tp, err e) ∷ rest) (ok tt) ≡ record {
        group_id = group;
        partitions = lags readings;
        total_lag = none;
        error = some e;
      })
unfolding get_consumer_lag lag_loop
get_consumer_lag-reports group readings tp e rest =
    let whole = lag_loop-read readings [] (pos 0) [] in
    let whole' : lag_loop (read_all readings) (pos 0) []
        ≡ (ok (sum_lags (pos 0) (lags readings)), lags readings) =
      rw append-nil at whole in
    (rw whole' refl, rw (lag_loop-read readings ((tp, err e) ∷ rest) (pos 0) []) refl)

-- No reading has committed more than the partition's end.
abbrev pub NotAhead : Reading → Type 0
NotAhead (tp, end_offset, committed) = get_or committed 0 ≤ end_offset

sum_lags-nonneg :
    (readings : List Reading) (total : ℤ)
    → All NotAhead readings
    → pos 0 ≤ℤ total
    → pos 0 ≤ℤ sum_lags total (lags readings)
sum_lags-nonneg [] total h t = t
sum_lags-nonneg ((tp, end_offset, committed) ∷ readings) total h t =
    sum_lags-nonneg readings _ h.1 (omega (int_laws, h.0))
