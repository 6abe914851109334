-- ===== src/Outbox/Relay.antt =====
-- relay.py: the polling publisher. What Kafka does with each record, which rows other transactions
-- hold, the clock, and whether the commit goes through are the arguments of a poll.
pub mod Delivery
pub mod Progress
use fastapi_kafka_guide.Prelude.{
  ℕ, String, Bool, true, false, ◌&&◌, List, [], ◌∷◌, ◌++◌, eqb, if◌then◌else◌, length, Result, ok,
  err, Exec,
}
use fastapi_kafka_guide.Prelude.Dict.{Dict}
use fastapi_kafka_guide.Messaging.{SendOutcome, acked, refused, unacked}
use fastapi_kafka_guide.Outbox.Database.{OutboxEvent, Database, ids, select_batch, mark_published}

-- What `send_and_wait` is given: the topic, the key, the value and the headers.
pub record KafkaRecord (J : Type 0) : Type 0 where
  pub topic : String
  pub key : String
  pub value : J
  pub headers : List (String × String)

-- The state that a poll changes: the database and the records that Kafka holds.
pub record Relay (J : Type 0) : Type 0 where
  pub db : Database J
  pub log : List (KafkaRecord J)

-- What one poll meets.
pub record Poll (J : Type 0) : Type 0 where
  pub send : KafkaRecord J → SendOutcome
  pub locked : List ℕ
  pub now : ℕ
  pub committed : Bool

-- `published` of one round of `run`: a poll that raises counts as one that published nothing.
abbrev pub published : Result (Unit {0}) ℕ → ℕ
published (ok n) = n
published (err _) = 0

module _ {J : Type 0} where
  -- The record that `_publish` sends for a row.
  unfoldable pub record_of : OutboxEvent J → KafkaRecord J
  record_of row = record {
    topic = row.topic;
    key = row.aggregate_id;
    value = row.payload;
    headers = ("event_id", row.event_id) ∷ ("event_type", row.event_type) ∷ row.headers;
  }

  -- One round of the loop over the rows, before what the rest of the loop gives: a send that raises
  -- leaves the loop.
  abbrev pub after_send :
      SendOutcome → KafkaRecord J → Bool × List (KafkaRecord J) → Bool × List (KafkaRecord J)
  after_send acked sent (done, written) = (done, sent ∷ written)
  after_send refused sent rest = (false, [])
  after_send unacked sent rest = (false, sent ∷ [])

  -- The loop over the rows: whether it came to its end, and the records that Kafka wrote.
  unfoldable pub publish_rows :
      (KafkaRecord J → SendOutcome) → List (OutboxEvent J) → Bool × List (KafkaRecord J)
  publish_rows send [] = (true, [])
  publish_rows send (row ∷ rows) =
      after_send (send (record_of row)) (record_of row) (publish_rows send rows)

  -- The body of `_tick` once the rows are chosen: an exception, or a commit that fails, rolls the
  -- database back; Kafka keeps what it wrote.
  unfoldable pub publish_batch : Poll J → List (OutboxEvent J) → Exec (Relay J) (Unit {0}) ℕ
  publish_batch poll [] s = (ok 0, s)
  publish_batch poll (row ∷ rows) s =
      let (done, written) = publish_rows poll.send (row ∷ rows) in
      if done && poll.committed
      then (
        ok (length (row ∷ rows)),
        record {
          db = record s.db { outbox = mark_published poll.now (ids (row ∷ rows)) s.db.outbox };
          log = s.log ++ written;
        },
      )
      else (err tt, record s { log = s.log ++ written })

  -- `_tick`
  unfoldable pub tick : ℕ → Poll J → Exec (Relay J) (Unit {0}) ℕ
  tick batch poll s = publish_batch poll (select_batch batch poll.locked s.db.outbox) s

  -- `run`: the delays between the polls, in milliseconds, and the state after them. The loop ends when
  -- it is asked to, after the polls of the list.
  unfoldable pub run : ℕ → ℕ → ℕ → List (Poll J) → Relay J → List ℕ × Relay J
  run batch poll_interval idle_backoff [] s = ([], s)
  run batch poll_interval idle_backoff (poll ∷ polls) s =
      let (r, s') = tick batch poll s in
      let (delays, s'') = run batch poll_interval idle_backoff polls s' in
      ((if eqb (published r) 0 then idle_backoff else poll_interval) ∷ delays, s'')
