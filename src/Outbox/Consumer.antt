-- ===== src/Outbox/Consumer.antt =====
-- consumer.py: the downstream consumer, which drops the events that it has already processed. An exception
-- leaves `consume`.
pub mod Once
use fastapi_kafka_guide.Prelude.{
  ℕ, ◌+◌, String, Bool, true, false, not, ◌||◌, Option, none, some, List, [], ◌∷◌, ◌++◌,
  if◌then◌else◌, ◌==◌, Result, ok, err, Exec,
}
use fastapi_kafka_guide.Prelude.Dict
use fastapi_kafka_guide.Prelude.Dict.{Dict}

-- How the INSERT of an event ends: it is answered, or it raises, with or without the row being written.
pub data Insert : Type 0 where
  answered refused unanswered : Insert

-- A record as `getmany` returns it: its offset, its headers (`none` for bytes that are no UTF-8) and whether
-- its value is a dict; and how the INSERT of its event ends.
pub record Message : Type 0 where
  pub offset : ℕ
  pub headers : List (String × Option String)
  pub is_dict : Bool
  pub insert : Insert

-- The messages of one partition in a batch, and whether the commit of its offset raises.
pub record Partition : Type 0 where
  pub tp : String
  pub messages : List Message
  pub commit_fails : Bool

pub data ConsumeError : Type 0 where
  fetch_failed bad_header insert_failed no_dict commit_failed : ConsumeError

-- The table `processed_events`, the events that the business logic has seen, and the offsets that were
-- committed, each with its partition.
pub record ConsumerState : Type 0 where
  pub processed_events : List String
  pub handled : List String
  pub commits : List (String × ℕ)

-- `{k: v.decode("utf-8") for k, v in (msg.headers or [])}`: of two headers with one key the later wins;
-- `none` is a raised error
unfoldable pub header_dict : Dict String → List (String × Option String) → Option (Dict String)
header_dict d [] = some d
header_dict d ((k, none) ∷ headers) = none
header_dict d ((k, some v) ∷ headers) = header_dict (Dict.put d k v) headers

abbrev pub has : String → List String → Bool
has x [] = false
has x (y ∷ ys) = y == x || has x ys

-- INSERT … ON CONFLICT DO NOTHING
abbrev pub inserted : String → ConsumerState → ConsumerState
inserted event_id s =
    if has event_id s.processed_events
    then s
    else record s { processed_events = s.processed_events ++ event_id ∷ [] }

-- `_mark_processed`: whether the row is new
unfoldable pub mark_processed : Insert → String → Exec ConsumerState ConsumeError Bool
mark_processed answered event_id s =
    (ok (not (has event_id s.processed_events)), inserted event_id s)
mark_processed refused event_id s = (err insert_failed, s)
mark_processed unanswered event_id s = (err insert_failed, inserted event_id s)

-- The business logic, which reads `msg.value.get("order_id")`.
abbrev pub handle : Message → String → Exec ConsumerState ConsumeError (Unit {0})
handle msg event_id s =
    if msg.is_dict
    then (ok tt, record s { handled = s.handled ++ event_id ∷ [] })
    else (err no_dict, s)

-- What follows `_mark_processed`: an event that was seen before is passed over.
abbrev pub after_mark :
    Message
    → String
    → Result ConsumeError Bool × ConsumerState
    → Result ConsumeError (Unit {0}) × ConsumerState
after_mark msg event_id (ok true, s) = handle msg event_id s
after_mark msg event_id (ok false, s) = (ok tt, s)
after_mark msg event_id (err e, s) = (err e, s)

-- The body of the loop once the header is looked up; a message without `event_id` is passed over.
unfoldable pub consume_event : Message → Option String → Exec ConsumerState ConsumeError (Unit {0})
consume_event msg none s = (ok tt, s)
consume_event msg (some event_id) s = after_mark msg event_id (mark_processed msg.insert event_id s)

abbrev pub consume_headers :
    Message → Option (Dict String) → Exec ConsumerState ConsumeError (Unit {0})
consume_headers msg none s = (err bad_header, s)
consume_headers msg (some headers) s = consume_event msg (Dict.get headers "event_id") s

-- One message.
unfoldable pub consume_message : Message → Exec ConsumerState ConsumeError (Unit {0})
consume_message msg s = consume_headers msg (header_dict [] msg.headers) s

-- What follows a step, unless it raised.
abbrev pub continue :
    Exec ConsumerState ConsumeError (Unit {0})
    → Result ConsumeError (Unit {0}) × ConsumerState
    → Result ConsumeError (Unit {0}) × ConsumerState
continue k (ok _, s) = k s
continue k (err e, s) = (err e, s)

unfoldable pub consume_messages : List Message → Exec ConsumerState ConsumeError (Unit {0})
consume_messages [] s = (ok tt, s)
consume_messages (msg ∷ messages) s = continue (consume_messages messages) (consume_message msg s)

-- `messages[-1].offset + 1`
unfoldable pub next_offset : Message → List Message → ℕ
next_offset msg [] = msg.offset + 1
next_offset msg (m ∷ messages) = next_offset m messages

unfoldable pub commit_offset : Partition → List Message → Exec ConsumerState ConsumeError (Unit {0})
commit_offset p [] s = (ok tt, s)
commit_offset p (msg ∷ messages) s =
    if p.commit_fails
    then (err commit_failed, s)
    else (ok tt, record s { commits = s.commits ++ (p.tp, next_offset msg messages) ∷ [] })

-- One partition of a batch: its messages in order, then the commit of its offset, if it had any.
unfoldable pub consume_partition : Partition → Exec ConsumerState ConsumeError (Unit {0})
consume_partition p s = continue (commit_offset p p.messages) (consume_messages p.messages s)

-- The batch that `getmany` returned, partition by partition.
unfoldable pub consume_batch : List Partition → Exec ConsumerState ConsumeError (Unit {0})
consume_batch [] s = (ok tt, s)
consume_batch (p ∷ batch) s = continue (consume_batch batch) (consume_partition p s)

-- The loop of `consume`, on the rounds until the stop is set: each is the batch that `getmany` returned, or
-- `none` if it raised, as it does when a value is no JSON text.
unfoldable pub consume : List (Option (List Partition)) → Exec ConsumerState ConsumeError (Unit {0})
consume [] s = (ok tt, s)
consume (none ∷ rounds) s = (err fetch_failed, s)
consume (some batch ∷ rounds) s = continue (consume rounds) (consume_batch batch s)
