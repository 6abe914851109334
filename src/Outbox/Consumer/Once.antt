-- ===== src/Outbox/Consumer/Once.antt =====
-- The business logic sees each event at most once, however often Kafka delivers it and whatever raises.
use fastapi_kafka_guide.Prelude.{
  String, ◌≡◌, refl, inl, inr, true, false, ◌||◌, Option, none, some, List, [], ◌∷◌, ◌++◌, arith,
  Bool-cases, Option-cases, All, All-append, Result, ok, err, Exec, eq_iff, eq_refl,
}
use fastapi_kafka_guide.Prelude.Dict
use fastapi_kafka_guide.Prelude.Dict.{Dict}
use fastapi_kafka_guide.Outbox.Consumer.{
  Insert, answered, refused, unanswered, Message, Partition, ConsumeError, ConsumerState,
  header_dict, has, inserted, mark_processed, continue, handle, after_mark, consume_event,
  consume_message, consume_messages, commit_offset, consume_partition, consume_batch, consume,
}

abbrev pub Distinct : List String → Type 0
Distinct [] = Unit
Distinct (x ∷ xs) = (has x xs ≡ false) × Distinct xs

abbrev pub AllRecorded : List String → List String → Type 0
AllRecorded table = All (λ e. has e table ≡ true)

-- The business logic saw no event twice, and only events that the table holds.
pub record IsOnce (s : ConsumerState) : Type 0 where
  pub distinct : Distinct s.handled
  pub recorded : AllRecorded s.processed_events s.handled

pub has-append : (x : String) (xs ys : List String) → has x (xs ++ ys) ≡ (has x xs || has x ys)
has-append x [] ys = refl
has-append x (y ∷ xs) ys = ground (arith, has-append x xs ys)

Distinct-append :
    (x : String) (xs : List String) → Distinct xs → has x xs ≡ false → Distinct (xs ++ x ∷ [])
Distinct-append x [] h n = (refl, tt)
Distinct-append x (y ∷ xs) h n = (
  ground (arith, has-append y xs (x ∷ []), eq_iff y x, eq_iff x y),
  Distinct-append x xs h.1 (ground arith),
)

AllRecorded-more :
    (e : String) (table xs : List String) → AllRecorded table xs → AllRecorded (table ++ e ∷ []) xs
AllRecorded-more e table [] h = tt
AllRecorded-more e table (x ∷ xs) h =
    (ground (arith, h.0, has-append x table (e ∷ [])), AllRecorded-more e table xs h.1)

-- An event that the table lacks was not handled.
not_handled :
    (e : String) (table xs : List String)
    → AllRecorded table xs
    → has e table ≡ false
    → has e xs ≡ false
not_handled e table [] h new = refl
not_handled e table (x ∷ xs) h new = ground (arith, h.0, eq_iff x e, not_handled e table xs h.1 new)

inserted-IsOnce : (e : String) (s : ConsumerState) → IsOnce s → IsOnce (inserted e s)
inserted-IsOnce e s h = elim (Bool-cases (has e s.processed_events)) [
  | inl seen ↦ rw seen h
  | inr new ↦ rw new (record {
    distinct = h.distinct;
    recorded = AllRecorded-more e s.processed_events s.handled h.recorded;
  })
]

handled-IsOnce :
    (msg : Message) (e : String) (s : ConsumerState)
    → IsOnce s
    → has e s.processed_events ≡ true
    → has e s.handled ≡ false
    → IsOnce (handle msg e s).1
handled-IsOnce msg e s h there new = elim (Bool-cases msg.is_dict) [
  | inl fine ↦ rw fine (record {
    distinct = Distinct-append e s.handled h.distinct new;
    recorded = All-append _ s.handled (e ∷ []) h.recorded (there, tt);
  })
  | inr raises ↦ rw raises h
]

after_mark-IsOnce :
    (msg : Message) (insert : Insert) (e : String) (s : ConsumerState)
    → IsOnce s
    → IsOnce (after_mark msg e (mark_processed insert e s)).1
unfolding mark_processed
after_mark-IsOnce msg refused e s h = h
after_mark-IsOnce msg unanswered e s h = inserted-IsOnce e s h
after_mark-IsOnce msg answered e s h = elim (Bool-cases (has e s.processed_events)) [
  | inl seen ↦ rw seen h
  | inr new ↦ rw new (
      handled-IsOnce msg e (record s { processed_events = s.processed_events ++ e ∷ [] })
        (record {
          distinct = h.distinct;
          recorded = AllRecorded-more e s.processed_events s.handled h.recorded;
        })
        (ground (arith, has-append e s.processed_events (e ∷ []), eq_refl e))
        (not_handled e s.processed_events s.handled h.recorded new))
]

consume_event-IsOnce :
    (msg : Message) (o : Option String) (s : ConsumerState)
    → IsOnce s
    → IsOnce (consume_event msg o s).1
unfolding consume_event
consume_event-IsOnce msg none s h = h
consume_event-IsOnce msg (some e) s h = after_mark-IsOnce msg msg.insert e s h

consume_message-IsOnce :
    (msg : Message) (s : ConsumerState) → IsOnce s → IsOnce (consume_message msg s).1
unfolding consume_message
consume_message-IsOnce msg s h = elim (Option-cases (header_dict [] msg.headers)) [
  | inl bad ↦ rw bad h
  | inr (headers, read) ↦ rw read (consume_event-IsOnce msg (Dict.get headers "event_id") s h)
]

continue-IsOnce :
    (k : Exec ConsumerState ConsumeError (Unit {0}))
    (p : Result ConsumeError (Unit {0}) × ConsumerState)
    → IsOnce p.1
    → ((t : ConsumerState) → IsOnce t → IsOnce (k t).1)
    → IsOnce (continue k p).1
continue-IsOnce k (ok _, s) h next = next s h
continue-IsOnce k (err e, s) h next = h

consume_messages-IsOnce :
    (messages : List Message) (s : ConsumerState)
    → IsOnce s
    → IsOnce (consume_messages messages s).1
unfolding consume_messages
consume_messages-IsOnce [] s h = h
consume_messages-IsOnce (msg ∷ messages) s h =
    continue-IsOnce (consume_messages messages) (consume_message msg s)
      (consume_message-IsOnce msg s h) (consume_messages-IsOnce messages)

commit_offset-IsOnce :
    (p : Partition) (messages : List Message) (s : ConsumerState)
    → IsOnce s
    → IsOnce (commit_offset p messages s).1
unfolding commit_offset
commit_offset-IsOnce p [] s h = h
commit_offset-IsOnce p (msg ∷ messages) s h = elim (Bool-cases p.commit_fails) [
  | inl raises ↦ rw raises h
  | inr done ↦ rw done (record { distinct = h.distinct; recorded = h.recorded })
]

consume_batch-IsOnce :
    (batch : List Partition) (s : ConsumerState) → IsOnce s → IsOnce (consume_batch batch s).1
unfolding consume_batch consume_partition
consume_batch-IsOnce [] s h = h
consume_batch-IsOnce (p ∷ batch) s h =
    continue-IsOnce (consume_batch batch) (consume_partition p s)
      (continue-IsOnce (commit_offset p p.messages) (consume_messages p.messages s)
        (consume_messages-IsOnce p.messages s h) (commit_offset-IsOnce p p.messages))
      (consume_batch-IsOnce batch)

-- Through any rounds of the loop with any batches of any messages, repeated or not, and whatever raises on
-- the way, the business logic sees no event twice, and only events that the table `processed_events` holds,
-- if that was so before.
pub consume-IsOnce :
    (rounds : List (Option (List Partition))) (s : ConsumerState)
    → IsOnce s
    → IsOnce (consume rounds s).1
unfolding consume
consume-IsOnce [] s h = h
consume-IsOnce (none ∷ rounds) s h = h
consume-IsOnce (some batch ∷ rounds) s h =
    continue-IsOnce (consume rounds) (consume_batch batch s) (consume_batch-IsOnce batch s h)
      (consume-IsOnce rounds)
