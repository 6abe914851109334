-- ===== src/Outbox/EndToEnd.antt =====
-- From the request to the consumer's business logic.
use fastapi_kafka_guide.Prelude.{
  ℕ, ◌+◌, String, ◌≡◌, refl, sym, ap, subst, ◌∙◌, inl, inr, true, Option, none, some, List, [], ◌∷◌,
  ◌++◌, arith, is_some, In, All, All-In, Bool-cases, ok, eq_refl,
}
use fastapi_kafka_guide.Prelude.Dict
use fastapi_kafka_guide.Prelude.Dict.{Dict}
use fastapi_kafka_guide.Outbox.Database.{Decimals, Order, OutboxEvent, pending}
use fastapi_kafka_guide.Outbox.Orders.{OrderPayload}
use fastapi_kafka_guide.Outbox.Orders.Atomic.{Describes, Paired}
use fastapi_kafka_guide.Outbox.Relay.{KafkaRecord, Relay, record_of}
use fastapi_kafka_guide.Outbox.Relay.Delivery.{IsDelivered}
use fastapi_kafka_guide.Outbox.History.{IsSound}
use fastapi_kafka_guide.Outbox.Consumer.{
  continue, answered, Message, ConsumerState, header_dict, has, mark_processed, consume_event,
  consume_message, consume_messages,
}
use fastapi_kafka_guide.Outbox.Consumer.Once.{has-append}

abbrev pub decoded : List (String × String) → List (String × Option String)
decoded [] = []
decoded ((k, v) ∷ headers) = (k, some v) ∷ decoded headers

-- What the consumer reads of Kafka's records, where every INSERT is answered.
abbrev pub message_of : ℕ → KafkaRecord OrderPayload → Message
message_of offset r = record {
  offset = offset;
  headers = decoded r.headers;
  is_dict = true;
  insert = answered;
}

abbrev pub messages_of : ℕ → List (KafkaRecord OrderPayload) → List Message
messages_of offset [] = []
messages_of offset (r ∷ log) = message_of offset r ∷ messages_of (offset + 1) log

abbrev pub dict_of : Dict String → List (String × String) → Dict String
dict_of d [] = d
dict_of d ((k, v) ∷ headers) = dict_of (Dict.put d k v) headers

-- The event id that a record carries.
abbrev pub event_id_of : KafkaRecord OrderPayload → Option String
event_id_of r = Dict.get (dict_of [] r.headers) "event_id"

header_dict-decoded :
    (d : Dict String) (headers : List (String × String))
    → header_dict d (decoded headers) ≡ some (dict_of d headers)
unfolding header_dict
header_dict-decoded d [] = refl
header_dict-decoded d ((k, v) ∷ headers) = header_dict-decoded (Dict.put d k v) headers

-- The event of a row, as the consumer finds it in the headers.
event_id_of-record_of :
    (decimal : Decimals) (o : Order) (e : OutboxEvent OrderPayload)
    → Describes decimal o e
    → event_id_of (record_of e) ≡ some e.event_id
unfolding record_of Dict.get Dict.put
event_id_of-record_of decimal o e h = rw h.headers

-- The second state has processed what the first has.
abbrev pub Grows : ConsumerState → ConsumerState → Type 0
Grows s s' = (x : String) → has x s.processed_events ≡ true → has x s'.processed_events ≡ true

-- The state has processed this event, if there is one.
abbrev pub IsProcessed : Option String → ConsumerState → Type 0
IsProcessed none s = Unit
IsProcessed (some e) s = has e s.processed_events ≡ true

event_consumed :
    (offset : ℕ) (r : KafkaRecord OrderPayload) (o : Option String) (s : ConsumerState)
    → (s' : ConsumerState) × (consume_event (message_of offset r) o s ≡ (ok tt, s'))
      × Grows s s'
      × IsProcessed o s'
unfolding consume_event mark_processed
event_consumed offset r none s = (s, refl, (λ x h. h), tt)
event_consumed offset r (some e) s = elim (Bool-cases (has e s.processed_events)) [
  | inl seen ↦ (s, rw seen refl, (λ x h. h), seen)
  | inr new ↦ (
    record s { processed_events = s.processed_events ++ e ∷ []; handled = s.handled ++ e ∷ [] },
    rw new refl,
    (λ x h. ground (arith, has-append x s.processed_events (e ∷ []))),
    ground (arith, has-append e s.processed_events (e ∷ []), eq_refl e),
  )
]

message_consumed :
    (offset : ℕ) (r : KafkaRecord OrderPayload) (s : ConsumerState)
    → (s' : ConsumerState) × (consume_message (message_of offset r) s ≡ (ok tt, s'))
      × Grows s s'
      × IsProcessed (event_id_of r) s'
unfolding consume_message
message_consumed offset r s =
    let (s', ends, grows, there) = event_consumed offset r (event_id_of r) s in
    (s', rw (header_dict-decoded [] r.headers) ends, grows, there)

IsProcessed-Grows :
    (o : Option String) (s s' : ConsumerState) → Grows s s' → IsProcessed o s → IsProcessed o s'
IsProcessed-Grows none s s' grows h = tt
IsProcessed-Grows (some e) s s' grows h = grows e h

log_consumed :
    (offset : ℕ) (log : List (KafkaRecord OrderPayload)) (s : ConsumerState)
    → (s' : ConsumerState) × (consume_messages (messages_of offset log) s ≡ (ok tt, s'))
      × Grows s s'
      × All (λ r. IsProcessed (event_id_of r) s') log
unfolding consume_messages
log_consumed offset [] s = (s, refl, (λ x h. h), tt)
log_consumed offset (r ∷ log) s =
    let (t, first, grows, there) = message_consumed offset r s in
    let (s', ends, more, all) = log_consumed (offset + 1) log t in
    (
      s',
      ap (continue (consume_messages (messages_of (offset + 1) log))) first ∙ ends,
      (λ x h. more x (grows x h)),
      (IsProcessed-Grows (event_id_of r) t s' more there, all),
    )

pending-none :
    (e : OutboxEvent OrderPayload) (rows : List (OutboxEvent OrderPayload))
    → pending rows ≡ []
    → In e rows
    → is_some e.published_at ≡ true
unfolding pending
pending-none e [] h i = absurd i
pending-none e (r ∷ rows) h (inl same) = rw same (ground arith)
pending-none e (r ∷ rows) h (inr i) = pending-none e rows (ground arith) i

event_of :
    (decimal : Decimals) (o : Order) (os : List Order) (es : List (OutboxEvent OrderPayload))
    → Paired decimal os es
    → In o os
    → (e : OutboxEvent OrderPayload) × In e es × Describes decimal o e
event_of decimal o [] es h i = absurd i
event_of decimal o (x ∷ os) [] h i = absurd h
event_of decimal o (x ∷ os) (e ∷ es) h (inl same) =
    (e, inl refl, subst (λ (y : Order). Describes decimal y e) (sym same) h.0)
event_of decimal o (x ∷ os) (e ∷ es) h (inr i) =
    let (f, j, d) = event_of decimal o os es h.1 i in (f, inr j, d)

-- In a sound state with no row pending, a consumer that reads the whole log, while every INSERT is answered,
-- comes to its end without an error, and its table `processed_events` then holds, for each order, the id of
-- an event that stands in the outbox and tells of that order (its total as the column rounds it).
pub every_order_processed :
    (decimal : Decimals) (s : Relay OrderPayload) (c : ConsumerState) (o : Order)
    → IsSound decimal s
    → pending s.db.outbox ≡ []
    → In o s.db.orders
    → (e : OutboxEvent OrderPayload) × (c' : ConsumerState) × In e s.db.outbox
      × Describes decimal o e
      × (consume_messages (messages_of 0 s.log) c ≡ (ok tt, c'))
      × (has e.event_id c'.processed_events ≡ true)
every_order_processed decimal s c o h none_left i =
    let (e, j, d) = event_of decimal o s.db.orders s.db.outbox h.valid.paired i in
    let sent =
      All-In (IsDelivered s.log) e s.db.outbox h.delivered j
        (pending-none e s.db.outbox none_left j) in
    let (c', ends, _, all) = log_consumed 0 s.log c in
    let there = All-In (λ r. IsProcessed (event_id_of r) c') (record_of e) s.log all sent in
    (e, c', j, d, ends, subst (λ x. IsProcessed x c') (event_id_of-record_of decimal o e d) there)
