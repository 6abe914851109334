-- ===== src/MultiService/QueryService/Replay.antt =====
-- The read model is what a replay of the event log gives, order by order.
use fastapi_kafka_guide.Prelude.{
  String, ◌≡◌, ◌≢◌, refl, sym, ap, ◌∙◌, inl, inr, Option, none, some, List, [], ◌∷◌, ◌++◌, arith,
  ◌==◌, eq_iff, if◌then◌else◌, Bool-cases, get_or,
}
use fastapi_kafka_guide.Prelude.Dict
use fastapi_kafka_guide.Prelude.Dict.{Dict}
use fastapi_kafka_guide.Saga.Events.{Floats}
use fastapi_kafka_guide.MultiService.Events.{Topic, Event}
use fastapi_kafka_guide.MultiService.QueryService.{
  View, LogEntry, ReadModel, apply_event, written, process_event, process_events,
}

module _ {F : Type 0} (float : Floats F) where
  -- One entry of the log, for the view of an order: an entry about another order changes nothing.
  abbrev pub replay_entry : String → LogEntry F → Option (View F) → Option (View F)
  replay_entry i e o =
      if e.order_id == i then apply_event float e.event_type i e.data_ e.timestamp o else o

  -- The log from its start, on the view of an order.
  unfoldable pub replay : String → List (LogEntry F) → Option (View F) → Option (View F)
  replay i [] o = o
  replay i (e ∷ log) o = replay i log (replay_entry i e o)

  -- Each order's view is the replay of the log.
  abbrev pub IsReplayed : ReadModel F → Type 0
  IsReplayed s = (i : String) → i ≢ "" → Dict.get s.orders_read_model i ≡ replay i s.event_log none

  replay-append :
      (i : String) (log more : List (LogEntry F)) (o : Option (View F))
      → replay i (log ++ more) o ≡ replay i more (replay i log o)
  unfolding replay
  replay-append i [] more o = refl
  replay-append i (e ∷ log) more o = replay-append i log more (replay_entry i e o)

  -- Only the view of the order is written.
  get-written :
      (i j : String) (o : Option (View F)) (d : Dict (View F))
      → (o ≡ none → Dict.get d i ≡ none)
      → Dict.get (written i o d) j ≡ (if i == j then o else Dict.get d j)
  get-written i j none d h = elim (Bool-cases (i == j)) [
    | inl same ↦ rw same (ap (Dict.get d) (sym ((eq_iff i j).0 same)) ∙ h refl)
    | inr other ↦ rw other refl
  ]
  get-written i j (some v) d h = Dict.get-put d i j v

  -- A view that is there is never taken away.
  apply_event-none :
      (k : _) (i : String) (e : Event F) (t : String) (o : Option (View F))
      → apply_event float k i e t o ≡ none
      → o ≡ none
  unfolding apply_event
  apply_event-none k i e t o h = ground arith

  -- What the event makes of the stored view is what its entry makes of the replayed one.
  same_entry :
      (j i : String) (f : String → Option (View F) → Option (View F)) (d : Dict (View F))
      (o : Option (View F))
      → Dict.get d i ≡ o
      → (if j == i then f j (Dict.get d j) else Dict.get d i) ≡ (if j == i then f i o else o)
  same_entry j i f d o h = elim (Bool-cases (j == i)) [
    | inl same ↦ rw same (ap (λ x. f x (Dict.get d x)) ((eq_iff j i).0 same) ∙ ap (f i) h)
    | inr other ↦ rw other h
  ]

  skipped : (i j : String) → j ≢ i → (a b : Option (View F)) → (if j == i then a else b) ≡ b
  skipped i j ne a b = elim (Bool-cases (j == i)) [
    | inl same ↦ absurd (ne ((eq_iff j i).0 same))
    | inr other ↦ rw other refl
  ]

  -- One event of any type and topic, about any order or none.
  process_event-IsReplayed :
      (now : String) (event : Event F) (topic : Topic) (s : ReadModel F)
      → IsReplayed s
      → IsReplayed (process_event float now event topic s)
  unfolding process_event replay
  process_event-IsReplayed now event topic s h i named =
      let j = get_or event.order_id "" in
      let t = get_or event.timestamp now in
      let d = s.orders_read_model in
      let v = apply_event float event.event_type j event t (Dict.get d j) in
      elim (Bool-cases (j == "")) [
        | inl unnamed ↦
            rw (unnamed, replay-append)
              (h i named
                ∙ sym (skipped i j (λ same. named (sym same ∙ (eq_iff j "").0 unnamed)) _ _))
        | inr other ↦
            rw (other, replay-append)
              (get-written j i v d (apply_event-none event.event_type j event t (Dict.get d j))
                ∙ same_entry j i (λ o. apply_event float event.event_type o event t) d
                    (replay i s.event_log none) (h i named))
      ]

  -- After any events, of any types and topics and about any orders or none, the view of each order is
  -- the replay of the event log, if it was before.
  pub process_events-IsReplayed :
      (messages : List (String × Event F × Topic)) (s : ReadModel F)
      → IsReplayed s
      → IsReplayed (process_events float messages s)
  unfolding process_events
  process_events-IsReplayed [] s h = h
  process_events-IsReplayed ((now, event, topic) ∷ messages) s h =
      process_events-IsReplayed messages (process_event float now event topic s)
        (process_event-IsReplayed now event topic s h)
