-- ===== src/Serialization/Memory.antt =====
-- What the consumer holds in memory.
use fastapi_kafka_guide.Prelude.{
  ℕ, ◌-◌, ◌≤◌, ◌≡◌, refl, sym, ap, ◌∙◌, inl, inr, Bool, true, false, none, some, List, [], ◌∷◌,
  ◌++◌, append-nil, append_assoc, arith, ltb, Bool-cases, Option-cases, length, length-append,
}
use fastapi_kafka_guide.Prelude.Windows.{
  keep_last, length-keep_last, keep_last-append, keep_last-all,
}
use fastapi_kafka_guide.Python.Utf8.{Str}
use fastapi_kafka_guide.Python.Json.Numbers.{FloatCodec}
use fastapi_kafka_guide.Serialization.Events.{Pydantic}
use fastapi_kafka_guide.Serialization.Consumer.{
  Message, EventRecord, Consumed, max_events, event_type_of, remember, convert, event_record,
  consume_message, consume_messages,
}

remember-keep_last :
    {A : Type 0} (most : ℕ) (events : List A) (e : A)
    → length events ≤ most
    → remember most events e ≡ keep_last most (events ++ e ∷ [])
unfolding remember
remember-keep_last most events e h =
    let len = length-append events (e ∷ []) in
    elim (Bool-cases (ltb most (length (events ++ e ∷ [])))) [
      | inl over ↦
          let one : length (events ++ e ∷ []) - most ≡ 1 = ground arith in rw (over, one) refl
      | inr fits ↦ rw fits (sym (keep_last-all most (events ++ e ∷ []) (ground arith)))
    ]

module _ {F D : Type 0} (codec : FloatCodec F) (py : Pydantic F D) where
  -- The records of the messages up to the first that raises.
  unfoldable pub recorded : List (Message × Str × D) → List (EventRecord F)
  recorded [] = []
  recorded ((msg, fresh, now) ∷ messages) = elim (event_record codec msg) [
    | none ↦ []
    | some e ↦ e ∷ recorded messages
  ]

  -- Whether one of the messages raises.
  unfoldable pub raises : List (Message × Str × D) → Bool
  raises [] = false
  raises ((msg, fresh, now) ∷ messages) = elim (event_record codec msg) [
    | none ↦ true
    | some e ↦ raises messages
  ]

  after :
      (e : EventRecord F) (xs ys : List (EventRecord F))
      → length xs ≤ max_events
      → keep_last max_events (remember max_events xs e ++ ys) ≡ keep_last max_events (xs ++ e ∷ ys)
  after e xs ys h =
      ap (λ zs. keep_last max_events (zs ++ ys)) (remember-keep_last max_events xs e h)
      ∙ keep_last-append max_events (xs ++ e ∷ []) ys
      ∙ ap (keep_last max_events) (append_assoc xs (e ∷ []) ys)

  -- From a memory of at most 1000 events, whatever messages arrive, the consumer ends with the last 1000
  -- of the old events followed by those of the messages up to the first that raises, in their order, and
  -- it was ended by an error exactly when a message raises.
  pub consume_messages-keeps :
      (messages : List (Message × Str × D)) (s : Consumed F D)
      → length s.consumed_events ≤ max_events
      → ((consume_messages codec py messages s).1.consumed_events
          ≡ keep_last max_events (s.consumed_events ++ recorded messages))
        × ((consume_messages codec py messages s).0 ≡ raises messages)
  unfolding consume_messages consume_message recorded raises
  consume_messages-keeps [] s h =
      (rw append-nil (sym (keep_last-all max_events s.consumed_events h)), refl)
  consume_messages-keeps ((msg, fresh, now) ∷ messages) s h =
      elim (Option-cases (event_record codec msg)) [
        | inl n ↦
            rw (consume_messages, recorded, raises, n)
              (rw append-nil (sym (keep_last-all max_events s.consumed_events h)), refl)
        | inr (e, o) ↦
            let s' : Consumed F D = record {
              consumed_events = remember max_events s.consumed_events e;
              conversions =
                  s.conversions ++ convert py fresh now (event_type_of e.headers) e.value ∷ [];
            } in
            let kept = remember-keep_last max_events s.consumed_events e h in
            let bounded : length s'.consumed_events ≤ max_events =
              rw kept (length-keep_last max_events (s.consumed_events ++ e ∷ [])) in
            let rest = consume_messages-keeps messages s' bounded in
            rw (consume_messages, recorded, raises, o)
              (rest.0 ∙ after e s.consumed_events (recorded messages) h, rest.1)
      ]
