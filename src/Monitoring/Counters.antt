-- ===== src/Monitoring/Counters.antt =====
-- What the counters and the stored messages show.
use fastapi_kafka_guide.Prelude.{
  ◌+◌, ◌≤◌, ◌≡◌, refl, sym, ap, ◌∙◌, inl, inr, Bool, true, false, none, some, List, [], ◌∷◌, ◌++◌,
  append-nil, append_assoc, arith, ltb, if◌then◌else◌, Bool-cases, Option-cases, length,
}
use fastapi_kafka_guide.Prelude.Windows.{
  keep_last, length-keep_last, keep_last-append, keep_last-all,
}
use fastapi_kafka_guide.Python.Json.Numbers.{FloatCodec}
use fastapi_kafka_guide.Messaging.Clients.{Message}
use fastapi_kafka_guide.Monitoring.Consumer.{
  ConsumerService, ConsumedMessage, consumed, keep_message, consume_loop,
}

module _ {F : Type 0} (codec : FloatCodec F) where
  -- The messages that are consumed: those before the first that raises.
  unfoldable pub consumed_prefix : List Message → List (ConsumedMessage F)
  consumed_prefix [] = []
  consumed_prefix (msg ∷ messages) = elim (consumed codec msg) [
    | none ↦ []
    | some m ↦ m ∷ consumed_prefix messages
  ]

  unfoldable pub fails : List Message → Bool
  fails [] = false
  fails (msg ∷ messages) = elim (consumed codec msg) [ none ↦ true | some m ↦ fails messages ]

  stored-keep_message :
      (m : ConsumedMessage F) (c : ConsumerService F)
      → (keep_message m c).messages ≡ keep_last 100 (c.messages ++ m ∷ [])
  unfolding keep_message
  stored-keep_message m c = elim (Bool-cases (ltb 100 (length (c.messages ++ m ∷ [])))) [
    | inl over ↦ rw over refl
    | inr fits ↦ rw fits (sym (keep_last-all 100 (c.messages ++ m ∷ []) (ground arith)))
  ]

  -- From at most 100 stored messages, the loop ends with the last 100 of these and of the consumed
  -- messages, which are those before the first that raises, in their order; it has counted each of them;
  -- and the consumer counts as running as before, unless a message raises.
  pub consume_loop-stores :
      (messages : List Message) (c : ConsumerService F)
      → length c.messages ≤ 100
      → ((consume_loop codec messages c).messages
          ≡ keep_last 100 (c.messages ++ consumed_prefix messages))
        × ((consume_loop codec messages c).consumed_count
            ≡ c.consumed_count + length (consumed_prefix messages))
        × ((consume_loop codec messages c).is_running
            ≡ (if fails messages then false else c.is_running))
  unfolding consume_loop consumed_prefix fails
  consume_loop-stores [] c h =
      (rw append-nil (sym (keep_last-all 100 c.messages h)), omega arith, refl)
  consume_loop-stores (msg ∷ messages) c h = elim (Option-cases (consumed codec msg)) [
    | inl n ↦
        rw (consume_loop, consumed_prefix, fails, n)
          (rw append-nil (sym (keep_last-all 100 c.messages h)), omega arith, refl)
    | inr (m, o) ↦
        let c' = keep_message m c in
        let kept = stored-keep_message m c in
        let bounded : length c'.messages ≤ 100 =
          rw kept (length-keep_last 100 (c.messages ++ m ∷ [])) in
        let (stored, count, running) = consume_loop-stores messages c' bounded in
        rw (consume_loop, consumed_prefix, fails, o)
          (
            stored
                ∙ (ap (λ xs. keep_last 100 (xs ++ consumed_prefix messages)) kept
                    ∙ (keep_last-append 100 (c.messages ++ m ∷ []) (consumed_prefix messages)
                        ∙ ap (keep_last 100)
                            (append_assoc c.messages (m ∷ []) (consumed_prefix messages)))),
            count ∙ (unfold keep_message in omega arith),
            running ∙ (unfold keep_message in refl),
          )
  ]
