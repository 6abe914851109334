-- ===== src/MultiService/PaymentService/Answers.antt =====
-- Each order is answered once, by an event that agrees with what the service has recorded.
use fastapi_kafka_guide.Prelude.{
  ℕ, ◌+◌, String, ◌≡◌, refl, ◌∙◌, Bool, true, false, some, List, [], ◌∷◌, ◌++◌, arith, ltb, length,
  length-append, get_or, All,
}
use fastapi_kafka_guide.Prelude.Dict
use fastapi_kafka_guide.Messaging.{publish, acked}
use fastapi_kafka_guide.Saga.Events.{Floats}
use fastapi_kafka_guide.MultiService.Events.{EventType, Topic, Event, Record}
use fastapi_kafka_guide.MultiService.PaymentService.{
  PaymentRecord, completed, failed, PaymentStore, Env, publish_payment_result, result_event,
  payment_record, process_order, process_orders,
}

-- What an event says of a payment is what the record says.
abbrev pub Agrees : {F : Type 0} → PaymentRecord F → Event F → Type 0
Agrees (completed amount transaction_id) e =
    (e.event_type ≡ EventType.payment_completed)
    × (e.amount ≡ some amount)
    × (e.transaction_id ≡ some transaction_id)
Agrees (failed reason) e = (e.event_type ≡ EventType.payment_failed) × (e.reason ≡ some reason)

module _ {F : Type 0} (float : Floats F) (rate : ℕ) where
  result_event-Agrees :
      (env : Env) (success : Bool) (i : String) (total : F)
      → Agrees (payment_record env success total) (result_event env success i total)
  unfolding payment_record result_event
  result_event-Agrees env true i total = (refl, refl, refl)
  result_event-Agrees env false i total = (refl, refl)

  -- With a producer and an acknowledged send, an event that names an order adds one record to Kafka,
  -- keyed by the order and about it, and that record agrees with the entry which the service then
  -- has for the order: the same verdict, with the amount and the transaction or the reason.
  pub process_order-answers :
      (env : Env) (event : Event F) (i : String) (s : PaymentStore F)
      → event.order_id ≡ some i
      → s.producer ≡ true
      → env.send ≡ acked
      → (r : Record F) × (row : PaymentRecord F) × ((process_order float rate env event s).1.log
          ≡ s.log ++ r ∷ [])
        × (r.topic ≡ Topic.payment_result)
        × (r.key ≡ i)
        × (r.value.order_id ≡ some i)
        × (Dict.get (process_order float rate env event s).1.payment_records i ≡ some row)
        × Agrees row r.value
  unfolding process_order publish_payment_result publish result_event
  process_order-answers env event i s named started sent =
      let total = get_or event.total_price float.zero_amount in
      let success = ltb rate env.draw in
      (
        record { topic = Topic.payment_result; key = i; value = result_event env success i total },
        payment_record env success total,
        rw (named, started, sent) refl,
        refl,
        refl,
        refl,
        rw named (Dict.get-put_self s.payment_records i (payment_record env success total)),
        result_event-Agrees env success i total,
      )

  process_order-length :
      (env : Env) (event : Event F) (s : PaymentStore F)
      → s.producer ≡ true
      → env.send ≡ acked
      → length (process_order float rate env event s).1.log ≡ length s.log + 1
  unfolding process_order publish_payment_result publish
  process_order-length env event s started sent = rw (started, sent) (length-append s.log _)

  process_order-producer :
      (env : Env) (event : Event F) (s : PaymentStore F)
      → (process_order float rate env event s).1.producer ≡ s.producer
  unfolding process_order publish_payment_result
  process_order-producer env event s = refl

  -- With a producer whose sends are all acknowledged, every message gets exactly one answer, also
  -- one that Kafka delivers again.
  pub process_orders-length :
      (messages : List (Env × Event F)) (s : PaymentStore F)
      → s.producer ≡ true
      → All (λ m. m.0.send ≡ acked) messages
      → length (process_orders float rate messages s).log ≡ length s.log + length messages
  unfolding process_orders
  process_orders-length [] s started sent = omega arith
  process_orders-length ((env, event) ∷ messages) s started sent = omega (
    arith,
    process_order-length env event s started sent.0,
    process_orders-length messages (process_order float rate env event s).1
        (process_order-producer env event s ∙ started) sent.1,
  )
