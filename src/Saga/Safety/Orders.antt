-- ===== src/Saga/Safety/Orders.antt =====
-- The order service keeps the invariant of Safety on every message.
use fastapi_kafka_guide.Prelude.{
  ℕ, String, ◌≡◌, refl, sym, ap, subst, ◌∙◌, inl, inr, Option, none, some, get_or, Option-cases,
}
use fastapi_kafka_guide.Prelude.Dict
use fastapi_kafka_guide.Messaging.{SendOutcome}
use fastapi_kafka_guide.Saga.Events.{
  Floats, EventType, Topic, Event, Record, OrderStatus, Order, System, Env, payment_completed,
  inventory_reserved, inventory_failed, refund_completed, refund_failed, inventory_processing,
  completed, compensating, compensated, compensation_failed,
}
use fastapi_kafka_guide.Saga.OrderService.{
  moved, update_order_status, publish_event, request_refund, process_event, process_message,
}
use fastapi_kafka_guide.Saga.Safety.{
  IsFiled, Placed, IsPaid, IsJustified, Backs, IsCaused, IsSound, Grows,
}
use fastapi_kafka_guide.Saga.Safety.Growth.{publish-IsSound, put_order-IsSound, put_order-Grows}

abbrev get_or_total : {F : Type 0} → F → Option (Order F) → F
get_or_total d none = d
get_or_total d (some o) = o.total_price

module _ {F : Type 0} where
  -- The total of an order that the store holds.
  placed_total :
      (s : System F) (i : String) (t : F) (o : Order F)
      → Placed s i t
      → Dict.get s.orders_db i ≡ some o
      → t ≡ o.total_price
  placed_total s i t o (o', e', same) e = sym same ∙ ap (λ x. get_or_total t x) (sym e' ∙ e)

  pub update_order_status-IsSound :
      (now : ℕ → String) (i : String) (st : OrderStatus) (reason : String) (s : System F)
      → ((o : Order F) → Dict.get s.orders_db i ≡ some o → IsJustified s st i o.total_price)
      → IsSound s
      → IsSound (update_order_status now i st reason s)
  unfolding update_order_status
  update_order_status-IsSound now i st reason s j h = elim (Option-cases (Dict.get s.orders_db i)) [
    | inl none_there ↦ rw (update_order_status, none_there) h
    | inr (o, e) ↦
        rw (update_order_status, e)
          (put_order-IsSound s i (moved (now 0) (now 1) st reason o)
            (λ o' e'. ap (λ x. get_or_total o.total_price x) (sym e ∙ e')) (j o e) h)
  ]

  -- A status that the placed order's total justifies.
  to_status :
      (now : ℕ → String) (i : String) (t : F) (st : OrderStatus) (reason : String) (s : System F)
      → Placed s i t
      → IsJustified s st i t
      → IsSound s
      → IsSound (update_order_status now i st reason s)
  to_status now i t st reason s p j h =
      update_order_status-IsSound now i st reason s
        (λ o e. subst (λ a. IsJustified s st i a) (placed_total s i t o p e) j) h

  pub publish_event-IsSound :
      (outcome : SendOutcome) (topic : Topic) (e : Event F) (s : System F)
      → IsFiled topic e.event_type
      → IsCaused s e
      → IsSound s
      → IsSound (publish_event outcome topic e s).1
  unfolding publish_event
  publish_event-IsSound outcome topic e s f c h =
      publish-IsSound s s.order_producer outcome
        (record { topic = topic; key = e.order_id; value = e }) f c h

  update_order_status-Grows :
      (now : ℕ → String) (j : String) (st : OrderStatus) (reason : String) (s : System F)
      → Grows s (update_order_status now j st reason s)
  unfolding update_order_status
  update_order_status-Grows now j st reason s = elim (Option-cases (Dict.get s.orders_db j)) [
    | inl none_there ↦
        rw (update_order_status, none_there)
          (record {
            placed = λ i t p. p;
            paid = λ i t p. p;
            refunded = λ i t p. p;
            stocked = λ i t p. p;
          })
    | inr (o, e) ↦
        rw (update_order_status, e)
          (put_order-Grows s j (moved (now 0) (now 1) st reason o)
            (λ o' e'. ap (λ x. get_or_total o.total_price x) (sym e ∙ e')))
  ]

  request_refund-IsSound :
      (env : Env) (i reason : String) (t : F) (o : Option (Order F)) (s : System F)
      → Dict.get s.orders_db i ≡ o
      → IsPaid s i t
      → ((o' : Order F) → Dict.get s.orders_db i ≡ some o' → t ≡ o'.total_price)
      → IsSound s
      → IsSound (request_refund env i reason o s).1
  unfolding request_refund
  request_refund-IsSound env i reason t none s e p same h =
      update_order_status-IsSound env.now i compensation_failed _ s
        (λ o' e'. subst (λ a. IsPaid s i a) (same o' e') p) h
  request_refund-IsSound env i reason t (some o) s e p same h =
      publish_event-IsSound env.send Topic.refund_request _ s tt
        (i, o.total_price, refl, (o, e, refl), (refl, subst (λ a. IsPaid s i a) (same o e) p)) h

  process_event-IsSound :
      (float : Floats F) (env : Env) (topic : Topic) (k : EventType) (e : Event F) (s : System F)
      (i : String) (t : F)
      → e.order_id ≡ some i
      → Placed s i t
      → Backs s k e i t
      → IsSound s
      → IsSound (process_event float env topic k e s).1
  unfolding process_event
  process_event-IsSound float env Topic.payment_result payment_completed e s i t n p b h =
      rw n (to_status env.now i t inventory_processing "" s p b.1 h)
  process_event-IsSound float env Topic.payment_result EventType.payment_failed e s i t n p b h =
      rw n (to_status env.now i t OrderStatus.payment_failed _ s p tt h)
  process_event-IsSound float env Topic.inventory_result inventory_reserved e s i t n p b h =
      rw n (to_status env.now i t completed "" s p b h)
  process_event-IsSound float env Topic.inventory_result inventory_failed e s i t n p b h = rw n (
      let s' = update_order_status env.now i compensating (get_or e.reason "재고 부족") s in
      let grows = update_order_status-Grows env.now i compensating (get_or e.reason "재고 부족") s in
      request_refund-IsSound env i _ t (Dict.get s'.orders_db i) s' refl (grows.paid i t b.0)
        (λ o' e'. placed_total s' i t o' (grows.placed i t p) e')
        (to_status env.now i t compensating _ s p b h))
  process_event-IsSound float env Topic.refund_result refund_completed e s i t n p b h =
      rw n (to_status env.now i t compensated _ s p b h)
  process_event-IsSound float env Topic.refund_result refund_failed e s i t n p b h =
      rw n (to_status env.now i t compensation_failed _ s p b h)
  process_event-IsSound float env topic k e s i t n p b h = h

  pub process_message-IsSound :
      (float : Floats F) (env : Env) (r : Record F) (s : System F)
      → IsCaused s r.value
      → IsSound s
      → IsSound (process_message float env r s).1
  unfolding process_message
  process_message-IsSound float env r s (i, t, n, p, b) h =
      process_event-IsSound float env r.topic r.value.event_type r.value s i t n p b h
