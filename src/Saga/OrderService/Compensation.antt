-- ===== src/Saga/OrderService/Compensation.antt =====
-- What the order service does when the stock is missing, and what a late event does to a final status.
use fastapi_kafka_guide.Prelude.{
  inl, inr, ℕ, String, ◌≡◌, refl, ap, ◌∙◌, ◌≢◌, some, get_or, Bool-cases, Option-cases, ◌==◌,
  eq_iff,
}
use fastapi_kafka_guide.Prelude.Dict
use fastapi_kafka_guide.Messaging.{publish}
use fastapi_kafka_guide.Saga.Events.{
  Floats, EventType, Topic, Event, Record, OrderStatus, Order, System, Env, payment_completed,
  inventory_failed, refund_requested, inventory_processing, compensating,
}
use fastapi_kafka_guide.Saga.OrderService.{
  moved, update_order_status, publish_event, request_refund, process_event,
}

module _ {F : Type 0} where
  -- A stored order after a change of its status.
  pub update_order_status-get :
      (now : ℕ → String) (i : String) (st : OrderStatus) (reason : String) (s : System F)
      (o : Order F)
      → Dict.get s.orders_db i ≡ some o
      → Dict.get (update_order_status now i st reason s).orders_db i
        ≡ some (moved (now 0) (now 1) st reason o)
  unfolding update_order_status
  update_order_status-get now i st reason s o e =
      rw (update_order_status, e) (Dict.get-put_self s.orders_db i _)

  -- The orders other than the one that is changed.
  pub update_order_status-others :
      (now : ℕ → String) (i j : String) (st : OrderStatus) (reason : String) (s : System F)
      → i ≢ j
      → Dict.get (update_order_status now i st reason s).orders_db j ≡ Dict.get s.orders_db j
  unfolding update_order_status
  update_order_status-others now i j st reason s ne = elim (Option-cases (Dict.get s.orders_db i)) [
    | inl unknown ↦ rw (update_order_status, unknown) refl
    | inr (o, e) ↦
        rw (update_order_status, e)
          (Dict.get-put s.orders_db i j _ ∙ elim (Bool-cases (i == j)) [
            | inl same ↦ absurd (ne ((eq_iff i j).0 same))
            | inr other ↦ rw other refl
          ])
  ]

  update_order_status-kept :
      (now : ℕ → String) (i : String) (st : OrderStatus) (reason : String) (s : System F)
      → ((update_order_status now i st reason s).log ≡ s.log)
        × ((update_order_status now i st reason s).order_producer ≡ s.order_producer)
  unfolding update_order_status
  update_order_status-kept now i st reason s = elim (Option-cases (Dict.get s.orders_db i)) [
    | inl unknown ↦ rw (update_order_status, unknown) (refl, refl)
    | inr (o, e) ↦ rw (update_order_status, e) (refl, refl)
  ]

  -- A refund request for an order.
  pub record Requests (i : String) (total : F) (r : Record F) : Type 0 where
    pub on_topic : r.topic ≡ Topic.refund_request
    pub keyed : r.key ≡ some i
    pub is_request : r.value.event_type ≡ refund_requested
    pub about : r.value.order_id ≡ some i
    pub in_full : r.value.amount ≡ some total

module _ {F : Type 0} (float : Floats F) (env : Env) where
  request_refund-sends :
      (i reason : String) (o : Order F) (s : System F)
      → (r : Record F) × Requests i o.total_price r
        × ((
          (request_refund env i reason (some o) s).0,
          (request_refund env i reason (some o) s).1.log,
        )
            ≡ publish s.order_producer env.send r s.log)
        × ((request_refund env i reason (some o) s).1.orders_db ≡ s.orders_db)
  unfolding request_refund publish_event
  request_refund-sends i reason o s = (
    _,
    record { on_topic = refl; keyed = refl; is_request = refl; about = refl; in_full = refl },
    refl,
    refl,
  )

  -- INVENTORY_FAILED for a known order, whatever its status: the order becomes COMPENSATING, with the reason
  -- in its history, every other order stays as it is, and one refund request for exactly the order's total is
  -- sent; the handler returns, raises and leaves records behind as that send does.
  pub inventory_failed-compensates :
      (e : Event F) (i : String) (o : Order F) (s : System F)
      → e.order_id ≡ some i
      → Dict.get s.orders_db i ≡ some o
      → (Dict.get
            (process_event float env Topic.inventory_result inventory_failed e s).1.orders_db
            i
          ≡ some (moved (env.now 0) (env.now 1) compensating (get_or e.reason "재고 부족") o))
        × ((j : String)
            → i ≢ j
            → Dict.get
                (process_event float env Topic.inventory_result inventory_failed e s).1.orders_db
                j
              ≡ Dict.get s.orders_db j)
        × ((r : Record F) × Requests i o.total_price r
            × ((
              (process_event float env Topic.inventory_result inventory_failed e s).0,
              (process_event float env Topic.inventory_result inventory_failed e s).1.log,
            )
                ≡ publish s.order_producer env.send r s.log))
  unfolding process_event
  inventory_failed-compensates e i o s named known =
      let reason = get_or e.reason "재고 부족" in
      let s' = update_order_status env.now i compensating reason s in
      let found = update_order_status-get env.now i compensating reason s o known in
      let o' = moved (env.now 0) (env.now 1) compensating reason o in
      let (r, asked, sent, stored) = request_refund-sends i reason o' s' in
      let (same_log, same_producer) = update_order_status-kept env.now i compensating reason s in
      rw (named, found)
        (
          ap (λ d. Dict.get d i) stored ∙ found,
          λ j ne.
              ap (λ d. Dict.get d j) stored
              ∙ update_order_status-others env.now i j compensating reason s ne,
          (
            r,
            asked,
            sent
                ∙ ap (λ p. publish p env.send r s'.log) same_producer
                ∙ ap (publish s.order_producer env.send r) same_log,
          ),
        )

  -- No status is final: a payment result that is read again, or late, takes a known order from any status,
  -- COMPLETED and COMPENSATED among them, back to INVENTORY_PROCESSING or to PAYMENT_FAILED.
  pub no_final_status :
      (e : Event F) (i : String) (o : Order F) (s : System F)
      → e.order_id ≡ some i
      → Dict.get s.orders_db i ≡ some o
      → ((o' : Order F) × (Dict.get
              (process_event float env Topic.payment_result payment_completed e s).1.orders_db
              i
            ≡ some o')
          × (o'.status ≡ inventory_processing))
        × ((o' : Order F) × (Dict.get
                (process_event float env Topic.payment_result EventType.payment_failed e
                  s).1.orders_db
                i
              ≡ some o')
            × (o'.status ≡ OrderStatus.payment_failed))
  unfolding process_event
  no_final_status e i o s named known = rw named (
    (_, update_order_status-get env.now i inventory_processing "" s o known, refl),
    (_, update_order_status-get env.now i OrderStatus.payment_failed _ s o known, refl),
  )
