-- ===== src/Saga/Safety/Payments.antt =====
-- The payment and inventory services keep the invariant of Safety on every message.
use fastapi_kafka_guide.Prelude.{
  String, ◌≡◌, refl, ap, inl, inr, Bool, true, false, some, List, [], ◌∷◌, ◌++◌, ltb, get_or,
  Bool-cases, In, In-append_left, In-append_right,
}
use fastapi_kafka_guide.Messaging.{SendOutcome}
use fastapi_kafka_guide.Saga.Events.{
  Floats, EventType, Topic, Event, System, Env, PaymentRecord, RefundRecord, InventoryRecord,
  payment_completed, refund_requested,
}
use fastapi_kafka_guide.Saga.PaymentService.{
  payment_success_rate, refund_success_rate, publish_result, payment_event, payment_record,
  process_order_created, refund_event, refund_record, process_refund_request, dispatch,
}
use fastapi_kafka_guide.Saga.InventoryService.{
  inventory_success_rate, publish_inventory_result, inventory_event, inventory_record,
  process_payment,
}
use fastapi_kafka_guide.Saga.Safety.{IsFiled, Placed, IsPaid, Backs, IsCaused, IsSound, Grows}
use fastapi_kafka_guide.Saga.Safety.Growth.{grown-IsSound, publish-IsSound}

In-last : {A : Type 0} (x : A) (xs : List A) → In x (xs ++ x ∷ [])
In-last x xs = In-append_right x xs (x ∷ []) (inl refl)

module _ {F : Type 0} where
  publish_result-IsSound :
      (outcome : SendOutcome) (topic : Topic) (e : Event F) (s : System F)
      → IsFiled topic e.event_type
      → IsCaused s e
      → IsSound s
      → IsSound (publish_result outcome topic e s).1
  unfolding publish_result
  publish_result-IsSound outcome topic e s f c h =
      publish-IsSound s s.payment_producer outcome
        (record { topic = topic; key = e.order_id; value = e }) f c h

  publish_inventory_result-IsSound :
      (outcome : SendOutcome) (e : Event F) (s : System F)
      → IsFiled Topic.inventory_result e.event_type
      → IsCaused s e
      → IsSound s
      → IsSound (publish_inventory_result outcome e s).1
  unfolding publish_inventory_result
  publish_inventory_result-IsSound outcome e s f c h =
      publish-IsSound s s.inventory_producer outcome
        (record { topic = Topic.inventory_result; key = e.order_id; value = e }) f c h

  add_payment-Grows :
      (s : System F) (row : PaymentRecord F)
      → Grows s (record s { payments_db = s.payments_db ++ row ∷ [] })
  add_payment-Grows s row = record {
    placed = λ i t p. p;
    paid = λ i t (q, j, a, b, c). (q, In-append_left q s.payments_db (row ∷ []) j, a, b, c);
    refunded = λ i t p. p;
    stocked = λ i t p. p;
  }

  add_refund-Grows :
      (s : System F) (row : RefundRecord F)
      → Grows s (record s { refunds_db = s.refunds_db ++ row ∷ [] })
  add_refund-Grows s row = record {
    placed = λ i t p. p;
    paid = λ i t p. p;
    refunded = λ i t (q, j, a, b, c). (q, In-append_left q s.refunds_db (row ∷ []) j, a, b, c);
    stocked = λ i t p. p;
  }

  add_stock-Grows :
      (s : System F) (row : InventoryRecord)
      → Grows s (record s { inventory_db = s.inventory_db ++ row ∷ [] })
  add_stock-Grows s row = record {
    placed = λ i t p. p;
    paid = λ i t p. p;
    refunded = λ i t p. p;
    stocked = λ i t (q, j, a, b). (q, In-append_left q s.inventory_db (row ∷ []) j, a, b);
  }

  process_order_created-IsSound :
      (float : Floats F) (env : Env) (e : Event F) (s : System F) (i : String) (t : F)
      → e.order_id ≡ some i
      → Placed s i t
      → e.total_price ≡ some t
      → IsSound s
      → IsSound (process_order_created float env e s).1
  unfolding process_order_created payment_event payment_record
  process_order_created-IsSound float env e s i t n p total h =
      let user = get_or e.user_id "unknown" in
      let price = get_or e.total_price float.zero_amount in
      let row : Bool → PaymentRecord F = λ b. payment_record env b e.order_id user price in
      let s' : Bool → System F = λ b. record s { payments_db = s.payments_db ++ row b ∷ [] } in
      let price_is : price ≡ t = rw total refl in
      let sound : (b : Bool) → IsSound (s' b) =
        λ b. grown-IsSound s (s' b) (add_payment-Grows s (row b)) refl refl h in
      elim (Bool-cases (ltb env.draw payment_success_rate)) [
        | inl yes_paid ↦ rw yes_paid (
            publish_result-IsSound env.send Topic.payment_result _ (s' true) tt
              (
                i,
                t,
                n,
                p,
                (ap some price_is, (row true, In-last (row true) s.payments_db, n, price_is, refl)),
              )
              (sound true))
        | inr not_paid ↦ rw not_paid (
            publish_result-IsSound env.send Topic.payment_result _ (s' false) tt (i, t, n, p, tt)
              (sound false))
      ]

  process_refund_request-IsSound :
      (float : Floats F) (env : Env) (e : Event F) (s : System F) (i : String) (t : F)
      → e.order_id ≡ some i
      → Placed s i t
      → (e.amount ≡ some t) × IsPaid s i t
      → IsSound s
      → IsSound (process_refund_request float env e s).1
  unfolding process_refund_request refund_event refund_record
  process_refund_request-IsSound float env e s i t n p (total, paid) h =
      let amount = get_or e.amount float.zero_amount in
      let row : Bool → RefundRecord F =
        λ b. refund_record env b e.order_id (get_or e.reason "") amount in
      let s' : Bool → System F = λ b. record s { refunds_db = s.refunds_db ++ row b ∷ [] } in
      let amount_is : amount ≡ t = rw total refl in
      let sound : (b : Bool) → IsSound (s' b) =
        λ b. grown-IsSound s (s' b) (add_refund-Grows s (row b)) refl refl h in
      elim (Bool-cases (ltb env.draw refund_success_rate)) [
        | inl yes_paid ↦ rw yes_paid (
            publish_result-IsSound env.send Topic.refund_result _ (s' true) tt
              (i, t, n, p, (paid, (row true, In-last (row true) s.refunds_db, n, amount_is, refl)))
              (sound true))
        | inr not_paid ↦ rw not_paid (
            publish_result-IsSound env.send Topic.refund_result _ (s' false) tt (i, t, n, p, paid)
              (sound false))
      ]

  pub dispatch-IsSound :
      (float : Floats F) (env : Env) (topic : Topic) (k : EventType) (e : Event F) (s : System F)
      (i : String) (t : F)
      → IsFiled topic k
      → e.order_id ≡ some i
      → Placed s i t
      → Backs s k e i t
      → IsSound s
      → IsSound (dispatch float env topic e s).1
  unfolding dispatch
  dispatch-IsSound float env Topic.order_created EventType.order_created e s i t f n p b h =
      process_order_created-IsSound float env e s i t n p b h
  dispatch-IsSound float env Topic.refund_request refund_requested e s i t f n p b h =
      process_refund_request-IsSound float env e s i t n p b h
  dispatch-IsSound float env Topic.payment_result k e s i t f n p b h = h
  dispatch-IsSound float env Topic.inventory_result k e s i t f n p b h = h
  dispatch-IsSound float env Topic.refund_result k e s i t f n p b h = h
  dispatch-IsSound float env topic k e s i t f n p b h = absurd f

  pub process_payment-IsSound :
      (env : Env) (k : EventType) (e : Event F) (s : System F) (i : String) (t : F)
      → e.order_id ≡ some i
      → Placed s i t
      → Backs s k e i t
      → IsSound s
      → IsSound (process_payment env k e s).1
  unfolding process_payment inventory_event inventory_record
  process_payment-IsSound env payment_completed e s i t n p (amount, paid) h =
      let row : Bool → InventoryRecord = λ b. inventory_record env b e.order_id in
      let s' : Bool → System F = λ b. record s { inventory_db = s.inventory_db ++ row b ∷ [] } in
      let sound : (b : Bool) → IsSound (s' b) =
        λ b. grown-IsSound s (s' b) (add_stock-Grows s (row b)) refl refl h in
      elim (Bool-cases (ltb env.draw inventory_success_rate)) [
        | inl enough ↦ rw enough (
            publish_inventory_result-IsSound env.send _ (s' true) tt
              (i, t, n, p, (paid, (row true, In-last (row true) s.inventory_db, n, refl)))
              (sound true))
        | inr short ↦ rw short (
            publish_inventory_result-IsSound env.send _ (s' false) tt
              (i, t, n, p, (paid, (row false, In-last (row false) s.inventory_db, n, refl)))
              (sound false))
      ]
  process_payment-IsSound env k e s i t n p b h = h
