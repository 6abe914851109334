-- ===== src/MultiService/OrderService/Ordering.antt =====
-- What the order of the two results does to the status of an order.
use fastapi_kafka_guide.Prelude.{
  String, ◌≡◌, refl, inl, inr, Bool, true, false, ◌||◌, List, [], ◌∷◌, ◌++◌, arith, Option-cases,
  get_or,
}
use fastapi_kafka_guide.Prelude.Dict
use fastapi_kafka_guide.Prelude.Dict.{Dict}
use fastapi_kafka_guide.MultiService.Events.{EventType, Event}
use fastapi_kafka_guide.MultiService.OrderService.{
  OrderStatus, Order, OrderStore, completed, has_paid, apply_event, handle_event, handle_events,
}

abbrev pub is_completed : OrderStatus → Bool
is_completed OrderStatus.completed = true
is_completed _ = false

has_paid-append : (xs ys : List EventType) → has_paid (xs ++ ys) ≡ (has_paid xs || has_paid ys)
unfolding has_paid
has_paid-append [] ys = refl
has_paid-append (x ∷ xs) ys = ground (arith, has_paid-append xs ys)

module _ {F : Type 0} where
  -- A completed order has been paid for.
  abbrev pub IsEarned : Order F → Type 0
  IsEarned o = is_completed o.status ≡ true → has_paid o.events ≡ true

  abbrev pub AllEarned : OrderStore F → Type 0
  AllEarned s = Dict.AllValues IsEarned s.orders_db

  apply_event-IsEarned : (k : EventType) (o : Order F) → IsEarned o → IsEarned (apply_event k o)
  unfolding apply_event has_paid
  apply_event-IsEarned k o h =
      ground (arith, has_paid-append o.events (EventType.inventory_reserved ∷ []))

  handle_event-AllEarned :
      (now : String) (event : Event F) (s : OrderStore F)
      → AllEarned s
      → AllEarned (handle_event now event s)
  unfolding handle_event
  handle_event-AllEarned now event s h =
      let i = get_or event.order_id "" in
      elim (Option-cases (Dict.get s.orders_db i)) [
        | inl unknown ↦ rw (handle_event, unknown) h
        | inr (o, e) ↦
            rw (handle_event, e)
              (Dict.put-AllValues IsEarned s.orders_db i _ h
                (apply_event-IsEarned event.event_type o (h i o e)))
      ]

  -- Through any events, about known orders or unknown ones, an order that is COMPLETED has a
  -- PAYMENT_COMPLETED among its events, if that was so before.
  pub handle_events-AllEarned :
      (events : List (String × Event F)) (s : OrderStore F)
      → AllEarned s
      → AllEarned (handle_events events s)
  unfolding handle_events
  handle_events-AllEarned [] s h = h
  handle_events-AllEarned ((now, event) ∷ events) s h =
      handle_events-AllEarned events (handle_event now event s)
        (handle_event-AllEarned now event s h)

  -- The payment before the reservation completes any order. The reservation before the payment leaves it
  -- PAYMENT_COMPLETED.
  pub reservation_first :
      (o : Order F)
      → ((apply_event EventType.inventory_reserved
            (apply_event EventType.payment_completed o)).status
          ≡ completed)
        × ((apply_event EventType.payment_completed
              (apply_event EventType.inventory_reserved o)).status
            ≡ OrderStatus.payment_completed)
  unfolding apply_event has_paid
  reservation_first o = (
    rw (has_paid-append, has_paid-append)
        (ground (arith, has_paid-append o.events (EventType.payment_completed ∷ []))),
    refl,
  )
