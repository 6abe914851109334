-- ===== src/Saga/Safety/Reachable.antt =====
-- The invariant of Safety holds in every state that the saga reaches.
use fastapi_kafka_guide.Prelude.{ℕ, String, ◌≡◌, refl, sym, ◌∙◌, Bool, none, [], All-In}
use fastapi_kafka_guide.Prelude.Dict
use mathlib.Core.Option.{none-ne-some}
use fastapi_kafka_guide.Saga.Events.{Floats, Topic, Record, System, Env, payment_processing}
use fastapi_kafka_guide.Saga.OrderService.{
  CreateOrderRequest, create_order, total_of, place_order, confirm_order,
}
use fastapi_kafka_guide.Saga.InventoryService.{process_payment_result}
use fastapi_kafka_guide.Saga.Steps.{
  Step, Reach, place, confirm, order, payment, inventory, here, next,
}
use fastapi_kafka_guide.Saga.Safety.{IsFiled, IsCaused, IsSound}
use fastapi_kafka_guide.Saga.Safety.Growth.{put_order-IsSound}
use fastapi_kafka_guide.Saga.Safety.Orders.{
  update_order_status-IsSound, publish_event-IsSound, process_message-IsSound,
}
use fastapi_kafka_guide.Saga.Safety.Payments.{dispatch-IsSound, process_payment-IsSound}

module _ {F : Type 0} where
  place_order-IsSound :
      (float : Floats F) (env : Env) (i : String) (request : CreateOrderRequest F) (s : System F)
      → Dict.get s.orders_db i ≡ none
      → IsSound s
      → IsSound (place_order float env i request s).1
  unfolding place_order create_order
  place_order-IsSound float env i request s fresh h =
      let o =
        (create_order env.now i request.user_id request.items
          (total_of float request.items float.zero_amount) s).0 in
      publish_event-IsSound env.send Topic.order_created _ _ tt
        (i, o.total_price, refl, (o, Dict.get-put_self s.orders_db i o, refl), refl)
        (put_order-IsSound s i o (λ o' e. absurd (none-ne-some o' (sym fresh ∙ e))) tt h)

  confirm_order-IsSound :
      (now : ℕ → String) (i : String) (s : System F) → IsSound s → IsSound (confirm_order now i s).1
  unfolding confirm_order
  confirm_order-IsSound now i s h =
      update_order_status-IsSound now i payment_processing "" s (λ o e. tt) h

  Step-IsSound : (float : Floats F) {s t : System F} → Step float s t → IsSound s → IsSound t
  unfolding process_payment_result
  Step-IsSound float {s} (place env i request fresh) h =
      place_order-IsSound float env i request s fresh h
  Step-IsSound float {s} (confirm now i) h = confirm_order-IsSound now i s h
  Step-IsSound float {s} (order env r sent) h =
      process_message-IsSound float env r s (All-In (λ x. IsCaused s x.value) r s.log h.events sent)
        h
  Step-IsSound float {s} (payment env r sent) h =
      let (i, t, n, p, b) = All-In (λ x. IsCaused s x.value) r s.log h.events sent in
      dispatch-IsSound float env r.topic r.value.event_type r.value s i t
        (All-In (λ (x : Record F). IsFiled x.topic x.value.event_type) r s.log h.filed sent) n p b h
  Step-IsSound float {s} (inventory env r sent subscribed) h =
      let (i, t, n, p, b) = All-In (λ x. IsCaused s x.value) r s.log h.events sent in
      process_payment-IsSound env r.value.event_type r.value s i t n p b h

  -- From a sound state, such as the start with no order, no row and no record, whatever requests come and
  -- in whatever order, and however often, Kafka delivers its records to the three services, with sends
  -- that fail anywhere: the status of each order is justified by rows for exactly its total.
  pub Reach-IsSound : (float : Floats F) {s t : System F} → IsSound s → Reach float s t → IsSound t
  Reach-IsSound float h here = h
  Reach-IsSound float h (next r st) = Step-IsSound float st (Reach-IsSound float h r)

  -- The start: no order, no row, no record, and the producers started or not.
  abbrev pub new_system : Bool → Bool → Bool → System F
  new_system a b c = record {
    orders_db = [];
    payments_db = [];
    refunds_db = [];
    inventory_db = [];
    order_producer = a;
    payment_producer = b;
    inventory_producer = c;
    log = [];
  }
