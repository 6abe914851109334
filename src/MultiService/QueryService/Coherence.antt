-- ===== src/MultiService/QueryService/Coherence.antt =====
-- The status of a view agrees with the statuses of its payment and its stock.
use fastapi_kafka_guide.Prelude.{
  subst, some_injective, String, ◌≡◌, refl, inl, inr, Bool, true, false, Option, none, some, [],
  arith, ◌==◌, Bool-cases, get_or,
}
use mathlib.Core.Option.{none-ne-some}
use fastapi_kafka_guide.Prelude.Dict
use fastapi_kafka_guide.Prelude.Dict.{Dict}
use fastapi_kafka_guide.Saga.Events.{Floats}
use fastapi_kafka_guide.MultiService.Events.{EventType, Topic, Event}
use fastapi_kafka_guide.MultiService.QueryService.{
  PaymentStatus, InventoryStatus, ViewStatus, reserved, View, ReadModel, status_when_paid,
  status_when_reserved, update_view, new_view, apply_event, written, process_event,
}

abbrev pub is_completed : ViewStatus → Bool
is_completed ViewStatus.completed = true
is_completed _ = false

abbrev pub is_cancelled : ViewStatus → Bool
is_cancelled ViewStatus.cancelled = true
is_cancelled _ = false

-- The payment is complete and the stock is reserved.
abbrev pub is_settled : PaymentStatus → InventoryStatus → Bool
is_settled PaymentStatus.completed reserved = true
is_settled _ _ = false

module _ {F : Type 0} where
  abbrev pub IsCoherent : View F → Type 0
  IsCoherent v = is_completed v.status ≡ is_settled v.payment_status v.inventory_status

  -- Every view of the read model.
  abbrev pub AllCoherent : ReadModel F → Type 0
  AllCoherent s = Dict.AllValues IsCoherent s.orders_read_model

  -- A view without the time of its last event and the list of its events.
  abbrev pub settled : View F → View F
  settled v = record v { updated_at = ""; events = [] }

  written-IsCoherent :
      (i : String) (o : Option (View F)) (d : Dict (View F))
      → Dict.AllValues IsCoherent d
      → ((v : View F) → o ≡ some v → IsCoherent v)
      → Dict.AllValues IsCoherent (written i o d)
  written-IsCoherent i none d h new = h
  written-IsCoherent i (some w) d h new = Dict.put-AllValues IsCoherent d i w h (new w refl)

module _ {F : Type 0} (float : Floats F) where
  update_view-IsCoherent :
      (k : EventType) (e : Event F) (t : String) (v : View F)
      → IsCoherent v
      → IsCoherent (update_view float k e t v)
  unfolding update_view status_when_paid status_when_reserved
  update_view-IsCoherent k e t v h = ground arith

  apply_event-IsCoherent :
      (k : EventType) (i : String) (e : Event F) (t : String) (o : Option (View F)) (v : View F)
      → ((w : View F) → o ≡ some w → IsCoherent w)
      → apply_event float k i e t o ≡ some v
      → IsCoherent v
  unfolding apply_event new_view
  apply_event-IsCoherent EventType.order_created i e t o v h made =
      subst IsCoherent (some_injective _ v made) refl
  apply_event-IsCoherent k i e t none v h made = absurd (none-ne-some v made)
  apply_event-IsCoherent k i e t (some w) v h made =
      subst IsCoherent (some_injective _ v made) (update_view-IsCoherent k e t w (h w refl))

  -- Through any event, of any type and about any order, each view shows COMPLETED exactly when its
  -- payment is complete and its stock is reserved, if that was so before.
  pub process_event-AllCoherent :
      (now : String) (event : Event F) (topic : Topic) (s : ReadModel F)
      → AllCoherent s
      → AllCoherent (process_event float now event topic s)
  unfolding process_event
  process_event-AllCoherent now event topic s h =
      let i = get_or event.order_id "" in
      let d = s.orders_read_model in
      elim (Bool-cases (i == "")) [
        | inl unnamed ↦ rw unnamed h
        | inr named ↦ rw named (
            written-IsCoherent i _ d h (λ v made.
              apply_event-IsCoherent event.event_type i event _ (Dict.get d i) v (h i) made))
      ]

  -- The payment and the reservation of an order may come in either order: the view is the same but for its
  -- times and the order of its events, and it shows COMPLETED.
  pub payment_commutes :
      (paid stocked : Event F) (t u : String) (v : View F)
      → (settled (
            update_view float EventType.inventory_reserved stocked u
              (update_view float EventType.payment_completed paid t v))
          ≡ settled (
              update_view float EventType.payment_completed paid t
                (update_view float EventType.inventory_reserved stocked u v)))
        × ((update_view float EventType.payment_completed paid t
              (update_view float EventType.inventory_reserved stocked u v)).status
            ≡ ViewStatus.completed)
  unfolding update_view status_when_paid status_when_reserved
  payment_commutes paid stocked t u v = (refl, refl)

  -- A view forgets that its order was cancelled: after missing stock, a completed payment shows
  -- PAYMENT_COMPLETED; after a failed payment, a reservation shows INVENTORY_RESERVED.
  pub cancellation_forgotten :
      (fails succeeds : Event F) (t u : String) (v : View F)
      → ((update_view float EventType.payment_completed succeeds u
            (update_view float EventType.inventory_failed fails t v)).status
          ≡ ViewStatus.payment_completed)
        × ((update_view float EventType.inventory_reserved succeeds u
              (update_view float EventType.payment_failed fails t v)).status
            ≡ ViewStatus.inventory_reserved)
  unfolding update_view status_when_paid status_when_reserved
  cancellation_forgotten fails succeeds t u v = (refl, refl)
