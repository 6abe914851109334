-- ===== src/Saga/Safety.antt =====
-- What the status of an order says about its money and its stock, whatever the deliveries.
pub mod Growth
pub mod Orders
pub mod Payments
pub mod Reachable
use fastapi_kafka_guide.Prelude.{String, ◌≡◌, some, List, All, In}
use fastapi_kafka_guide.Prelude.Dict
use fastapi_kafka_guide.Messaging.{SendOutcome, ServiceError, publish, acked, refused, unacked}
use fastapi_kafka_guide.Saga.Events.{
  Floats, OrderItem, EventType, Topic, Event, Record, OrderStatus, HistoryEntry, Order, System, Env,
  PaymentRecord, RefundRecord, InventoryRecord, payment_completed, inventory_reserved,
  inventory_failed, refund_requested, refund_completed, refund_failed, created, payment_processing,
  inventory_processing, completed, compensating, compensated, compensation_failed,
}
use fastapi_kafka_guide.Saga.OrderService.{
  CreateOrderRequest, create_order, moved, update_order_status, get_order, publish_event,
  request_refund, process_event, process_message, place_order, confirm_order,
}
use fastapi_kafka_guide.Saga.PaymentService.{
  publish_result, payment_event, payment_record, process_order_created, refund_event, refund_record,
  process_refund_request, dispatch,
}
use fastapi_kafka_guide.Saga.InventoryService.{
  publish_inventory_result, inventory_event, inventory_record, process_payment,
  process_payment_result,
}
use fastapi_kafka_guide.Saga.Steps.{
  Step, Reach, place, confirm, order, payment, inventory, here, next,
}

-- The topic on which each type of event is sent.
abbrev pub IsFiled : Topic → EventType → Type 0
IsFiled Topic.order_created EventType.order_created = Unit
IsFiled Topic.payment_result payment_completed = Unit
IsFiled Topic.payment_result EventType.payment_failed = Unit
IsFiled Topic.inventory_result inventory_reserved = Unit
IsFiled Topic.inventory_result inventory_failed = Unit
IsFiled Topic.refund_request refund_requested = Unit
IsFiled Topic.refund_result refund_completed = Unit
IsFiled Topic.refund_result refund_failed = Unit
IsFiled topic event_type = ⊥

module _ {F : Type 0} where
  -- The order is in the store with this total.
  abbrev pub Placed : System F → String → F → Type 0
  Placed s order_id total =
      (o : Order F) × (Dict.get s.orders_db order_id ≡ some o) × (o.total_price ≡ total)

  -- The payment service has charged the order's total.
  abbrev pub IsPaid : System F → String → F → Type 0
  IsPaid s order_id total =
      (p : PaymentRecord F) × In p s.payments_db
      × (p.order_id ≡ some order_id)
      × (p.amount ≡ total)
      × (p.status ≡ "COMPLETED")

  -- It has paid the order's total back.
  abbrev pub IsRefunded : System F → String → F → Type 0
  IsRefunded s order_id total =
      (p : RefundRecord F) × In p s.refunds_db
      × (p.order_id ≡ some order_id)
      × (p.amount ≡ total)
      × (p.status ≡ "COMPLETED")

  -- The inventory service has decided this about the order.
  abbrev pub IsStocked : System F → String → String → Type 0
  IsStocked s order_id status =
      (p : InventoryRecord) × In p s.inventory_db
      × (p.order_id ≡ some order_id)
      × (p.status ≡ status)

  -- What must have happened for an order to have a status.
  abbrev pub IsJustified : System F → OrderStatus → String → F → Type 0
  IsJustified s inventory_processing i t = IsPaid s i t
  IsJustified s completed i t = IsPaid s i t × IsStocked s i "RESERVED"
  IsJustified s compensating i t = IsPaid s i t × IsStocked s i "FAILED"
  IsJustified s compensated i t = IsPaid s i t × IsRefunded s i t
  IsJustified s compensation_failed i t = IsPaid s i t
  IsJustified s status i t = Unit

  -- What must have happened for an event to be sent, and what it says of the order's total.
  abbrev pub Backs : System F → EventType → Event F → String → F → Type 0
  Backs s EventType.order_created e i t = e.total_price ≡ some t
  Backs s payment_completed e i t = (e.amount ≡ some t) × IsPaid s i t
  Backs s inventory_reserved e i t = IsPaid s i t × IsStocked s i "RESERVED"
  Backs s inventory_failed e i t = IsPaid s i t × IsStocked s i "FAILED"
  Backs s refund_requested e i t = (e.amount ≡ some t) × IsPaid s i t
  Backs s refund_completed e i t = IsPaid s i t × IsRefunded s i t
  Backs s refund_failed e i t = IsPaid s i t
  Backs s event_type e i t = Unit

  -- An event names an order of the store, and what it reports has happened to that order.
  abbrev pub IsCaused : System F → Event F → Type 0
  IsCaused s e =
      (i : String) × (t : F) × (e.order_id ≡ some i) × Placed s i t × Backs s e.event_type e i t

  abbrev pub AllFiled : List (Record F) → Type 0
  AllFiled = All (λ r. IsFiled r.topic r.value.event_type)

  pub record IsSound (s : System F) : Type 0 where
    pub events : All (λ r. IsCaused s r.value) s.log
    pub filed : AllFiled s.log
    pub orders :
        (i : String) (o : Order F)
        → Dict.get s.orders_db i ≡ some o
        → IsJustified s o.status i o.total_price

  -- No step takes an order away, changes its total, or drops a row.
  pub record Grows (s t : System F) : Type 0 where
    pub placed : (i : String) (a : F) → Placed s i a → Placed t i a
    pub paid : (i : String) (a : F) → IsPaid s i a → IsPaid t i a
    pub refunded : (i : String) (a : F) → IsRefunded s i a → IsRefunded t i a
    pub stocked : (i st : String) → IsStocked s i st → IsStocked t i st
