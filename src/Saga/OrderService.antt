-- ===== src/Saga/OrderService.antt =====
-- order-service of 09-saga-pattern-order-system: models.py, producer.py, consumer.py and main.py.
pub mod Compensation
use fastapi_kafka_guide.Prelude.{
  ℕ, ◌+◌, String, Bool, true, false, Option, none, some, List, [], ◌∷◌, ◌++◌, map, ◌==◌,
  if◌then◌else◌, get_or, Result, ok, err, Exec, pure, ◌>>=◌, ◌>>◌,
}
use fastapi_kafka_guide.Prelude.Int.{ℤ}
use fastapi_kafka_guide.Prelude.Dict
use fastapi_kafka_guide.Prelude.Dict.{Dict}
use fastapi_kafka_guide.Messaging.{SendOutcome, ServiceError, Ended, publish, start_consumer}
use fastapi_kafka_guide.Saga.Events.{
  Floats, OrderItem, EventType, Topic, Event, Record, OrderStatus, HistoryEntry, Order, System, Env,
  payment_completed, inventory_reserved, inventory_failed, refund_requested, refund_completed,
  refund_failed, created, payment_processing, inventory_processing, completed, compensating,
  compensated, compensation_failed,
}
use Prim.Native.String.{◌++◌ as ◌+++◌}

-- schemas.py
pub record CreateOrderRequest (F : Type 0) : Type 0 where
  pub user_id : String
  pub items : List (OrderItem F)

-- `HTTPException(404)` of `get_order_detail`.
pub data Lookup (F : Type 0) : Type 0 where
  found : Order F → Lookup F
  not_found : String → Lookup F

-- `if reason`: an empty one is left out.
abbrev pub reason_of : String → Option String
reason_of reason = if reason == "" then none else some reason

module _ {F : Type 0} where
  -- `create_order`: the clock is read three times.
  unfoldable pub create_order :
      (ℕ → String) → String → String → List (OrderItem F) → F → System F → Order F × System F
  create_order now order_id user_id items total_price s =
      let order : Order F = record {
        order_id = order_id;
        user_id = user_id;
        items = items;
        total_price = total_price;
        status = created;
        created_at = now 0;
        updated_at = now 1;
        status_history = record { status = created; timestamp = now 2; reason = none } ∷ [];
      } in
      (order, record s { orders_db = Dict.put s.orders_db order_id order })

  -- An order with its new status and a new entry of its history.
  abbrev pub moved : String → String → OrderStatus → String → Order F → Order F
  moved t u status reason order = record order {
    status = status;
    updated_at = t;
    status_history =
        order.status_history
        ++ record { status = status; timestamp = u; reason = reason_of reason } ∷ [];
  }

  -- `update_order_status`: an unknown order changes nothing.
  unfoldable pub update_order_status :
      (ℕ → String) → String → OrderStatus → String → System F → System F
  update_order_status now order_id status reason s = elim (Dict.get s.orders_db order_id) [
    | none ↦ s
    | some order ↦ record s {
      orders_db = Dict.put s.orders_db order_id (moved (now 0) (now 1) status reason order);
    }
  ]

  abbrev pub get_order : String → System F → Option (Order F)
  get_order order_id s = Dict.get s.orders_db order_id

  abbrev pub get_all_orders : System F → List (Order F)
  get_all_orders s = Dict.values s.orders_db

  -- `publish_order_created` and `publish_refund_request`, by the topic.
  unfoldable pub publish_event :
      SendOutcome → Topic → Event F → Exec (System F) ServiceError (Unit {0})
  publish_event outcome topic event s =
      let (r, log) =
        publish s.order_producer outcome
          (record { topic = topic; key = event.order_id; value = event }) s.log in
      (r, record s { log = log })

  -- The compensation: a refund is asked for if the order is known, or the order is marked.
  unfoldable pub request_refund :
      Env → String → String → Option (Order F) → Exec (System F) ServiceError (Unit {0})
  request_refund env order_id reason none s =
      (ok tt, update_order_status env.now order_id OrderStatus.compensation_failed "주문 정보 조회 실패" s)
  request_refund env order_id reason (some order) s =
      publish_event env.send Topic.refund_request
        (record {
          event_type = refund_requested;
          order_id = some order_id;
          user_id = none;
          items = none;
          total_price = none;
          amount = some order.total_price;
          reason = some ("재고 부족으로 인한 환불: " +++ reason);
          timestamp = some (env.now 2);
        })
        s

  -- `sum(item.price * item.quantity for item in request.items)`
  unfoldable pub total_of : Floats F → List (OrderItem F) → F → F
  total_of float [] total = total
  total_of float (item ∷ items) total =
      total_of float items (float.plus total (float.times item.price item.quantity))

  -- `process_message`, by the topic and the type of the event; any other pair is passed over.
  unfoldable pub process_event :
      Floats F → Env → Topic → EventType → Event F → Exec (System F) ServiceError (Unit {0})
  process_event float env Topic.payment_result payment_completed event s = (
    ok tt,
    update_order_status env.now (get_or event.order_id "UNKNOWN") inventory_processing "" s,
  )
  process_event float env Topic.payment_result EventType.payment_failed event s = (
    ok tt,
    update_order_status env.now (get_or event.order_id "UNKNOWN") OrderStatus.payment_failed
        (get_or event.reason "결제 실패") s,
  )
  process_event float env Topic.inventory_result inventory_reserved event s =
      (ok tt, update_order_status env.now (get_or event.order_id "UNKNOWN") completed "" s)
  process_event float env Topic.inventory_result inventory_failed event s =
      let order_id = get_or event.order_id "UNKNOWN" in
      let reason = get_or event.reason "재고 부족" in
      let s' = update_order_status env.now order_id compensating reason s in
      request_refund env order_id reason (get_order order_id s') s'
  process_event float env Topic.refund_result refund_completed event s = (
    ok tt,
    update_order_status env.now (get_or event.order_id "UNKNOWN") compensated
        ("환불 완료 (금액: " +++ float.shown (get_or event.amount float.zero_amount) +++ ")") s,
  )
  process_event float env Topic.refund_result refund_failed event s = (
    ok tt,
    update_order_status env.now (get_or event.order_id "UNKNOWN") compensation_failed
        (get_or event.reason "환불 처리 실패") s,
  )
  process_event float env topic event_type event s = (ok tt, s)

  -- `process_message`
  unfoldable pub process_message :
      Floats F → Env → Record F → Exec (System F) ServiceError (Unit {0})
  process_message float env msg = process_event float env msg.topic msg.value.event_type msg.value

  -- `start_consumer`: the messages come with what their handling meets.
  unfoldable pub start_order_consumer :
      Floats F → (ℕ → Bool) → List (Env × Record F) → System F → Ended × System F
  start_order_consumer float accepts messages =
      start_consumer accepts (λ m. process_message float m.0 m.1) messages

  -- `create_new_order` up to the end of its `await`: the order is stored and its event is sent.
  unfoldable pub place_order :
      Floats F → Env → String → CreateOrderRequest F → Exec (System F) ServiceError (Unit {0})
  place_order float env order_id request s =
      let total_price = total_of float request.items float.zero_amount in
      let (order, s') = create_order env.now order_id request.user_id request.items total_price s in
      publish_event env.send Topic.order_created
        (record {
          event_type = EventType.order_created;
          order_id = some order_id;
          user_id = some request.user_id;
          items = some request.items;
          total_price = some total_price;
          amount = none;
          reason = none;
          timestamp = none;
        })
        s'

  -- The rest of `create_new_order`.
  unfoldable pub confirm_order :
      (ℕ → String) → String → Exec (System F) ServiceError (Option (Order F))
  confirm_order now order_id s =
      let s' = update_order_status now order_id payment_processing "" s in
      (ok (get_order order_id s'), s')

  -- `create_new_order`: `meanwhile` is what the other tasks do while the send is awaited.
  unfoldable pub create_new_order :
      Floats F
      → Env
      → (System F → System F)
      → String
      → CreateOrderRequest F
      → Exec (System F) ServiceError (Option (Order F))
  create_new_order float env meanwhile order_id request = do
    place_order float env order_id request
    (λ s. (ok tt, meanwhile s))
    confirm_order (λ n. env.now (n + 3)) order_id

  -- `get_order_detail`
  unfoldable pub get_order_detail : String → System F → Lookup F
  get_order_detail order_id s = elim (get_order order_id s) [
    | none ↦ not_found order_id
    | some order ↦ found order
  ]
