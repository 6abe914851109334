-- ===== src/Saga/Steps.antt =====
-- The saga as a whole: the event loop of each service may take up any record that Kafka holds, in any
-- order and as often as it is delivered, between any two steps of the requests.
use fastapi_kafka_guide.Prelude.{ℕ, String, ◌≡◌, none, In}
use fastapi_kafka_guide.Prelude.Dict
use fastapi_kafka_guide.Saga.Events.{Floats, Topic, Record, System, Env}
use fastapi_kafka_guide.Saga.OrderService.{
  CreateOrderRequest, place_order, confirm_order, process_message,
}
use fastapi_kafka_guide.Saga.PaymentService.{dispatch}
use fastapi_kafka_guide.Saga.InventoryService.{process_payment_result}

module _ {F : Type 0} (float : Floats F) where
  -- An id of `uuid4` is new. A handler that raises has done what it did before.
  pub data Step (s : System F) : System F → Type 0 where
    place :
        (env : Env) (order_id : String) (request : CreateOrderRequest F)
        → Dict.get s.orders_db order_id ≡ none
        → Step s (place_order float env order_id request s).1
    confirm : (now : ℕ → String) (order_id : String) → Step s (confirm_order now order_id s).1
    order : (env : Env) (r : Record F) → In r s.log → Step s (process_message float env r s).1
    payment :
        (env : Env) (r : Record F) → In r s.log → Step s (dispatch float env r.topic r.value s).1
    inventory :
        (env : Env) (r : Record F)
        → In r s.log
        → r.topic ≡ Topic.payment_result
        → Step s (process_payment_result env r.value s).1

  pub data Reach (s : System F) : System F → Type 0 where
    here : Reach s s
    next : {t u : System F} → Reach s t → Step t u → Reach s u
