-- ===== src/Saga/Events.antt =====
-- 09-saga-pattern-order-system/shared/events.py, and what each service keeps. Amounts are floats: a
-- type with the operations that the services use on them. A field that an event lacks is `none`, as a
-- null is.
use fastapi_kafka_guide.Prelude.{ℕ, String, Bool, Option, List}
use fastapi_kafka_guide.Prelude.Int.{ℤ}
use fastapi_kafka_guide.Prelude.Dict.{Dict}
use fastapi_kafka_guide.Messaging.{SendOutcome}

-- Python's `float` as the services use it.
pub record Floats (F : Type 0) : Type 0 where
  pub zero_amount : F
  pub times : F → ℤ → F
  pub plus : F → F → F
  pub shown : F → String

pub record OrderItem (F : Type 0) : Type 0 where
  pub product_id : String
  pub product_name : String
  pub quantity : ℤ
  pub price : F

-- The literals of `event_type`; `other` is any other text.
pub data EventType : Type 0 where
  order_created : EventType
  payment_completed payment_failed : EventType
  inventory_reserved inventory_failed : EventType
  refund_requested refund_completed refund_failed : EventType
  other : String → EventType

pub data Topic : Type 0 where
  order_created payment_result inventory_result refund_request refund_result : Topic

-- The fields of all the event classes.
pub record Event (F : Type 0) : Type 0 where
  pub event_type : EventType
  pub order_id : Option String
  pub user_id : Option String
  pub items : Option (List (OrderItem F))
  pub total_price : Option F
  pub amount : Option F
  pub reason : Option String
  pub timestamp : Option String

-- A record in Kafka: its topic, its key and its value.
pub record Record (F : Type 0) : Type 0 where
  pub topic : Topic
  pub key : Option String
  pub value : Event F

pub data OrderStatus : Type 0 where
  created payment_processing payment_failed inventory_processing completed failed : OrderStatus
  compensating compensated compensation_failed : OrderStatus

pub record HistoryEntry : Type 0 where
  pub status : OrderStatus
  pub timestamp : String
  pub reason : Option String

pub record Order (F : Type 0) : Type 0 where
  pub order_id : String
  pub user_id : String
  pub items : List (OrderItem F)
  pub total_price : F
  pub status : OrderStatus
  pub created_at : String
  pub updated_at : String
  pub status_history : List HistoryEntry

-- A row of `payments_db`.
pub record PaymentRecord (F : Type 0) : Type 0 where
  pub order_id : Option String
  pub user_id : String
  pub amount : F
  pub status : String
  pub reason : Option String
  pub processed_at : String

-- A row of `refunds_db`.
pub record RefundRecord (F : Type 0) : Type 0 where
  pub order_id : Option String
  pub amount : F
  pub status : String
  pub reason : String
  pub processed_at : String

-- A row of `inventory_db`.
pub record InventoryRecord : Type 0 where
  pub order_id : Option String
  pub status : String
  pub reason : Option String
  pub processed_at : String

-- The memory of the three services and what Kafka holds; a service's producer is started or not.
pub record System (F : Type 0) : Type 0 where
  pub orders_db : Dict (Order F)
  pub payments_db : List (PaymentRecord F)
  pub refunds_db : List (RefundRecord F)
  pub inventory_db : List InventoryRecord
  pub order_producer : Bool
  pub payment_producer : Bool
  pub inventory_producer : Bool
  pub log : List (Record F)

-- What a handler meets: the readings of the clock in their order, `random.random()` as a numerator
-- over 2 ^ 53, and how its send ends.
pub record Env : Type 0 where
  pub now : ℕ → String
  pub draw : ℕ
  pub send : SendOutcome
