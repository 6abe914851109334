-- ===== src/MultiService/Events.antt =====
-- 11-multi-service-architecture/shared/events.py: the events as the services read them. A field that an
-- event lacks is `none`, as a null is; amounts are the floats of Saga.Events.
use fastapi_kafka_guide.Prelude.{String, Option, List}
use fastapi_kafka_guide.Prelude.Int.{ℤ}

pub data EventType : Type 0 where
  order_created order_cancelled : EventType
  payment_completed payment_failed : EventType
  inventory_reserved inventory_failed : EventType
  notification_sent : EventType
  other : String → EventType

pub data Topic : Type 0 where
  order_created payment_result inventory_result notification : Topic

pub record OrderItem (F : Type 0) : Type 0 where
  pub product_id : String
  pub product_name : String
  pub quantity : ℤ
  pub price : F

-- The fields of all the event classes.
pub record Event (F : Type 0) : Type 0 where
  pub event_type : EventType
  pub order_id : Option String
  pub user_id : Option String
  pub items : Option (List (OrderItem F))
  pub total_price : Option F
  pub shipping_address : Option String
  pub amount : Option F
  pub payment_method : Option String
  pub transaction_id : Option String
  pub reason : Option String
  pub warehouse_id : Option String
  pub failed_items : Option (List String)
  pub timestamp : Option String

-- A record in Kafka: its topic, its key and its value.
pub record Record (F : Type 0) : Type 0 where
  pub topic : Topic
  pub key : String
  pub value : Event F
