-- ===== src/Serialization/Constraints.antt =====
-- What a validated event is sure to satisfy.
use fastapi_kafka_guide.Prelude.{◌≡◌, true, ◌&&◌, Option, none, some, List}
use fastapi_kafka_guide.Serialization.Events.{OrderItem, OrderPlacedEvent, Pydantic, is_positive}
use fastapi_kafka_guide.Serialization.Api.{items_valid, event_valid}

-- `P` holds of the value, if there is one.
abbrev pub Holds : {A : Type 0} → (A → Type 0) → Option A → Type 0
Holds P none = Unit
Holds P (some a) = P a

module _ {F D : Type 0} (py : Pydantic F D) where
  abbrev ValidItem : OrderItem F → Type 0
  ValidItem i = (is_positive i.quantity && py.is_nonneg i.price) ≡ true

  abbrev ValidItems : List (OrderItem F) → Type 0
  ValidItems is = items_valid py is ≡ true

  abbrev ValidOrder : OrderPlacedEvent F D → Type 0
  ValidOrder e = event_valid py e ≡ true
