-- ===== src/Serialization/Api.antt =====
-- app/schemas.py and app/main.py: the requests, and the endpoints that send events.
use fastapi_kafka_guide.Prelude.{
  String, Bool, true, ◌&&◌, not, Option, none, some, List, [], ◌∷◌, ◌++◌, map, if◌then◌else◌,
  Result, ok, err,
}
use fastapi_kafka_guide.Prelude.Int.{ℤ}
use fastapi_kafka_guide.Messaging.{SendOutcome, acked, refused, unacked}
use fastapi_kafka_guide.Python.Utf8.{Str, Bytes, text}
use fastapi_kafka_guide.Python.Json.Numbers.{FloatCodec}
use fastapi_kafka_guide.Serialization.Serializers.{
  Object, json_serializer, text_key, key_serializer, ◌>>=◌,
}
use fastapi_kafka_guide.Serialization.Events.{
  UserCreatedEvent, OrderItem, OrderPlacedEvent, user_object, order_object, Pydantic, is_positive,
}

pub record CreateUserRequest : Type 0 where
  pub user_id : Str
  pub username : Str
  pub email : Str

pub record OrderItemRequest (F : Type 0) : Type 0 where
  pub product_id : Str
  pub product_name : Str
  pub quantity : ℤ
  pub price : F

pub record CreateOrderRequest (F : Type 0) : Type 0 where
  pub order_id : Str
  pub user_id : Str
  pub items : List (OrderItemRequest F)

pub record EventResponse : Type 0 where
  pub status : String
  pub event_id : Str
  pub topic : String
  pub message : Str

-- `*` of a price by a quantity, `+`, the 0 that a sum starts from, and the format `,.0f`.
pub record Arithmetic (F : Type 0) : Type 0 where
  pub zero_amount : F
  pub times : ℤ → F → F
  pub plus : F → F → F
  pub rounded : F → Str

pub record Sent : Type 0 where
  pub topic : String
  pub key : Option Bytes
  pub value : Bytes
  pub headers : List (String × Bytes)

-- Why a request fails: 503, or an error that becomes 500: of the event model, a serializer, or the send.
pub data ApiError : Type 0 where
  producer_not_ready invalid_event serialization_failed send_failed : ApiError

-- `send_and_wait` of serialized bytes, on the records that Kafka holds.
unfoldable pub deliver : SendOutcome → Sent → List Sent → Result ApiError (Unit {0}) × List Sent
deliver acked r log = (ok tt, log ++ r ∷ [])
deliver refused r log = (err send_failed, log)
deliver unacked r log = (err send_failed, log ++ r ∷ [])

abbrev pub headers_of : String → String → List (String × Bytes)
headers_of event_type source =
    ("event_type", text event_type)
    ∷ ("source", text source)
    ∷ ("content_type", text "application/json")
    ∷ []

module _ {F D : Type 0} where
  -- The producer's serializers run first.
  abbrev pub serialized :
      FloatCodec F → (D → Str) → String → Str → Object F D → List (String × Bytes) → Option Sent
  serialized codec isoformat topic key value headers = key_serializer (text_key key) >>= λ k.
      json_serializer codec isoformat value >>= λ v.
      some (record { topic = topic; key = k; value = v; headers = headers })

abbrev pub then_answer :
    Result ApiError (Unit {0}) × List Sent
    → EventResponse
    → Result ApiError EventResponse × List Sent
then_answer (ok _, log) answer = (ok answer, log)
then_answer (err e, log) answer = (err e, log)

abbrev pub send_serialized :
    Option Sent
    → SendOutcome
    → EventResponse
    → List Sent
    → Result ApiError EventResponse × List Sent
send_serialized none outcome answer log = (err serialization_failed, log)
send_serialized (some r) outcome answer log = then_answer (deliver outcome r log) answer

module _ {F D : Type 0} where
  -- `POST /users`. `fresh` and `now` are what the factories give to the event.
  unfoldable pub create_user :
      FloatCodec F
      → (D → Str)
      → Bool
      → Str
      → D
      → SendOutcome
      → CreateUserRequest
      → List Sent
      → Result ApiError EventResponse × List Sent
  create_user codec isoformat producer fresh now outcome request log =
      let event : UserCreatedEvent D = record {
        event_id = fresh;
        user_id = request.user_id;
        username = request.username;
        email = request.email;
        created_at = now;
      } in
      let answer : EventResponse = record {
        status = "success";
        event_id = fresh;
        topic = "user-events";
        message = text "사용자 '" ++ (request.username ++ text "' 생성 이벤트가 전송되었습니다");
      } in
      let value =
        serialized codec isoformat "user-events" event.user_id (user_object event)
          (headers_of "user_created" "user-service") in
      if not producer
      then (err producer_not_ready, log)
      else send_serialized value outcome answer log

abbrev pub order_item : {F : Type 0} → OrderItemRequest F → OrderItem F
order_item i = record {
  product_id = i.product_id;
  product_name = i.product_name;
  quantity = i.quantity;
  price = i.price;
}

-- `sum(item.quantity * item.price for item in items)`, from the left.
unfoldable pub sum_prices : {F : Type 0} → Arithmetic F → F → List (OrderItem F) → F
sum_prices floats total [] = total
sum_prices floats total (i ∷ is) =
    sum_prices floats (floats.plus total (floats.times i.quantity i.price)) is

module _ {F D : Type 0} where
  abbrev pub placed_event : Arithmetic F → Str → D → CreateOrderRequest F → OrderPlacedEvent F D
  placed_event floats fresh now request =
      let items = map order_item request.items in
      record {
        event_id = fresh;
        order_id = request.order_id;
        user_id = request.user_id;
        items = items;
        total_price = sum_prices floats floats.zero_amount items;
        created_at = now;
      }

  -- The constraints that the models `OrderItem` and `OrderPlacedEvent` check when they are built.
  abbrev pub items_valid : Pydantic F D → List (OrderItem F) → Bool
  items_valid py [] = true
  items_valid py (i ∷ is) = (is_positive i.quantity && py.is_nonneg i.price) && items_valid py is

  abbrev pub event_valid : Pydantic F D → OrderPlacedEvent F D → Bool
  event_valid py e = items_valid py e.items && py.is_nonneg e.total_price

  -- `POST /orders`
  unfoldable pub create_order :
      FloatCodec F
      → (D → Str)
      → Pydantic F D
      → Arithmetic F
      → Bool
      → Str
      → D
      → SendOutcome
      → CreateOrderRequest F
      → List Sent
      → Result ApiError EventResponse × List Sent
  create_order codec isoformat py floats producer fresh now outcome request log =
      let event = placed_event floats fresh now request in
      let answer : EventResponse = record {
        status = "success";
        event_id = fresh;
        topic = "order-events";
        message =
            text "주문 '"
            ++ (request.order_id
                ++ (text "' 이벤트가 전송되었습니다 (총액: "
                    ++ (floats.rounded event.total_price ++ text "원)")));
      } in
      let value =
        serialized codec isoformat "order-events" event.order_id (order_object event)
          (headers_of "order_placed" "order-service") in
      if not producer
      then (err producer_not_ready, log)
      else if not (event_valid py event)
      then (err invalid_event, log)
      else send_serialized value outcome answer log
