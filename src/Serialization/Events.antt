-- ===== src/Serialization/Events.antt =====
-- shared/events.py: the event models, what `model_dump` sees of them, and `model_validate`. How Pydantic
-- converts a value to a field's type is a parameter.
use fastapi_kafka_guide.Prelude.{
  String, Bool, false, Option, none, some, List, [], ◌∷◌, ltb, if◌then◌else◌,
}
use fastapi_kafka_guide.Prelude.Int.{ℤ, pos, negsuc}
use fastapi_kafka_guide.Python.Utf8.{Str, text}
use fastapi_kafka_guide.Python.Json.Values.{
  Value, Items, Fields, str, int, float, array, object, no_items, item, get_field,
}
use fastapi_kafka_guide.Serialization.Serializers.{
  Object, Objects, Attributes, plain, datetime, list, model, nil, cons, none_left, attribute, ◌>>=◌,
}

pub record UserCreatedEvent (D : Type 0) : Type 0 where
  pub event_id : Str
  pub user_id : Str
  pub username : Str
  pub email : Str
  pub created_at : D

pub record OrderItem (F : Type 0) : Type 0 where
  pub product_id : Str
  pub product_name : Str
  pub quantity : ℤ
  pub price : F

pub record OrderPlacedEvent (F D : Type 0) : Type 0 where
  pub event_id : Str
  pub order_id : Str
  pub user_id : Str
  pub items : List (OrderItem F)
  pub total_price : F
  pub created_at : D

module _ {F D : Type 0} where
  abbrev text_attribute : String → Str → Attributes F D → Attributes F D
  text_attribute k s rest = attribute (text k) (plain (str s)) rest

  -- The models as objects, their fields in the order of their declaration.
  unfoldable pub user_object : UserCreatedEvent D → Object F D
  user_object e = model (
      text_attribute "event_id" e.event_id (
        text_attribute "user_id" e.user_id (
          text_attribute "username" e.username (
            text_attribute "email" e.email
              (attribute (text "created_at") (datetime e.created_at) none_left)))))

  unfoldable pub item_object : OrderItem F → Object F D
  item_object i = model (
      text_attribute "product_id" i.product_id (
        text_attribute "product_name" i.product_name (
          attribute (text "quantity") (plain (int i.quantity))
            (attribute (text "price") (plain (float i.price)) none_left))))

  unfoldable pub item_objects : List (OrderItem F) → Objects F D
  item_objects [] = nil
  item_objects (i ∷ is) = cons (item_object i) (item_objects is)

  unfoldable pub order_object : OrderPlacedEvent F D → Object F D
  order_object e = model (
      text_attribute "event_id" e.event_id (
        text_attribute "order_id" e.order_id (
          text_attribute "user_id" e.user_id (
            attribute (text "items") (list (item_objects e.items)) (
              attribute (text "total_price") (plain (float e.total_price))
                (attribute (text "created_at") (datetime e.created_at) none_left))))))

-- How Pydantic converts a JSON value to a field's type, and `>= 0` on floats.
pub record Pydantic (F D : Type 0) : Type 0 where
  pub to_text : Value F → Option Str
  pub to_int : Value F → Option ℤ
  pub to_float : Value F → Option F
  pub to_datetime : Value F → Option D
  pub is_nonneg : F → Bool

-- `ge=1`
abbrev pub is_positive : ℤ → Bool
is_positive (pos n) = ltb 0 n
is_positive (negsuc n) = false

abbrev pub checked : {A : Type 0} → (A → Bool) → A → Option A
checked test a = if test a then some a else none

module _ {F : Type 0} where
  -- A required field; a missing one is an error.
  abbrev pub required : {A : Type 0} → Fields F → String → (Value F → Option A) → Option A
  required fs k convert = get_field fs (text k) >>= convert

  abbrev pub or_default : {A : Type 0} → Option (Value F) → (Value F → Option A) → A → Option A
  or_default none convert default = some default
  or_default (some v) convert default = convert v

  -- A field with a `default_factory`.
  abbrev pub defaulted : {A : Type 0} → Fields F → String → (Value F → Option A) → A → Option A
  defaulted fs k convert default = or_default (get_field fs (text k)) convert default

module _ {F D : Type 0} where
  -- `model_validate`: `none` is a raised `ValidationError`. `fresh` and `now` are what the factories give.
  unfoldable pub validate_user : Pydantic F D → Str → D → Value F → Option (UserCreatedEvent D)
  validate_user py fresh now (object fs) = do
    event_id ← defaulted fs "event_id" py.to_text fresh
    user_id ← required fs "user_id" py.to_text
    username ← required fs "username" py.to_text
    email ← required fs "email" py.to_text
    created_at ← defaulted fs "created_at" py.to_datetime now
    some (record {
      event_id = event_id;
      user_id = user_id;
      username = username;
      email = email;
      created_at = created_at;
    })
  validate_user py fresh now _ = none

  unfoldable pub validate_item : Pydantic F D → Value F → Option (OrderItem F)
  validate_item py (object fs) = do
    product_id ← required fs "product_id" py.to_text
    product_name ← required fs "product_name" py.to_text
    quantity ← required fs "quantity" (λ v. py.to_int v >>= checked is_positive)
    price ← required fs "price" (λ v. py.to_float v >>= checked py.is_nonneg)
    some (record {
      product_id = product_id;
      product_name = product_name;
      quantity = quantity;
      price = price;
    })
  validate_item py _ = none

  unfoldable pub validate_items : Pydantic F D → Items F → Option (List (OrderItem F))
  validate_items py no_items = some []
  validate_items py (item v vs) = do
    i ← validate_item py v
    is ← validate_items py vs
    some (i ∷ is)

  -- `List[OrderItem]` takes a list only.
  abbrev pub validate_list : Pydantic F D → Value F → Option (List (OrderItem F))
  validate_list py (array vs) = validate_items py vs
  validate_list py _ = none

  unfoldable pub validate_order : Pydantic F D → Str → D → Value F → Option (OrderPlacedEvent F D)
  validate_order py fresh now (object fs) = do
    event_id ← defaulted fs "event_id" py.to_text fresh
    order_id ← required fs "order_id" py.to_text
    user_id ← required fs "user_id" py.to_text
    items ← required fs "items" (validate_list py)
    total_price ← required fs "total_price" (λ v. py.to_float v >>= checked py.is_nonneg)
    created_at ← defaulted fs "created_at" py.to_datetime now
    some (record {
      event_id = event_id;
      order_id = order_id;
      user_id = user_id;
      items = items;
      total_price = total_price;
      created_at = created_at;
    })
  validate_order py fresh now _ = none
