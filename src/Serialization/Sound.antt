-- ===== src/Serialization/Sound.antt =====
-- The events that survive being sent, and the JSON values that they are sent as.
use fastapi_kafka_guide.Prelude.{String, ◌≡◌, refl, true, some, List, [], ◌∷◌, All}
use fastapi_kafka_guide.Prelude.Int.{ℤ}
use fastapi_kafka_guide.Python.Utf8.{Str, IsText, text}
use fastapi_kafka_guide.Python.Utf8.RoundTrip.{all_scalar, IsText-all_scalar}
use fastapi_kafka_guide.Python.Json.Numbers.{FloatCodec, IsFinite}
use fastapi_kafka_guide.Python.Json.Entries.{IsLoadable, AllLoadable}
use fastapi_kafka_guide.Python.Json.Values.{
  Value, Items, str, int, float, array, object, no_items, item, no_fields, field, set_field,
  set_fields, same,
}
use fastapi_kafka_guide.Serialization.Serializers.{
  to_value, to_items, data_of, dump_list, model_dump,
}
use fastapi_kafka_guide.Serialization.Events.{
  UserCreatedEvent, OrderItem, OrderPlacedEvent, user_object, item_object, item_objects,
  order_object, Pydantic, is_positive,
}

-- What Pydantic and `datetime` document: a field takes a value of its own type as it is, and reads the
-- ISO text of a time as that time.
pub record Documented {F D : Type 0} (py : Pydantic F D) (isoformat : D → Str) : Type 0 where
  pub text_taken : (s : Str) → py.to_text (str s) ≡ some s
  pub int_taken : (i : ℤ) → py.to_int (int i) ≡ some i
  pub float_taken : (x : F) → py.to_float (float x) ≡ some x
  pub time_read : (d : D) → py.to_datetime (str (isoformat d)) ≡ some d
  pub time_plain : (d : D) → IsText (isoformat d)

-- The names of the fields are texts.
key : (k : String) → all_scalar (text k) ≡ true → IsText (text k)
key k h = IsText-all_scalar (text k) h

module _ {D : Type 0} where
  -- Texts without surrogates.
  pub record UserIsText (e : UserCreatedEvent D) : Type 0 where
    pub event_id : IsText e.event_id
    pub user_id : IsText e.user_id
    pub username : IsText e.username
    pub email : IsText e.email

module _ {F D : Type 0} (codec : FloatCodec F) (py : Pydantic F D) where
  -- Texts without surrogates, a finite price, and what the fields' constraints ask for.
  pub record ItemIsSound (i : OrderItem F) : Type 0 where
    pub product_id : IsText i.product_id
    pub product_name : IsText i.product_name
    pub price : IsFinite codec i.price
    pub positive : is_positive i.quantity ≡ true
    pub nonneg : py.is_nonneg i.price ≡ true

  pub record OrderIsSound (e : OrderPlacedEvent F D) : Type 0 where
    pub event_id : IsText e.event_id
    pub order_id : IsText e.order_id
    pub user_id : IsText e.user_id
    pub items : All ItemIsSound e.items
    pub total_price : IsFinite codec e.total_price
    pub nonneg : py.is_nonneg e.total_price ≡ true

module _ {F D : Type 0} (codec : FloatCodec F) (isoformat : D → Str) where
  -- An event as the JSON value that is sent.
  abbrev pub user_value : UserCreatedEvent D → Value F
  user_value e = object (
      field (text "event_id") (str e.event_id) (
        field (text "user_id") (str e.user_id) (
          field (text "username") (str e.username) (
            field (text "email") (str e.email)
              (field (text "created_at") (str (isoformat e.created_at)) no_fields)))))

  abbrev pub item_value : OrderItem F → Value F
  item_value i = object (
      field (text "product_id") (str i.product_id) (
        field (text "product_name") (str i.product_name) (
          field (text "quantity") (int i.quantity)
            (field (text "price") (float i.price) no_fields))))

  abbrev pub item_values : List (OrderItem F) → Items F
  item_values [] = no_items
  item_values (i ∷ is) = item (item_value i) (item_values is)

  abbrev pub order_value : OrderPlacedEvent F D → Value F
  order_value e = object (
      field (text "event_id") (str e.event_id) (
        field (text "order_id") (str e.order_id) (
          field (text "user_id") (str e.user_id) (
            field (text "items") (array (item_values e.items)) (
              field (text "total_price") (float e.total_price)
                (field (text "created_at") (str (isoformat e.created_at)) no_fields))))))

  pub to_value-user :
      (e : UserCreatedEvent D)
      → to_value isoformat (data_of (user_object {F = F} e)) ≡ some (user_value e)
  unfolding to_value model_dump user_object
  to_value-user e = refl

  pub to_items-item_objects :
      (is : List (OrderItem F))
      → to_items isoformat (dump_list (item_objects is)) ≡ some (item_values is)
  unfolding to_value model_dump item_objects item_object
  to_items-item_objects [] = refl
  to_items-item_objects (i ∷ is) = rw (to_items-item_objects is) refl

  pub to_value-order :
      (e : OrderPlacedEvent F D)
      → to_value isoformat (data_of (order_object e)) ≡ some (order_value e)
  unfolding to_value model_dump order_object
  to_value-order e = rw (to_items-item_objects e.items) refl

  pub user-IsLoadable :
      (e : UserCreatedEvent D)
      → UserIsText e
      → IsText (isoformat e.created_at)
      → IsLoadable codec (user_value e)
  unfolding IsLoadable set_fields set_field same
  user-IsLoadable e h t = (
    (
      key "event_id" refl,
      h.event_id,
      (
        key "user_id" refl,
        h.user_id,
        (
          key "username" refl,
          h.username,
          (key "email" refl, h.email, (key "created_at" refl, t, tt)),
        ),
      ),
    ),
    refl,
  )

  pub item-IsLoadable :
      (py : Pydantic F D) (i : OrderItem F)
      → ItemIsSound codec py i
      → IsLoadable codec (item_value i)
  unfolding IsLoadable set_fields set_field same
  item-IsLoadable py i h = (
    (
      key "product_id" refl,
      h.product_id,
      (
        key "product_name" refl,
        h.product_name,
        (key "quantity" refl, tt, (key "price" refl, h.price, tt)),
      ),
    ),
    refl,
  )

  pub items-IsLoadable :
      (py : Pydantic F D) (is : List (OrderItem F))
      → All (ItemIsSound codec py) is
      → AllLoadable codec (item_values is)
  unfolding IsLoadable
  items-IsLoadable py [] h = tt
  items-IsLoadable py (i ∷ is) h = (item-IsLoadable py i h.0, items-IsLoadable py is h.1)

  pub order-IsLoadable :
      (py : Pydantic F D) (e : OrderPlacedEvent F D)
      → OrderIsSound codec py e
      → IsText (isoformat e.created_at)
      → IsLoadable codec (order_value e)
  unfolding IsLoadable set_fields set_field same
  order-IsLoadable py e h t = (
    (
      key "event_id" refl,
      h.event_id,
      (
        key "order_id" refl,
        h.order_id,
        (
          key "user_id" refl,
          h.user_id,
          (
            key "items" refl,
            items-IsLoadable py e.items h.items,
            (key "total_price" refl, h.total_price, (key "created_at" refl, t, tt)),
          ),
        ),
      ),
    ),
    refl,
  )
