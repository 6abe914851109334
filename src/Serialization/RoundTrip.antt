-- ===== src/Serialization/RoundTrip.antt =====
-- An event that is sent arrives as it was: through `json_serializer`, `json_deserializer` and
-- `model_validate`.
use fastapi_kafka_guide.Prelude.{◌≡◌, refl, some, List, [], ◌∷◌, All}
use fastapi_kafka_guide.Python.Utf8.{Str, Bytes}
use fastapi_kafka_guide.Python.Json.Numbers.{FloatCodec}
use fastapi_kafka_guide.Python.Json.Parser.{parsed}
use fastapi_kafka_guide.Python.Json.Bytes.{from_bytes-to_bytes}
use fastapi_kafka_guide.Python.Json.Values.{Value, get_field, same}
use fastapi_kafka_guide.Serialization.Serializers.{json_serializer, json_deserializer}
use fastapi_kafka_guide.Serialization.Events.{
  UserCreatedEvent, OrderItem, OrderPlacedEvent, user_object, order_object, Pydantic, validate_user,
  validate_item, validate_items, validate_order,
}
use fastapi_kafka_guide.Serialization.Sound.{
  Documented, UserIsText, ItemIsSound, OrderIsSound, user_value, item_value, item_values,
  order_value, to_value-user, to_value-order, user-IsLoadable, order-IsLoadable,
}

module _ {F D : Type 0} (codec : FloatCodec F) (isoformat : D → Str) (py : Pydantic F D)
    (laws : Documented py isoformat) where
  validate-user_value :
      (fresh : Str) (now : D) (e : UserCreatedEvent D)
      → validate_user py fresh now (user_value codec isoformat e) ≡ some e
  unfolding validate_user get_field same
  validate-user_value fresh now e =
      rw
        (
          laws.text_taken e.event_id,
          laws.text_taken e.user_id,
          laws.text_taken e.username,
          laws.text_taken e.email,
          laws.time_read e.created_at,
        )
        refl

  validate-item_value :
      (i : OrderItem F)
      → ItemIsSound codec py i
      → validate_item py (item_value codec isoformat i) ≡ some i
  unfolding validate_item get_field same
  validate-item_value i h =
      rw
        (
          laws.text_taken i.product_id,
          laws.text_taken i.product_name,
          laws.int_taken i.quantity,
          h.positive,
          laws.float_taken i.price,
          h.nonneg,
        )
        refl

  validate-item_values :
      (is : List (OrderItem F))
      → All (ItemIsSound codec py) is
      → validate_items py (item_values codec isoformat is) ≡ some is
  unfolding validate_items
  validate-item_values [] h = refl
  validate-item_values (i ∷ is) h = rw (validate-item_value i h.0, validate-item_values is h.1) refl

  validate-order_value :
      (fresh : Str) (now : D) (e : OrderPlacedEvent F D)
      → OrderIsSound codec py e
      → validate_order py fresh now (order_value codec isoformat e) ≡ some e
  unfolding validate_order get_field same
  validate-order_value fresh now e h =
      rw
        (
          laws.text_taken e.event_id,
          laws.text_taken e.order_id,
          laws.text_taken e.user_id,
          validate-item_values e.items h.items,
          laws.float_taken e.total_price,
          h.nonneg,
          laws.time_read e.created_at,
        )
        refl

  -- A `UserCreatedEvent` whose texts have no surrogates is serialized without an error, and what
  -- arrives is deserialized and validated to the same event.
  pub user_event_arrives :
      (fresh : Str) (now : D) (e : UserCreatedEvent D)
      → UserIsText e
      → (bs : Bytes) × (v : Value F) × (json_serializer codec isoformat (user_object e) ≡ some bs)
        × (json_deserializer codec (some bs) ≡ parsed v)
        × (validate_user py fresh now v ≡ some e)
  unfolding json_serializer json_deserializer
  user_event_arrives fresh now e h =
      let (bs, sent, read) =
        from_bytes-to_bytes codec (user_value codec isoformat e)
          (user-IsLoadable codec isoformat e h (laws.time_plain e.created_at)) in
      (
        bs,
        user_value codec isoformat e,
        rw (to_value-user codec isoformat e) sent,
        read,
        validate-user_value fresh now e,
      )

  -- An `OrderPlacedEvent`, its items included, is serialized without an error and arrives as the same
  -- event, when its texts have no surrogates and its floats are finite and not negative.
  pub order_event_arrives :
      (fresh : Str) (now : D) (e : OrderPlacedEvent F D)
      → OrderIsSound codec py e
      → (bs : Bytes) × (v : Value F) × (json_serializer codec isoformat (order_object e) ≡ some bs)
        × (json_deserializer codec (some bs) ≡ parsed v)
        × (validate_order py fresh now v ≡ some e)
  unfolding json_serializer json_deserializer
  order_event_arrives fresh now e h =
      let (bs, sent, read) =
        from_bytes-to_bytes codec (order_value codec isoformat e)
          (order-IsLoadable codec isoformat py e h (laws.time_plain e.created_at)) in
      (
        bs,
        order_value codec isoformat e,
        rw (to_value-order codec isoformat e) sent,
        read,
        validate-order_value fresh now e h,
      )
