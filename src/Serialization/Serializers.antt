-- ===== src/Serialization/Serializers.antt =====
-- app/serializers.py: Python objects to JSON bytes and back. A datetime is of a type of its own, with
-- `isoformat`.
use fastapi_kafka_guide.Prelude.{Option, none, some}
use mathlib.Core.Option
use fastapi_kafka_guide.Python.Utf8.{Str, Bytes, encode, decode}
use fastapi_kafka_guide.Python.Json.Numbers.{FloatCodec}
use fastapi_kafka_guide.Python.Json.Values.{
  Value, Items, Fields, str, array, object, no_items, item, no_fields, field,
}
use fastapi_kafka_guide.Python.Json.Parser.{Parsed, parsed}
use fastapi_kafka_guide.Python.Json.Bytes.{to_bytes, from_bytes}

-- The objects that reach the serializer: what JSON has, datetimes, Pydantic models, and any other.
mutual
  pub data Object (F D : Type 0) : Type 0 where
    plain : Value F → Object F D
    datetime : D → Object F D
    list : Objects F D → Object F D
    dict : Attributes F D → Object F D
    model : Attributes F D → Object F D
    unsupported : Object F D

  pub data Objects (F D : Type 0) : Type 0 where
    nil : Objects F D
    cons : Object F D → Objects F D → Objects F D

  pub data Attributes (F D : Type 0) : Type 0 where
    none_left : Attributes F D
    attribute : Str → Object F D → Attributes F D → Attributes F D

infixl 5 ◌>>=◌
abbrev pub ◌>>=◌ : {A B : Type 0} → Option A → (A → Option B) → Option B
none >>= f = none
some a >>= f = f a

module _ {F D : Type 0} where
  -- Pydantic's `model_dump`: the models inside become dicts too, the datetimes stay.
  unfoldable mutual
    pub model_dump : Object F D → Object F D
    model_dump (plain v) = plain v
    model_dump (datetime d) = datetime d
    model_dump (list xs) = list (dump_list xs)
    model_dump (dict attrs) = dict (dump_attributes attrs)
    model_dump (model attrs) = dict (dump_attributes attrs)
    model_dump unsupported = unsupported

    pub dump_list : Objects F D → Objects F D
    dump_list nil = nil
    dump_list (cons x xs) = cons (model_dump x) (dump_list xs)

    pub dump_attributes : Attributes F D → Attributes F D
    dump_attributes none_left = none_left
    dump_attributes (attribute k x attrs) = attribute k (model_dump x) (dump_attributes attrs)

  -- What `json.dumps` writes of an object: `_default_serializer` gives what JSON lacks, and raises on the
  -- rest.
  unfoldable mutual
    pub to_value : (D → Str) → Object F D → Option (Value F)
    to_value isoformat (plain v) = some v
    to_value isoformat (datetime d) = some (str (isoformat d))
    to_value isoformat (list xs) = Option.map array (to_items isoformat xs)
    to_value isoformat (dict attrs) = Option.map object (to_fields isoformat attrs)
    to_value isoformat (model attrs) = Option.map object (to_fields isoformat attrs)
    to_value isoformat unsupported = none

    pub to_items : (D → Str) → Objects F D → Option (Items F)
    to_items isoformat nil = some no_items
    to_items isoformat (cons x xs) = do
      v ← to_value isoformat x
      rest ← to_items isoformat xs
      some (item v rest)

    pub to_fields : (D → Str) → Attributes F D → Option (Fields F)
    to_fields isoformat none_left = some no_fields
    to_fields isoformat (attribute k x attrs) = do
      v ← to_value isoformat x
      rest ← to_fields isoformat attrs
      some (field k v rest)

  -- `data`: a model is dumped first, anything else is taken as it is.
  abbrev pub data_of : Object F D → Object F D
  data_of (model attrs) = model_dump (model attrs)
  data_of x = x

  -- `none` is a raised `TypeError` or `UnicodeEncodeError`.
  unfoldable pub json_serializer : FloatCodec F → (D → Str) → Object F D → Option Bytes
  json_serializer codec isoformat value = to_value isoformat (data_of value) >>= to_bytes codec

module _ {F : Type 0} where
  -- `none` is no message value.
  unfoldable pub json_deserializer : FloatCodec F → Option Bytes → Parsed (Value F)
  json_deserializer codec none = parsed (object no_fields)
  json_deserializer codec (some bs) = from_bytes codec bs

-- A key: none, a text, or another object with its `str`.
pub data Key : Type 0 where
  no_key : Key
  text_key : Str → Key
  other_key : Str → Key

-- The outer `none` is a raised error, the inner one a message without a key.
unfoldable pub key_serializer : Key → Option (Option Bytes)
key_serializer no_key = some none
key_serializer (text_key s) = Option.map some (encode s)
key_serializer (other_key shown) = Option.map some (encode shown)

unfoldable pub key_deserializer : Option Bytes → Option (Option Str)
key_deserializer none = some none
key_deserializer (some bs) = Option.map some (decode bs)
