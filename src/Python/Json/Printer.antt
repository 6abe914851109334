-- ===== src/Python/Json/Printer.antt =====
-- `json.dumps` with `ensure_ascii=False` and its default separators.
use fastapi_kafka_guide.Prelude.{Bool, true, false, [], ◌∷◌, ◌++◌, if◌then◌else◌}
use fastapi_kafka_guide.Python.Utf8.{Str}
use fastapi_kafka_guide.Python.Json.Strings.{show_string}
use fastapi_kafka_guide.Python.Json.Numbers.{FloatCodec, show_int}
use fastapi_kafka_guide.Python.Json.Values.{
  Value, Items, Fields, null, bool, int, float, str, array, object, no_items, item, no_fields,
  field,
}

abbrev pub null_text : Str
null_text = b'n' ∷ b'u' ∷ b'l' ∷ b'l' ∷ []

abbrev pub true_text : Str
true_text = b't' ∷ b'r' ∷ b'u' ∷ b'e' ∷ []

abbrev pub false_text : Str
false_text = b'f' ∷ b'a' ∷ b'l' ∷ b's' ∷ b'e' ∷ []

abbrev pub separator : Bool → Str
separator first = if first then [] else b',' ∷ b' ' ∷ []

module _ {F : Type 0} where
  unfoldable mutual
    pub dumps : FloatCodec F → Value F → Str
    dumps codec null = null_text
    dumps codec (bool b) = if b then true_text else false_text
    dumps codec (int i) = show_int i
    dumps codec (float x) = codec.shown x
    dumps codec (str s) = show_string s
    dumps codec (array xs) = b'[' ∷ dump_items codec xs true
    dumps codec (object fs) = b'{' ∷ dump_fields codec fs true

    pub dump_items : FloatCodec F → Items F → Bool → Str
    dump_items codec no_items first = b']' ∷ []
    dump_items codec (item v xs) first =
        separator first ++ (dumps codec v ++ dump_items codec xs false)

    pub dump_fields : FloatCodec F → Fields F → Bool → Str
    dump_fields codec no_fields first = b'}' ∷ []
    dump_fields codec (field k v fs) first =
        separator first
        ++ (show_string k ++ b':' ∷ b' ' ∷ (dumps codec v ++ dump_fields codec fs false))
