-- ===== src/Python/Json/Bytes.antt =====
-- A value as the bytes that Kafka carries: `json.dumps(v).encode("utf-8")`, and back by
-- `json.loads(data.decode("utf-8"))`.
use fastapi_kafka_guide.Prelude.{
  ℕ, ◌≡◌, refl, Bool, true, false, Option, some, [], ◌∷◌, arith, if◌then◌else◌, All, All-append,
}
use fastapi_kafka_guide.Python.Utf8.{Str, IsText}
use fastapi_kafka_guide.Python.Json.Strings.{escape, show_string}
use fastapi_kafka_guide.Python.Json.Strings.Reads.{escape-IsText}
use fastapi_kafka_guide.Python.Json.Numbers.{
  FloatCodec, Number, an_int, a_float, kind_of, is_number_char, show_int,
}
use fastapi_kafka_guide.Python.Json.Numbers.Reads.{number_of-show_int}
use fastapi_kafka_guide.Python.Json.Printer.{
  true_text, false_text, separator, dumps, dump_items, dump_fields,
}
use fastapi_kafka_guide.Python.Json.Values.{
  Value, null, bool, int, float, str, array, object, no_items, item, no_fields, field,
}
use fastapi_kafka_guide.Python.Json.Openings.{All-Spells, Spells}
use fastapi_kafka_guide.Python.Json.Entries.{IsLoadable, AllLoadable, FieldsLoadable}
use fastapi_kafka_guide.Python.Json.Parser.{Parsed, parsed, bind, of_option, loads}
use fastapi_kafka_guide.Python.Utf8.{Bytes, encode, decode, is_scalar}
use fastapi_kafka_guide.Python.Utf8.RoundTrip.{decode-encode, encode_total}
use fastapi_kafka_guide.Python.Json.RoundTrip.{loads-dumps}

is_scalar-number : (c : ℕ) → is_number_char c ≡ true → is_scalar c ≡ true
unfolding kind_of
is_scalar-number c h = ground arith

IsText-number : (s : Str) → All (λ c. is_number_char c ≡ true) s → IsText s
IsText-number [] h = tt
IsText-number (c ∷ s) h = (is_scalar-number c h.0, IsText-number s h.1)

separator-IsText : (first : Bool) → IsText (separator first)
separator-IsText true = tt
separator-IsText false = (refl, (refl, tt))

show_string-IsText : (s : Str) → IsText s → IsText (show_string s)
show_string-IsText s h = (refl, All-append _ (escape s) _ (escape-IsText s h) (refl, tt))

bool-IsText : (b : Bool) → IsText (if b then true_text else false_text)
bool-IsText true = (refl, (refl, (refl, (refl, tt))))
bool-IsText false = (refl, (refl, (refl, (refl, (refl, tt)))))

module _ {F : Type 0} (codec : FloatCodec F) where
  IsText-Spells : (s : Str) (n : Number F) → Spells codec s n → IsText s
  IsText-Spells s n e = IsText-number s (All-Spells codec s n e)

  -- The text of a value that loads has no surrogates.
  dumps-IsText : (v : Value F) → IsLoadable codec v → IsText (dumps codec v)
  unfolding dumps IsLoadable
  dumps-IsText v =
      elim v
        as (λ v. IsLoadable codec v → IsText (dumps codec v)) (λ xs.
          AllLoadable codec xs → (first : Bool) → IsText (dump_items codec xs first)) (λ fs.
            FieldsLoadable codec fs → (first : Bool) → IsText (dump_fields codec fs first)) [
              | null ↦ λ h. (refl, (refl, (refl, (refl, tt))))
              | bool b ↦ λ h. bool-IsText b
              | int i ↦ λ h. IsText-Spells (show_int i) (an_int i) (number_of-show_int codec i)
              | float x ↦ λ h. IsText-Spells (codec.shown x) (a_float x) h
              | str s ↦ λ h. show_string-IsText s h
              | array (xs → ih) ↦ λ h. (refl, ih h true)
              | object (fs → ih) ↦ λ h. (refl, ih h.0 true)
              | no_items ↦ λ h first. (refl, tt)
              | item (v → ihv) (xs → ihs) ↦ λ h first.
                  All-append _ (separator first) _ (separator-IsText first)
                    (All-append _ (dumps codec v) _ (ihv h.0) (ihs h.1 false))
              | no_fields ↦ λ h first. (refl, tt)
              | field k (v → ihv) (fs → ihs) ↦ λ h first.
                  All-append _ (separator first) _ (separator-IsText first) (
                    All-append _ (show_string k) _ (show_string-IsText k h.0)
                      (refl, (refl, All-append _ (dumps codec v) _ (ihv h.1) (ihs h.2 false))))
            ]

  -- `json.dumps(v, ensure_ascii=False).encode("utf-8")`
  abbrev pub to_bytes : Value F → Option Bytes
  to_bytes v = encode (dumps codec v)

  -- `json.loads(data.decode("utf-8"))`
  abbrev pub from_bytes : Bytes → Parsed (Value F)
  from_bytes bs = bind (of_option (decode bs)) λ s. loads codec s

  -- A value that loads is written, and what was written loads as it.
  pub from_bytes-to_bytes :
      (v : Value F)
      → IsLoadable codec v
      → (bs : Bytes) × (to_bytes v ≡ some bs) × (from_bytes bs ≡ parsed v)
  from_bytes-to_bytes v h =
      let (bs, e) = encode_total (dumps codec v) (dumps-IsText v h) in
      (bs, e, rw (decode-encode (dumps codec v) bs e) (loads-dumps codec v h))
