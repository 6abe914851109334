-- ===== src/Python/Json/Tests.antt =====
-- Texts as Python 3 prints and reads them.
use fastapi_kafka_guide.Prelude.{true, none, some, [], ◌∷◌, ◌++◌, ◌≡◌, refl}
use fastapi_kafka_guide.Prelude.Int.{pos, negsuc}
use mathlib.Core.Option
use fastapi_kafka_guide.Python.Utf8.{
  Str, text, encode, encode_char, decode, decode_from, decode_byte,
}
use fastapi_kafka_guide.Python.Json.Strings.{
  escape_char, escape, hex_digit, hex_value, scan, scan_char, unescape, join_surrogates,
}
use fastapi_kafka_guide.Python.Json.Numbers.{
  FloatCodec, digits_in, num_run, num_step, kind_of, span_number, nat_value, int_value,
}
use fastapi_kafka_guide.Python.Json.Printer.{dumps}
use fastapi_kafka_guide.Python.Json.Parser.{
  parsed, malformed, skip_blanks, drop_prefix, read_atom, parse_value, loads,
}
use fastapi_kafka_guide.Python.Json.Values.{
  Value, null, bool, int, float, str, array, object, no_items, item, no_fields, field, set_field,
  set_fields, same,
}

-- A float is here the text that spells it.
abbrev texts : FloatCodec Str
texts = record { shown = λ s. s; read = λ s. s }

abbrev sample : Value Str
sample = object (
    field (text "이름") (str (text "a\"b\\c\n")) (
      field (text "n")
        (array
          (item (int (pos 0)) (item (int (negsuc 41)) (item (float (text "1.5e-07")) no_items))))
        (field (text "ok") (bool true)
          (field (text "none") null (field (text "{}") (object no_fields) no_fields)))))

prints :
    dumps texts sample
    ≡ text
        "{\"이름\": \"a\\\"b\\\\c\\n\", \"n\": [0, -42, 1.5e-07], \"ok\": true, \"none\": null, \"{}\": {}}"
unfolding dumps escape escape_char digits_in hex_digit
prints = refl

controls : escape (1 ∷ 31 ∷ 127 ∷ []) ≡ text "\\u0001\\u001f" ++ (127 ∷ [])
unfolding escape escape_char hex_digit
controls = refl

korean :
    encode (text "é홍😀") ≡ some (0xc3 ∷ 0xa9 ∷ 0xed ∷ 0x99 ∷ 0x8d ∷ 0xf0 ∷ 0x9f ∷ 0x98 ∷ 0x80 ∷ [])
unfolding encode encode_char
korean = refl

surrogate : encode (0xd800 ∷ []) ≡ none
unfolding encode
surrogate = refl

-- an overlong form, a surrogate, and a sequence that is cut off
undecodable :
    (decode (0xc0 ∷ 0x80 ∷ []) ≡ none)
    × (decode (0xe0 ∷ 0x80 ∷ 0x80 ∷ []) ≡ none)
    × (decode (0xed ∷ 0xa0 ∷ 0x80 ∷ []) ≡ none)
    × (decode (0xe2 ∷ 0x82 ∷ []) ≡ none)
unfolding decode_from decode_byte Option.bind
undecodable = (refl, refl, refl, refl)

reads :
    loads texts (text " { \"a\" : [1 ,-0, 2.50], \"b\":\"\\ud83d\\ude00\\/\" , \"a\":NaN } ")
    ≡ parsed (
        object
          (field (text "a") (float (text "NaN")) (field (text "b") (str (text "😀/")) no_fields)))
unfolding loads parse_value read_atom skip_blanks drop_prefix scan scan_char hex_value unescape
    join_surrogates num_run num_step kind_of span_number nat_value int_value set_field set_fields
    same Option.bind
reads = refl

refused :
    (loads texts (text "[1,]") ≡ malformed)
    × (loads texts (text "{1: 2}") ≡ malformed)
    × (loads texts (text "01") ≡ malformed)
    × (loads texts (text "1 2") ≡ malformed)
    × (loads texts (text "\"a") ≡ malformed)
    × (loads texts [] ≡ malformed)
    × (loads texts (text "-") ≡ malformed)
    × (loads texts (text "1.") ≡ malformed)
unfolding loads parse_value read_atom skip_blanks drop_prefix scan scan_char hex_value unescape
    join_surrogates num_run num_step kind_of span_number nat_value int_value set_field set_fields
    same Option.bind
refused = (refl, refl, refl, refl, refl, refl, refl, refl)
