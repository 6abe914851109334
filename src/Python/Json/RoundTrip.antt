-- ===== src/Python/Json/RoundTrip.antt =====
-- What `json.dumps` printed, `json.loads` reads back.
use fastapi_kafka_guide.Prelude.{
  ℕ, suc, ◌+◌, ◌*◌, ◌≡◌, refl, Bool, true, false, [], ◌++◌, append-nil, append_assoc, arith, length,
}
use fastapi_kafka_guide.Python.Utf8.{Str}
use fastapi_kafka_guide.Python.Json.Numbers.{FloatCodec, an_int, a_float, show_int}
use fastapi_kafka_guide.Python.Json.Numbers.Reads.{number_of-show_int}
use fastapi_kafka_guide.Python.Json.Printer.{dumps, dump_items}
use fastapi_kafka_guide.Python.Json.Values.{
  Value, Items, null, bool, int, float, str, array, object, no_items, item, no_fields, field,
}
use fastapi_kafka_guide.Python.Json.Steps.{
  parse_value-array, parse_value-object, parse_value-string,
}
use fastapi_kafka_guide.Python.Json.Openings.{
  without_mark-Opens, skip_blanks-Opens, parse_value-Spells,
}
use fastapi_kafka_guide.Python.Json.Entries.{
  IsLoadable, AllLoadable, Opens-dumps, ReadsValue, ReadsItems, ReadsFields, spend, Reads-item,
  Reads-field, skip_blanks-dump_fields,
}
use fastapi_kafka_guide.Python.Json.Parser.{
  parsed, skip_blanks, drop_prefix, read_atom, parse_value, loads,
}

module _ {F : Type 0} (codec : FloatCodec F) where
  -- Before a first item no blank is skipped.
  skip_blanks-first_item :
      (xs : Items F) (rest : Str)
      → AllLoadable codec xs
      → skip_blanks (dump_items codec xs true ++ rest) ≡ dump_items codec xs true ++ rest
  unfolding dumps IsLoadable
  skip_blanks-first_item no_items rest h = unfold skip_blanks in refl
  skip_blanks-first_item (item v xs) rest h =
      rw (append_assoc, append_assoc)
        (skip_blanks-Opens (dump_items codec xs false ++ rest) (Opens-dumps codec v h.0))

  parse_value-bool :
      (b : Bool) (f : ℕ) (rest : Str)
      → parse_value codec (suc f) (dumps codec (bool b) ++ rest) ≡ parsed (bool b, rest)
  unfolding dumps parse_value read_atom drop_prefix
  parse_value-bool true f rest = refl
  parse_value-bool false f rest = refl

  parse_value-Reads : (v : Value F) → ReadsValue codec v
  unfolding dumps IsLoadable
  parse_value-Reads v = elim v as (ReadsValue codec) (ReadsItems codec) (ReadsFields codec) [
    | null ↦ λ h rest stops. spend codec _ λ f l. unfold parse_value read_atom drop_prefix in refl
    | bool b ↦ λ h rest stops. spend codec _ λ f l. parse_value-bool b f rest
    | int i ↦ λ h rest stops. spend codec _ λ f l.
        parse_value-Spells codec f (show_int i) rest (an_int i) (number_of-show_int codec i) stops
    | float x ↦ λ h rest stops.
        spend codec _ λ f l. parse_value-Spells codec f (codec.shown x) rest (a_float x) h stops
    | str s ↦ λ h rest stops. spend codec _ λ f l. parse_value-string codec f s rest h
    | array (xs → ih) ↦ λ h rest stops. spend codec _ λ f l.
        parse_value-array codec f _ rest xs
          (rw (skip_blanks-first_item xs rest h) (ih h true rest f (omega arith)))
    | object (fs → ih) ↦ λ h rest stops. spend codec _ λ f l.
        parse_value-object codec f _ rest fs
          (rw (skip_blanks-dump_fields codec fs true rest) (ih h.0 true rest f (omega arith))) h.1
    | no_items ↦ λ h first rest. spend codec _ λ f l. unfold parse_value in refl
    | item (v → ihv) (xs → ihs) ↦ Reads-item codec v xs ihv ihs
    | no_fields ↦ λ h first rest. spend codec _ λ f l. unfold parse_value in refl
    | field k (v → ihv) (fs → ihs) ↦ Reads-field codec k v fs ihv ihs
  ]

  -- `json.loads(json.dumps(v))` is `v`.
  pub loads-dumps : (v : Value F) → IsLoadable codec v → loads codec (dumps codec v) ≡ parsed v
  loads-dumps v h =
      let o = Opens-dumps codec v h in
      let whole = parse_value-Reads v h [] refl (2 * length (dumps codec v) + 2) (omega arith) in
      let read : parse_value codec (2 * length (dumps codec v) + 2) (dumps codec v)
          ≡ parsed (v, []) =
        rw append-nil at whole in
      let unblanked : skip_blanks (dumps codec v) ≡ dumps codec v =
        rw append-nil at (skip_blanks-Opens [] o) in
      unfold loads skip_blanks in rw (without_mark-Opens o, unblanked, read) refl
