-- ===== src/Python/Json/Steps.antt =====
-- What one call of the parser does, from what the calls that it makes do.
use fastapi_kafka_guide.Prelude.{
  ℕ, suc, ◌≡◌, refl, Bool, true, false, some, ◌∷◌, ◌++◌, append_assoc,
}
use fastapi_kafka_guide.Python.Utf8.{Str, IsText}
use fastapi_kafka_guide.Python.Json.Strings.{show_string}
use fastapi_kafka_guide.Python.Json.Strings.Reads.{read_string-escape}
use fastapi_kafka_guide.Python.Json.Numbers.{FloatCodec}
use fastapi_kafka_guide.Python.Json.Values.{
  Value, Items, Fields, str, array, object, item, field, dict,
}
use fastapi_kafka_guide.Python.Json.Parser.{
  parsed, skip_blanks, opens_other, opening, starts, expect_separator, read_key, read_atom,
  parse_value, parse_items, parse_fields,
}

module _ {F : Type 0} (codec : FloatCodec F) where
  pub parse_items-more :
      (f : ℕ) (first : Bool) (s t u rest : Str) (v : Value F) (xs : Items F)
      → starts b']' s ≡ false
      → expect_separator first s ≡ parsed t
      → parse_value codec f t ≡ parsed (v, u)
      → parse_items codec f false (skip_blanks u) ≡ parsed (xs, rest)
      → parse_items codec (suc f) first s ≡ parsed (item v xs, rest)
  unfolding parse_value
  parse_items-more f first s t u rest v xs a b c d = rw (parse_items, a, b, c, d) refl

  pub parse_fields-more :
      (f : ℕ) (first : Bool) (s t u w rest : Str) (k : Str) (v : Value F) (fs : Fields F)
      → starts b'}' s ≡ false
      → expect_separator first s ≡ parsed t
      → read_key t ≡ parsed (k, u)
      → parse_value codec f u ≡ parsed (v, w)
      → parse_fields codec f false (skip_blanks w) ≡ parsed (fs, rest)
      → parse_fields codec (suc f) first s ≡ parsed (field k v fs, rest)
  unfolding parse_value
  parse_fields-more f first s t u w rest k v fs a b c d e = rw (parse_fields, a, b, c, d, e) refl

  pub parse_value-other :
      (f c : ℕ) (s : Str) (r : Value F × Str)
      → opening c ≡ opens_other
      → read_atom codec (c ∷ s) ≡ some r
      → parse_value codec (suc f) (c ∷ s) ≡ parsed r
  unfolding parse_value
  parse_value-other f c s r a b = rw (parse_value, a, b) refl

  pub parse_value-array :
      (f : ℕ) (s rest : Str) (xs : Items F)
      → parse_items codec f true (skip_blanks s) ≡ parsed (xs, rest)
      → parse_value codec (suc f) (b'[' ∷ s) ≡ parsed (array xs, rest)
  unfolding parse_value
  parse_value-array f s rest xs a = rw a refl

  pub parse_value-object :
      (f : ℕ) (s rest : Str) (fs : Fields F)
      → parse_fields codec f true (skip_blanks s) ≡ parsed (fs, rest)
      → dict fs ≡ fs
      → parse_value codec (suc f) (b'{' ∷ s) ≡ parsed (object fs, rest)
  unfolding parse_value
  parse_value-object f s rest fs a d = rw (a, d) refl

  pub parse_value-string :
      (f : ℕ) (s rest : Str)
      → IsText s
      → parse_value codec (suc f) (show_string s ++ rest) ≡ parsed (str s, rest)
  unfolding parse_value
  parse_value-string f s rest h = rw (append_assoc, read_string-escape s rest h) refl
