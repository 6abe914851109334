-- ===== src/Python/Json/Total.antt =====
-- Every text is read to an end: `json.loads` returns a value or refuses the text, within its fuel.
use fastapi_kafka_guide.Prelude.{
  ℕ, zero, suc, ◌+◌, ◌*◌, ◌<◌, subst, ◌≢◌, inl, inr, Bool, true, false, [], ◌∷◌, arith,
  if◌then◌else◌, Bool-cases, length,
}
use fastapi_kafka_guide.Python.Utf8.{Str}
use fastapi_kafka_guide.Python.Json.Strings.{read_string}
use fastapi_kafka_guide.Python.Json.Numbers.{FloatCodec}
use fastapi_kafka_guide.Python.Json.Values.{
  Value, Items, Fields, str, array, object, item, field, dict,
}
use fastapi_kafka_guide.Python.Json.Parser.{
  parsed, malformed, out_of_fuel, bind, of_option, skip_blanks, Opening, opens_string, opens_array,
  opens_object, opens_other, opening, starts, expect_separator, read_key, read_atom, parse_value,
  parse_items, parse_fields, finish, loads, without_mark,
}
use fastapi_kafka_guide.Python.Json.Consumption.{
  Ends, Ends-bind, Leaves, length-skip_blanks, expect_separator-Ends, read_string-Ends,
  read_atom-Ends, read_key-Ends,
}

module _ {F : Type 0} (codec : FloatCodec F) where
  abbrev ValueEnds : ℕ → Type 0
  ValueEnds f = (s : Str) → 2 * length s < f → Ends (Leaves (length s)) (parse_value codec f s)

  abbrev ItemsEnd : ℕ → Type 0
  ItemsEnd f =
      (first : Bool) (s : Str)
      → 2 * length s + 1 < f
      → Ends (Leaves (length s)) (parse_items codec f first s)

  abbrev FieldsEnd : ℕ → Type 0
  FieldsEnd f =
      (first : Bool) (s : Str)
      → 2 * length s + 1 < f
      → Ends (Leaves (length s)) (parse_fields codec f first s)

  value_ends : (f : ℕ) → ItemsEnd f → FieldsEnd f → ValueEnds (suc f)
  unfolding parse_value
  value_ends f items fields [] h = tt
  value_ends f items fields (c ∷ s) h = go (opening c)
    where
      go :
          (o : Opening)
          → Ends (Leaves {A = Value F} (length (c ∷ s))) (elim o [
            | opens_string ↦ bind (of_option (read_string s)) λ (t, rest). parsed (str t, rest)
            | opens_array ↦
                bind
                  (parse_items codec f true (skip_blanks s))
                  λ (xs, rest). parsed (array xs, rest)
            | opens_object ↦
                bind
                  (parse_fields codec f true (skip_blanks s))
                  λ (fs, rest). parsed (object (dict fs), rest)
            | opens_other ↦ of_option (read_atom codec (c ∷ s))
          ])
      go opens_string =
          Ends-bind _ _ (of_option (read_string s)) _ (read_string-Ends s) λ p hp. omega arith
      go opens_array =
          let shorter = length-skip_blanks s in
          Ends-bind _ _ (parse_items codec f true (skip_blanks s)) _
            (items true (skip_blanks s) (omega arith)) λ p hp. omega arith
      go opens_object =
          let shorter = length-skip_blanks s in
          Ends-bind _ _ (parse_fields codec f true (skip_blanks s)) _
            (fields true (skip_blanks s) (omega arith)) λ p hp. omega arith
      go opens_other = read_atom-Ends codec (c ∷ s)

  -- An item and those after it.
  item_then_items :
      (f : ℕ)
      → ValueEnds f
      → ItemsEnd f
      → (first : Bool) (s : Str) → 2 * length s < f
      → Ends (Leaves {A = Items F} (length s)) (
          bind (expect_separator first s) λ t. bind (parse_value codec f t) λ (v, u).
            bind (parse_items codec f false (skip_blanks u)) λ (xs, rest). parsed (item v xs, rest))
  item_then_items f values items first s h =
      Ends-bind _ _ (expect_separator first s) _ (expect_separator-Ends first s) λ t ht.
        Ends-bind _ _ (parse_value codec f t) _ (values t (omega arith)) λ p hp.
          let shorter = length-skip_blanks p.1 in
          Ends-bind _ _ (parse_items codec f false (skip_blanks p.1)) _
            (items false (skip_blanks p.1) (omega arith)) λ q hq. omega arith

  items_end : (f : ℕ) → ValueEnds f → ItemsEnd f → ItemsEnd (suc f)
  unfolding parse_value
  items_end f values items first [] h = item_then_items f values items first [] (omega arith)
  items_end f values items first (c ∷ s) h = elim (Bool-cases (starts b']' (c ∷ s))) [
    | inl e ↦ rw (parse_items, e) (omega arith)
    | inr e ↦ rw (parse_items, e) (item_then_items f values items first (c ∷ s) (omega arith))
  ]

  field_then_fields :
      (f : ℕ)
      → ValueEnds f
      → FieldsEnd f
      → (first : Bool) (s : Str) → 2 * length s < f
      → Ends (Leaves {A = Fields F} (length s)) (
          bind (expect_separator first s) λ t. bind (read_key t) λ (k, u).
            bind (parse_value codec f u) λ (v, w).
              bind
                (parse_fields codec f false (skip_blanks w))
                λ (fs, rest). parsed (field k v fs, rest))
  field_then_fields f values fields first s h =
      Ends-bind _ _ (expect_separator first s) _ (expect_separator-Ends first s) λ t ht.
        Ends-bind _ _ (read_key t) _ (read_key-Ends t) λ k hk.
          Ends-bind _ _ (parse_value codec f k.1) _ (values k.1 (omega arith)) λ p hp.
            let shorter = length-skip_blanks p.1 in
            Ends-bind _ _ (parse_fields codec f false (skip_blanks p.1)) _
              (fields false (skip_blanks p.1) (omega arith)) λ q hq. omega arith

  fields_end : (f : ℕ) → ValueEnds f → FieldsEnd f → FieldsEnd (suc f)
  unfolding parse_value
  fields_end f values fields first [] h = field_then_fields f values fields first [] (omega arith)
  fields_end f values fields first (c ∷ s) h = elim (Bool-cases (starts b'}' (c ∷ s))) [
    | inl e ↦ rw (parse_fields, e) (omega arith)
    | inr e ↦ rw (parse_fields, e) (field_then_fields f values fields first (c ∷ s) (omega arith))
  ]

  all_end : (f : ℕ) → ValueEnds f × ItemsEnd f × FieldsEnd f
  all_end zero = (
    λ s h. absurd (omega arith),
    λ first s h. absurd (omega arith),
    λ first s h. absurd (omega arith),
  )
  all_end (suc f) =
      let (values, items, fields) = all_end f in
      (value_ends f items fields, items_end f values items, fields_end f values fields)

  -- Twice the length of the text, and two, is fuel enough for any text.
  pub loads_total : (s : Str) → loads codec s ≢ out_of_fuel
  unfolding loads
  loads_total s e = subst (Ends {A = Value F} (λ v. Unit {0})) e ended
    where
      ended : Ends {A = Value F} (λ v. Unit {0}) (loads codec s)
      ended =
          Ends-bind (λ t. Unit {0}) _ (without_mark s) _ (marked (starts 0xfeff s))
            λ t ht.
              let shorter = length-skip_blanks t in
              Ends-bind _ _ (parse_value codec (2 * length t + 2) (skip_blanks t)) _
                ((all_end (2 * length t + 2)).0 (skip_blanks t) (omega arith))
                λ p hp. finished p.0 (skip_blanks p.1)
        where
          marked : (b : Bool) → Ends (λ t. Unit {0}) (if b then malformed else parsed s)
          marked true = tt
          marked false = tt

          finished : (v : Value F) (rest : Str) → Ends {A = Value F} (λ v. Unit {0}) (finish v rest)
          finished v [] = tt
          finished v (c ∷ rest) = tt
