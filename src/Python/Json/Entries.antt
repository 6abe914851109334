-- ===== src/Python/Json/Entries.antt =====
-- Printed values as entries: what the parser reads of a list's items and of a dict's fields, when it
-- reads each value in them.
use fastapi_kafka_guide.Prelude.{
  ℕ, zero, suc, ◌+◌, ◌*◌, ◌≤◌, ◌<◌, ◌≡◌, refl, ap, ◌∙◌, Bool, true, false, [], ◌∷◌, ◌++◌,
  append_assoc, arith, length, length-append,
}
use fastapi_kafka_guide.Python.Utf8.{Str, IsText}
use fastapi_kafka_guide.Python.Json.Strings.{quote, escape, show_string}
use fastapi_kafka_guide.Python.Json.Strings.Reads.{read_string-escape}
use fastapi_kafka_guide.Python.Json.Numbers.{
  FloatCodec, an_int, a_float, kind_of, show_int, stops_number,
}
use fastapi_kafka_guide.Python.Json.Numbers.Reads.{number_of-show_int}
use fastapi_kafka_guide.Python.Json.Printer.{separator, dumps, dump_items, dump_fields}
use fastapi_kafka_guide.Python.Json.Values.{
  Value, Items, Fields, null, bool, int, float, str, array, object, no_items, item, no_fields,
  field, dict,
}
use fastapi_kafka_guide.Python.Json.Steps.{parse_items-more, parse_fields-more}
use fastapi_kafka_guide.Python.Json.Openings.{
  Opens, opens, length-Opens, skip_blanks-Opens, starts-Opens, Spells, Opens-Spells,
}
use fastapi_kafka_guide.Python.Json.Parser.{
  parsed, skip_blanks, starts, expect_separator, read_key, parse_value, parse_items, parse_fields,
}

length-append_text : (s t : Str) → length (s ++ t) ≡ length s + length t
length-append_text = length-append

-- For `omega`, on texts.
ruleset lengths = (arith, length-append_text)

module _ {F : Type 0} (codec : FloatCodec F) where
  -- The values that survive: texts without surrogates, finite floats, and dicts, whose keys differ.
  unfoldable mutual
    pub IsLoadable : Value F → Type 0
    IsLoadable null = Unit
    IsLoadable (bool b) = Unit
    IsLoadable (int i) = Unit
    IsLoadable (float x) = Spells codec (codec.shown x) (a_float x)
    IsLoadable (str s) = IsText s
    IsLoadable (array xs) = AllLoadable xs
    IsLoadable (object fs) = FieldsLoadable fs × (dict fs ≡ fs)

    pub AllLoadable : Items F → Type 0
    AllLoadable no_items = Unit
    AllLoadable (item v xs) = IsLoadable v × AllLoadable xs

    pub FieldsLoadable : Fields F → Type 0
    FieldsLoadable no_fields = Unit
    FieldsLoadable (field k v fs) = IsText k × IsLoadable v × FieldsLoadable fs

  pub Opens-dumps : (v : Value F) → IsLoadable v → Opens (dumps codec v)
  unfolding IsLoadable dumps
  Opens-dumps null h = opens refl refl refl
  Opens-dumps (bool true) h = opens refl refl refl
  Opens-dumps (bool false) h = opens refl refl refl
  Opens-dumps (int i) h = Opens-Spells codec (show_int i) (an_int i) (number_of-show_int codec i)
  Opens-dumps (float x) h = Opens-Spells codec (codec.shown x) (a_float x) h
  Opens-dumps (str s) h = opens refl refl refl
  Opens-dumps (array xs) h = opens refl refl refl
  Opens-dumps (object fs) h = opens refl refl refl

  -- After an entry comes a comma or a closing bracket: no number goes on there, and no blank is skipped.
  stops-dump_items :
      (xs : Items F) (rest : Str) → stops_number (dump_items codec xs false ++ rest) ≡ true
  unfolding dumps kind_of
  stops-dump_items no_items rest = refl
  stops-dump_items (item v xs) rest = refl

  skip_blanks-dump_items :
      (xs : Items F) (rest : Str)
      → skip_blanks (dump_items codec xs false ++ rest) ≡ dump_items codec xs false ++ rest
  unfolding dumps skip_blanks
  skip_blanks-dump_items no_items rest = refl
  skip_blanks-dump_items (item v xs) rest = refl

  stops-dump_fields :
      (fs : Fields F) (rest : Str) → stops_number (dump_fields codec fs false ++ rest) ≡ true
  unfolding dumps kind_of
  stops-dump_fields no_fields rest = refl
  stops-dump_fields (field k v fs) rest = refl

  pub skip_blanks-dump_fields :
      (fs : Fields F) (first : Bool) (rest : Str)
      → skip_blanks (dump_fields codec fs first ++ rest) ≡ dump_fields codec fs first ++ rest
  unfolding dumps skip_blanks
  skip_blanks-dump_fields no_fields first rest = refl
  skip_blanks-dump_fields (field k v fs) true rest = refl
  skip_blanks-dump_fields (field k v fs) false rest = refl

  abbrev pub ReadsValue : Value F → Type 0
  ReadsValue v =
      IsLoadable v
      → (rest : Str) → stops_number rest ≡ true
      → (f : ℕ) → 2 * length (dumps codec v) < f
      → parse_value codec f (dumps codec v ++ rest) ≡ parsed (v, rest)

  abbrev pub ReadsItems : Items F → Type 0
  ReadsItems xs =
      AllLoadable xs
      → (first : Bool) (rest : Str) (f : ℕ) → 2 * length (dump_items codec xs first) + 1 < f
      → parse_items codec f first (dump_items codec xs first ++ rest) ≡ parsed (xs, rest)

  abbrev pub ReadsFields : Fields F → Type 0
  ReadsFields fs =
      FieldsLoadable fs
      → (first : Bool) (rest : Str) (f : ℕ) → 2 * length (dump_fields codec fs first) + 1 < f
      → parse_fields codec f first (dump_fields codec fs first ++ rest) ≡ parsed (fs, rest)

  -- A call with more fuel than a bound has one unit to give to its first step.
  pub spend :
      (Run : ℕ → Type 0) {bound : ℕ}
      → ((left : ℕ) → bound < suc left → Run (suc left))
      → (fuel : ℕ) → bound < fuel
      → Run fuel
  spend Run step zero too_little = absurd (omega arith)
  spend Run step (suc left) enough = step left enough

  expect_separator-dumps :
      (first : Bool) (s rest : Str)
      → Opens s
      → expect_separator first (separator first ++ (s ++ rest)) ≡ parsed (s ++ rest)
  expect_separator-dumps true s rest o = refl
  expect_separator-dumps false s rest o = unfold skip_blanks in rw (skip_blanks-Opens rest o) refl

  starts-separator :
      (first : Bool) (s rest : Str) → Opens s → starts b']' (separator first ++ (s ++ rest)) ≡ false
  starts-separator true s rest o = starts-Opens rest o
  starts-separator false s rest o = refl

  pub Reads-item :
      (v : Value F) (xs : Items F) → ReadsValue v → ReadsItems xs → ReadsItems (item v xs)
  unfolding IsLoadable dumps
  Reads-item v xs ihv ihs h first rest = spend _ λ f l.
      let o : Opens (dumps codec v) = Opens-dumps v h.0 in
      let pos = length-Opens o in
      let tail = dump_items codec xs false ++ rest in
      rw (append_assoc, append_assoc)
        (parse_items-more codec f first _ (dumps codec v ++ tail) tail rest v xs
          (starts-separator first (dumps codec v) tail o)
          (expect_separator-dumps first (dumps codec v) tail o)
          (ihv h.0 tail (stops-dump_items xs rest) f (omega lengths))
          (rw (skip_blanks-dump_items xs rest) (ihs h.1 false rest f (omega lengths))))

  read_key-show_string :
      (k s : Str)
      → IsText k
      → read_key (show_string k ++ b':' ∷ b' ' ∷ s) ≡ parsed (k, skip_blanks s)
  unfolding skip_blanks
  read_key-show_string k s h = rw (append_assoc, read_string-escape k (b':' ∷ b' ' ∷ s) h) refl

  starts-key :
      (first : Bool) (k s : Str) → starts b'}' (separator first ++ (show_string k ++ s)) ≡ false
  starts-key true k s = refl
  starts-key false k s = refl

  expect_separator-key :
      (first : Bool) (k s : Str)
      → expect_separator first (separator first ++ (show_string k ++ s))
        ≡ parsed (show_string k ++ s)
  unfolding skip_blanks
  expect_separator-key true k s = refl
  expect_separator-key false k s = refl

  dump_fields-append :
      (k : Str) (v : Value F) (fs : Fields F) (first : Bool) (rest : Str)
      → dump_fields codec (field k v fs) first ++ rest
        ≡ separator first
          ++ (show_string k
              ++ b':' ∷ b' ' ∷ (dumps codec v ++ (dump_fields codec fs false ++ rest)))
  unfolding dumps
  dump_fields-append k v fs first rest =
      append_assoc (separator first) _ rest
      ∙ ap (λ t. separator first ++ t)
          (append_assoc (show_string k) _ rest
            ∙ ap (λ t. show_string k ++ b':' ∷ b' ' ∷ t) (append_assoc (dumps codec v) _ rest))

  length-dump_fields :
      (k : Str) (v : Value F) (fs : Fields F) (first : Bool)
      → length (dumps codec v) + length (dump_fields codec fs false) + 2
        ≤ length (dump_fields codec (field k v fs) first)
  unfolding dumps
  length-dump_fields k v fs first =
      let tail = dumps codec v ++ dump_fields codec fs false in
      omega (
        lengths,
        length-append_text (separator first) (show_string k ++ b':' ∷ b' ' ∷ tail),
        length-append_text (escape k ++ quote ∷ []) (b':' ∷ b' ' ∷ tail),
        length-append_text (dumps codec v) (dump_fields codec fs false),
      )

  pub Reads-field :
      (k : Str) (v : Value F) (fs : Fields F)
      → ReadsValue v
      → ReadsFields fs
      → ReadsFields (field k v fs)
  Reads-field k v fs ihv ihs h first rest = spend _ λ f l.
      let loadable : IsText k × IsLoadable v × FieldsLoadable fs = unfold IsLoadable in h in
      let o : Opens (dumps codec v) = Opens-dumps v loadable.1 in
      let room = length-dump_fields k v fs first in
      let tail = dump_fields codec fs false ++ rest in
      let text = b':' ∷ b' ' ∷ (dumps codec v ++ tail) in
      rw (dump_fields-append k v fs first rest) (
        parse_fields-more codec f first _ (show_string k ++ text) (dumps codec v ++ tail) tail rest
          k v fs (starts-key first k text) (expect_separator-key first k text)
          (rw (read_key-show_string k (dumps codec v ++ tail) loadable.0, skip_blanks-Opens tail o)
            refl)
          (ihv loadable.1 tail (stops-dump_fields fs rest) f (omega arith))
          (rw (skip_blanks-dump_fields fs false rest) (ihs loadable.2 false rest f (omega arith))))
