-- ===== src/Python/Json/Parser.antt =====
-- `json.loads`. What a call leaves of a text is not a structural part of it, so each call costs a unit
-- of fuel.
use fastapi_kafka_guide.Prelude.{
  ℕ, zero, suc, ◌+◌, ◌*◌, Bool, true, false, ◌||◌, Option, none, some, [], ◌∷◌, eqb, if◌then◌else◌,
  length,
}
use mathlib.Core.Option
use fastapi_kafka_guide.Python.Utf8.{Str}
use fastapi_kafka_guide.Python.Json.Strings.{quote, read_string}
use fastapi_kafka_guide.Python.Json.Numbers.{FloatCodec, Number, an_int, a_float, read_number}
use fastapi_kafka_guide.Python.Json.Printer.{null_text, true_text, false_text}
use fastapi_kafka_guide.Python.Json.Values.{
  Value, Items, Fields, null, bool, int, float, str, array, object, no_items, item, no_fields,
  field, dict,
}

-- `malformed` is a raised `JSONDecodeError`; `out_of_fuel` has no counterpart in the program.
pub data Parsed {ℓ} (A : Type ℓ) : Type ℓ where
  parsed : A → Parsed A
  malformed out_of_fuel : Parsed A

abbrev pub bind : {A B : Type 0} → Parsed A → (A → Parsed B) → Parsed B
bind (parsed a) f = f a
bind malformed f = malformed
bind out_of_fuel f = out_of_fuel

abbrev pub of_option : {A : Type 0} → Option A → Parsed A
of_option none = malformed
of_option (some a) = parsed a

abbrev pub is_blank : ℕ → Bool
is_blank c = eqb c b' ' || eqb c b'\t' || eqb c b'\n' || eqb c b'\r'

unfoldable pub skip_blanks : Str → Str
skip_blanks [] = []
skip_blanks (c ∷ s) = let rest = skip_blanks s in if is_blank c then rest else c ∷ s

-- What a value begins with.
pub data Opening : Type 0 where
  opens_string opens_array opens_object opens_other : Opening

abbrev pub opening : ℕ → Opening
opening c =
    if eqb c quote
    then opens_string
    else if eqb c b'['
    then opens_array
    else if eqb c b'{'
    then opens_object
    else opens_other

unfoldable pub drop_prefix : Str → Str → Option Str
drop_prefix [] s = some s
drop_prefix (p ∷ ps) [] = none
drop_prefix (p ∷ ps) (c ∷ s) = let rest = drop_prefix ps s in if eqb p c then rest else none

abbrev pub starts : ℕ → Str → Bool
starts c [] = false
starts c (d ∷ s) = eqb d c

abbrev pub rest_of : Str → Str
rest_of [] = []
rest_of (c ∷ s) = s

abbrev pub expect : ℕ → Str → Parsed Str
expect c s = if starts c s then parsed (rest_of s) else malformed

-- Before each entry but the first, a comma.
abbrev pub expect_separator : Bool → Str → Parsed Str
expect_separator first s =
    if first then parsed s else bind (expect b',' s) λ t. parsed (skip_blanks t)

abbrev pub nan_text : Str
nan_text = b'N' ∷ b'a' ∷ b'N' ∷ []

abbrev pub infinity_text : Str
infinity_text = b'I' ∷ b'n' ∷ b'f' ∷ b'i' ∷ b'n' ∷ b'i' ∷ b't' ∷ b'y' ∷ []

-- A byte order mark in front is refused.
abbrev pub without_mark : Str → Parsed Str
without_mark s = if starts 0xfeff s then malformed else parsed s

-- A key, the colon, and the blanks around it.
abbrev pub read_key : Str → Parsed (Str × Str)
read_key s = bind (expect quote s) λ t.
    bind (of_option (read_string t))
      λ (k, u). bind (expect b':' (skip_blanks u)) λ w. parsed (k, skip_blanks w)

module _ {F : Type 0} where
  abbrev pub of_number : Number F → Value F
  of_number (an_int i) = int i
  of_number (a_float x) = float x

  abbrev pub if_literal : Option Str → Value F → Option (Value F × Str) → Option (Value F × Str)
  if_literal (some rest) v other = some (v, rest)
  if_literal none v other = other

  -- The first of the literals that the text begins with, or else a number.
  abbrev pub literal : Str → Value F → Str → Option (Value F × Str) → Option (Value F × Str)
  literal text v s other = if_literal (drop_prefix text s) v other

  unfoldable pub read_atom : FloatCodec F → Str → Option (Value F × Str)
  read_atom codec s = literal null_text null s (
      literal true_text (bool true) s (
        literal false_text (bool false) s (
          literal nan_text (float (codec.read nan_text)) s (
            literal infinity_text (float (codec.read infinity_text)) s (
              literal (b'-' ∷ infinity_text) (float (codec.read (b'-' ∷ infinity_text))) s
                (Option.map (λ (n, rest). (of_number n, rest)) (read_number codec s)))))))

  unfoldable mutual
    pub parse_value : FloatCodec F → ℕ → Str → Parsed (Value F × Str)
    parse_value codec zero s = out_of_fuel
    parse_value codec (suc f) [] = malformed
    parse_value codec (suc f) (c ∷ s) = elim (opening c) [
      | opens_string ↦ bind (of_option (read_string s)) λ (t, rest). parsed (str t, rest)
      | opens_array ↦
          bind (parse_items codec f true (skip_blanks s)) λ (xs, rest). parsed (array xs, rest)
      | opens_object ↦
          bind (parse_fields codec f true (skip_blanks s))
            λ (fs, rest). parsed (object (dict fs), rest)
      | opens_other ↦ of_option (read_atom codec (c ∷ s))
    ]

    pub parse_items : FloatCodec F → ℕ → Bool → Str → Parsed (Items F × Str)
    parse_items codec zero first s = out_of_fuel
    parse_items codec (suc f) first s = elim (starts b']' s) [
      | true ↦ parsed (no_items, rest_of s)
      | false ↦ bind (expect_separator first s) λ t. bind (parse_value codec f t) λ (v, u).
          bind (parse_items codec f false (skip_blanks u)) λ (xs, rest). parsed (item v xs, rest)
    ]

    pub parse_fields : FloatCodec F → ℕ → Bool → Str → Parsed (Fields F × Str)
    parse_fields codec zero first s = out_of_fuel
    parse_fields codec (suc f) first s = elim (starts b'}' s) [
      | true ↦ parsed (no_fields, rest_of s)
      | false ↦ bind (expect_separator first s) λ t. bind (read_key t) λ (k, u).
          bind (parse_value codec f u) λ (v, w).
            bind (parse_fields codec f false (skip_blanks w))
              λ (fs, rest). parsed (field k v fs, rest)
    ]

  abbrev pub finish : Value F → Str → Parsed (Value F)
  finish v [] = parsed v
  finish v (c ∷ s) = malformed

  unfoldable pub loads : FloatCodec F → Str → Parsed (Value F)
  loads codec s = bind (without_mark s) λ t.
      bind (parse_value codec (2 * length t + 2) (skip_blanks t))
        λ (v, rest). finish v (skip_blanks rest)
