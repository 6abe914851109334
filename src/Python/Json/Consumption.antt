-- ===== src/Python/Json/Consumption.antt =====
-- How much of a text each step of the parser reads.
use fastapi_kafka_guide.Prelude.{
  ℕ, suc, ◌+◌, ◌≤◌, ◌<◌, ◌≡◌, refl, inl, inr, Bool, true, false, Option, none, some, [], ◌∷◌, ◌++◌,
  arith, eqb, Bool-cases, Option-cases, length,
}
use mathlib.Core.Option
use fastapi_kafka_guide.Python.Utf8.{Str}
use fastapi_kafka_guide.Python.Json.Strings.{
  quote, read_string, scan, scan_char, Scanning, plain, ends, refused, goes_on, Scanned,
}
use fastapi_kafka_guide.Python.Json.Numbers.{
  FloatCodec, Number, read_number, number_of, span_number, num_run, start, is_number_char,
}
use fastapi_kafka_guide.Python.Json.Printer.{null_text, true_text, false_text}
use fastapi_kafka_guide.Python.Json.Values.{Value}
use fastapi_kafka_guide.Python.Json.Parser.{
  Parsed, parsed, malformed, out_of_fuel, bind, of_option, skip_blanks, is_blank, drop_prefix,
  rest_of, expect, expect_separator, read_key, of_number, if_literal, literal, read_atom, nan_text,
  infinity_text,
}

-- The run kept within its fuel, and `P` holds of its value if it has one.
abbrev pub Ends : {A : Type 0} → (A → Type 0) → Parsed A → Type 0
Ends P (parsed a) = P a
Ends P malformed = Unit
Ends P out_of_fuel = ⊥

pub Ends-bind :
    {A B : Type 0} (P : A → Type 0) (Q : B → Type 0) (m : Parsed A) (f : A → Parsed B)
    → Ends P m
    → ((a : A) → P a → Ends Q (f a))
    → Ends Q (bind m f)
Ends-bind P Q (parsed a) f h k = k a h
Ends-bind P Q malformed f h k = tt
Ends-bind P Q out_of_fuel f h k = h

-- What is left is shorter than `n`.
abbrev pub Leaves : {A : Type 0} → ℕ → A × Str → Type 0
Leaves n p = length p.1 < n

pub length-skip_blanks : (s : Str) → length (skip_blanks s) ≤ length s
unfolding skip_blanks
length-skip_blanks [] = omega arith
length-skip_blanks (c ∷ s) = elim (Bool-cases (is_blank c)) [
  | inl e ↦ rw e (omega (arith, length-skip_blanks s))
  | inr e ↦ rw e (omega arith)
]

pub expect-Ends : (c : ℕ) (s : Str) → Ends (λ t. length t < length s) (expect c s)
expect-Ends c [] = tt
expect-Ends c (d ∷ s) = elim (Bool-cases (eqb d c)) [ inl e ↦ rw e (omega arith) | inr e ↦ rw e tt ]

pub expect_separator-Ends :
    (first : Bool) (s : Str) → Ends (λ t. length t ≤ length s) (expect_separator first s)
expect_separator-Ends true s = omega arith
expect_separator-Ends false s =
    Ends-bind _ _ (expect b',' s) (λ t. parsed (skip_blanks t)) (expect-Ends b',' s)
      λ t h. omega (arith, length-skip_blanks t)

-- A literal leaves less than it was given.
abbrev Shorter : {A : Type 0} → ℕ → Option (A × Str) → Type 0
Shorter n none = Unit
Shorter n (some p) = length p.1 < n

-- One more character, from what the rest leaves.
longer :
    {A B : Type 0} (f : A × Str → B × Str) (n : ℕ) (o : Option (A × Str))
    → ((p : A × Str) → length (f p).1 ≡ length p.1)
    → Shorter n o
    → Shorter (suc n) (Option.map f o)
longer f n none same h = tt
longer f n (some p) same h = omega (arith, same p)

scan-Shorter : (s : Str) (st : Scanning) → Shorter (length s) (scan st s)
unfolding scan
scan-Shorter [] st = tt
scan-Shorter (c ∷ s) st = go (scan_char st c) (scan-Shorter s)
  where
    go :
        (r : Scanned)
        → ((st : Scanning) → Shorter (length s) (scan st s))
        → Shorter (suc (length s)) (elim r [
          | ends ↦ some ([], s)
          | refused ↦ none
          | goes_on state' out ↦ Option.map (λ (read, rest). (out ++ read, rest)) (scan state' s)
        ])
    go ends ih = omega arith
    go refused ih = tt
    go (goes_on st' out) ih = longer _ (length s) (scan st' s) (λ p. refl) (ih st')

pub read_string-Ends : (s : Str) → Ends (Leaves (length s)) (of_option (read_string s))
read_string-Ends s = elim (Option-cases (scan plain s)) [
  | inl n ↦ rw n tt
  | inr (p, o) ↦ let h : Shorter (length s) (some p) = rw o at (scan-Shorter s plain) in rw o h
]

length-span_number : (s : Str) → length (span_number s).0 + length (span_number s).1 ≡ length s
unfolding span_number
length-span_number [] = omega arith
length-span_number (c ∷ s) = elim (Bool-cases (is_number_char c)) [
  | inl e ↦ rw e (omega (arith, length-span_number s))
  | inr e ↦ rw e (omega arith)
]

pub Ends-weaken :
    {A : Type 0} (P Q : A → Type 0) (m : Parsed A) → Ends P m → ((a : A) → P a → Q a) → Ends Q m
Ends-weaken P Q (parsed a) h k = k a h
Ends-weaken P Q malformed h k = tt
Ends-weaken P Q out_of_fuel h k = h

drop_prefix-Ends :
    (ps s : Str) → Ends (λ rest. length rest + length ps ≡ length s) (of_option (drop_prefix ps s))
unfolding drop_prefix
drop_prefix-Ends [] s = omega arith
drop_prefix-Ends (p ∷ ps) [] = tt
drop_prefix-Ends (p ∷ ps) (c ∷ s) = elim (Bool-cases (eqb p c)) [
  | inl e ↦
      rw e (
        Ends-weaken _ _ (of_option (drop_prefix ps s)) (drop_prefix-Ends ps s) (λ a h. omega arith))
  | inr e ↦ rw e tt
]

module _ {F : Type 0} (codec : FloatCodec F) where
  number_of-Ends :
      (n : ℕ) (literal rest : Str)
      → length literal + length rest ≡ n
      → Ends (Leaves n) (
          of_option (
            Option.map
              (λ (x : Number F). (x, rest))
              (number_of codec literal (num_run (some start) literal))))
  unfolding num_run
  number_of-Ends n [] rest h = tt
  number_of-Ends n (c ∷ literal) rest h =
      elim (Option-cases (number_of codec (c ∷ literal) (num_run (some start) (c ∷ literal)))) [
        | inl e ↦ rw e tt
        | inr (x, e) ↦ rw e (omega arith)
      ]

  read_number-Ends : (s : Str) → Ends (Leaves (length s)) (of_option (read_number codec s))
  read_number-Ends s =
      number_of-Ends (length s) (span_number s).0 (span_number s).1 (length-span_number s)

  literal-Ends :
      (p : ℕ) (ps s : Str) (v : Value F) (other : Option (Value F × Str))
      → Ends (Leaves (length s)) (of_option other)
      → Ends (Leaves (length s)) (of_option (literal (p ∷ ps) v s other))
  literal-Ends p ps s v other h = go (drop_prefix (p ∷ ps) s) (drop_prefix-Ends (p ∷ ps) s)
    where
      go :
          (r : Option Str)
          → Ends (λ rest. length rest + length (p ∷ ps) ≡ length s) (of_option r)
          → Ends (Leaves (length s)) (of_option (if_literal r v other))
      go none e = h
      go (some rest) e = omega arith

  value-Ends :
      (n : ℕ) (o : Option (Number F × Str))
      → Ends (Leaves n) (of_option o)
      → Ends (Leaves n) (of_option (Option.map (λ (x, rest). (of_number x, rest)) o))
  value-Ends n none h = tt
  value-Ends n (some p) h = h

  pub read_atom-Ends : (s : Str) → Ends (Leaves (length s)) (of_option (read_atom codec s))
  unfolding read_atom
  read_atom-Ends s = literal-Ends b'n' (rest_of null_text) s _ _ (
      literal-Ends b't' (rest_of true_text) s _ _ (
        literal-Ends b'f' (rest_of false_text) s _ _ (
          literal-Ends b'N' (rest_of nan_text) s _ _ (
            literal-Ends b'I' (rest_of infinity_text) s _ _ (
              literal-Ends b'-' infinity_text s _ _
                (value-Ends (length s) (read_number codec s) (read_number-Ends s)))))))

pub read_key-Ends : (s : Str) → Ends (Leaves (length s)) (read_key s)
read_key-Ends s = Ends-bind _ _ (expect quote s) _ (expect-Ends quote s) λ t ht.
    Ends-bind (Leaves (length t)) _ (of_option (read_string t)) _ (read_string-Ends t) λ p hp.
      Ends-bind _ _ (expect b':' (skip_blanks p.1)) _ (expect-Ends b':' (skip_blanks p.1))
        λ w hw. omega (arith, length-skip_blanks p.1, length-skip_blanks w)
