-- ===== src/Python/Json/Openings.antt =====
-- What printed values begin with, so that each is taken for what it is.
use fastapi_kafka_guide.Prelude.{
  ℕ, suc, ◌<◌, ◌≡◌, refl, sym, subst, inl, inr, true, false, none, some, [], ◌∷◌, ◌++◌, arith, eqb,
  Bool-cases, length, All, eqb_iff,
}
use mathlib.Core.Option
use fastapi_kafka_guide.Python.Utf8.{Str}
use fastapi_kafka_guide.Python.Json.Strings.{quote}
use fastapi_kafka_guide.Python.Json.Numbers.{
  FloatCodec, Number, kind_of, num_step, num_run, start, is_number_char, number_of, stops_number,
}
use fastapi_kafka_guide.Python.Json.Numbers.Reads.{All-num_run, read_number-append}
use fastapi_kafka_guide.Python.Json.Printer.{null_text, true_text, false_text}
use fastapi_kafka_guide.Python.Json.Steps.{parse_value-other}
use fastapi_kafka_guide.Python.Json.Parser.{
  parsed, skip_blanks, is_blank, opens_other, opening, drop_prefix, starts, rest_of, of_number,
  read_atom, parse_value, nan_text, infinity_text, without_mark,
}

-- A text that begins with neither a blank, nor a closing bracket, nor a byte order mark.
pub data Opens : Str → Type 0 where
  opens :
      {c : ℕ} {s : Str}
      → is_blank c ≡ false
      → eqb c b']' ≡ false
      → eqb c 0xfeff ≡ false
      → Opens (c ∷ s)

pub length-Opens : {s : Str} → Opens s → 0 < length s
length-Opens (opens a b d) = omega arith

pub skip_blanks-Opens : {s : Str} (rest : Str) → Opens s → skip_blanks (s ++ rest) ≡ s ++ rest
unfolding skip_blanks
skip_blanks-Opens rest (opens a b d) = rw (skip_blanks, a) refl

pub starts-Opens : {s : Str} (rest : Str) → Opens s → starts b']' (s ++ rest) ≡ false
starts-Opens rest (opens a b d) = b

pub without_mark-Opens : {s : Str} → Opens s → without_mark s ≡ parsed s
without_mark-Opens (opens a b d) = rw d refl

-- A character of numbers is none of another kind.
apart : (k c : ℕ) → is_number_char k ≡ false → is_number_char c ≡ true → eqb c k ≡ false
apart k c o n = elim (Bool-cases (eqb c k)) [
  | inl e ↦
      let same : c ≡ k = (eqb_iff c k).0 e in
      let n' : is_number_char k ≡ true = subst (λ c. is_number_char c ≡ true) same n in cc
  | inr e ↦ e
]

apart_sym : (k c : ℕ) → is_number_char k ≡ false → is_number_char c ≡ true → eqb k c ≡ false
apart_sym k c o n = let e : eqb c k ≡ false = apart k c o n in ground arith

pub drop_prefix-number :
    (p : ℕ) (ps : Str) (c : ℕ) (s : Str)
    → is_number_char p ≡ false
    → is_number_char c ≡ true
    → drop_prefix (p ∷ ps) (c ∷ s) ≡ none
unfolding drop_prefix
drop_prefix-number p ps c s o n = rw (apart_sym p c o n) refl

module _ {F : Type 0} (codec : FloatCodec F) where
  -- The text is a number's literal, and `n` is the number.
  abbrev pub Spells : Str → Number F → Type 0
  Spells s n = number_of codec s (num_run (some start) s) ≡ some n

  pub All-Spells : (s : Str) (n : Number F) → Spells s n → All (λ c. is_number_char c ≡ true) s
  All-Spells s n e =
      All-num_run s start (λ none_read. let h : none ≡ some n = rw none_read at e in cc)

  not_empty : (n : Number F) → ¬ Spells [] n
  unfolding num_run
  not_empty n e = let h : none ≡ some n = e in cc

  not_minus : (n : Number F) → ¬ Spells (b'-' ∷ []) n
  unfolding num_run num_step kind_of Option.bind
  not_minus n e = let h : none ≡ some n = e in cc

  -- After a minus comes a digit, so the text is not that of minus infinity.
  drop_minus_infinity :
      (s rest : Str) (n : Number F)
      → Spells s n
      → drop_prefix (b'-' ∷ infinity_text) (s ++ rest) ≡ none
  unfolding drop_prefix
  drop_minus_infinity [] rest n e = absurd (not_empty n e)
  drop_minus_infinity (c ∷ []) rest n e = elim (Bool-cases (eqb b'-' c)) [
    | inl same ↦
        let is : c ≡ b'-' = sym ((eqb_iff b'-' c).0 same) in
        absurd (not_minus n (subst (λ c. Spells (c ∷ []) n) is e))
    | inr other ↦ rw other refl
  ]
  drop_minus_infinity (c ∷ d ∷ s) rest n e =
      let h = (All-Spells (c ∷ d ∷ s) n e).1.0 in
      let stuck : drop_prefix infinity_text (d ∷ s ++ rest) ≡ none =
        drop_prefix-number b'I' (rest_of infinity_text) d (s ++ rest) (unfold kind_of in refl) h in
      elim (Bool-cases (eqb b'-' c)) [
        | inl same ↦ rw (same, stuck) refl
        | inr other ↦ rw other refl
      ]

  pub Opens-Spells : (s : Str) (n : Number F) → Spells s n → Opens s
  unfolding kind_of
  Opens-Spells [] n e = absurd (not_empty n e)
  Opens-Spells (c ∷ s) n e =
      let h = (All-Spells (c ∷ s) n e).0 in
      let blank : is_blank c ≡ false =
        rw (apart b' ' c refl h, apart b'\t' c refl h, apart b'\n' c refl h, apart b'\r' c refl h)
          refl in
      opens blank (apart b']' c refl h) (apart 0xfeff c refl h)

  read_atom-Spells :
      (c : ℕ) (s rest : Str) (n : Number F)
      → Spells (c ∷ s) n
      → stops_number rest ≡ true
      → read_atom codec (c ∷ s ++ rest) ≡ some (of_number n, rest)
  unfolding read_atom kind_of
  read_atom-Spells c s rest n e stops =
      let h = (All-Spells (c ∷ s) n e).0 in
      let t = s ++ rest in
      rw
        (
          read_atom,
          drop_prefix-number b'n' (rest_of null_text) c t refl h,
          drop_prefix-number b't' (rest_of true_text) c t refl h,
          drop_prefix-number b'f' (rest_of false_text) c t refl h,
          drop_prefix-number b'N' (rest_of nan_text) c t refl h,
          drop_prefix-number b'I' (rest_of infinity_text) c t refl h,
          drop_minus_infinity (c ∷ s) rest n e,
          read_number-append codec (c ∷ s) rest n e stops,
        )
        refl

  -- A number before a text that ends it is read as that number.
  pub parse_value-Spells :
      (f : ℕ) (s rest : Str) (n : Number F)
      → Spells s n
      → stops_number rest ≡ true
      → parse_value codec (suc f) (s ++ rest) ≡ parsed (of_number n, rest)
  parse_value-Spells f [] rest n e stops = absurd (not_empty n e)
  parse_value-Spells f (c ∷ s) rest n e stops =
      let h = (All-Spells (c ∷ s) n e).0 in
      let other : opening c ≡ opens_other =
        rw
          (
            apart quote c (unfold kind_of in refl) h,
            apart b'[' c (unfold kind_of in refl) h,
            apart b'{' c (unfold kind_of in refl) h,
          )
          refl in
      let atom : read_atom codec (c ∷ s ++ rest) ≡ some (of_number n, rest) =
        read_atom-Spells c s rest n e stops in
      parse_value-other codec f c (s ++ rest) (of_number n, rest) other atom
