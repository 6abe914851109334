-- ===== src/Python/Json/Numbers/Reads.antt =====
-- A number that was printed reads back.
use fastapi_kafka_guide.Prelude.{
  ℕ, zero, suc, ◌+◌, ◌-◌, ◌*◌, ◌/◌, ◌%◌, ◌<◌, ◌≡◌, refl, ap, ◌∙◌, ◌≢◌, ◌⊎◌, inl, inr, Bool, true,
  false, ◌&&◌, not, Option, none, some, [], ◌∷◌, ◌++◌, arith, ltb, leb, eqb, Bool-cases,
  Option-cases, All, All-append,
}
use mathlib.Core.Option
use fastapi_kafka_guide.Prelude.Int.{ℤ, pos, negsuc}
use fastapi_kafka_guide.Python.Utf8.{Str}
use fastapi_kafka_guide.Python.Json.Numbers.{
  FloatCodec, digits_in, digits, show_int, NumState, start, minus, lone_zero, whole, point,
  fraction, exponent, exponent_sign, exponent_digits, CharKind, nought, digit, dash, plus, dot,
  e_letter, other_char, is_number_kind, kind_of, num_step, num_run, Number, an_int, is_number_char,
  span_number, nat_value, int_value, stops_number, number_of, read_number,
}

nat_value-append :
    (s : Str) (n d : ℕ) → d < 10 → nat_value n (s ++ (b'0' + d) ∷ []) ≡ nat_value n s * 10 + d
unfolding nat_value
nat_value-append [] n d h = omega arith
nat_value-append (c ∷ s) n d h = nat_value-append s (n * 10 + (c - b'0')) d h

nat_value-digits_in : (fuel n : ℕ) → n < fuel → nat_value 0 (digits_in fuel n) ≡ n
unfolding digits_in
nat_value-digits_in zero n h = absurd (omega arith)
nat_value-digits_in (suc fuel) n h = elim (Bool-cases (ltb n 10)) [
  | inl e ↦ rw e (unfold nat_value in omega arith)
  | inr e ↦
      rw
        (
          e,
          nat_value-append (digits_in fuel (n / 10)) 0 (n % 10) (omega arith),
          nat_value-digits_in fuel (n / 10) (ground arith),
        )
        (omega arith)
]

kind_of-digit : (d : ℕ) → 0 < d → d < 10 → kind_of (b'0' + d) ≡ digit
unfolding kind_of
kind_of-digit d p h = ground arith

num_run-append : (s t : Str) (st : Option NumState) → num_run st (s ++ t) ≡ num_run (num_run st s) t
unfolding num_run
num_run-append [] t st = refl
num_run-append (c ∷ s) t st = num_run-append s t _

-- After a first digit that is not zero, each digit keeps the grammar in the whole part.
whole-digit : (d : ℕ) → d < 10 → num_run (some whole) ((b'0' + d) ∷ []) ≡ some whole
unfolding num_run num_step Option.bind
whole-digit zero h = unfold kind_of in refl
whole-digit (suc d) h = rw (kind_of-digit (suc d) (omega arith) h) refl

-- A literal begins at `st`: at its start, or after a minus.
data Begins (st : NumState) : Type 0 where
  begins : num_step st nought ≡ some lone_zero → num_step st digit ≡ some whole → Begins st

num_run-digits_in :
    (fuel n : ℕ) (st : NumState)
    → Begins st
    → n < fuel
    → 0 < n
    → num_run (some st) (digits_in fuel n) ≡ some whole
unfolding digits_in
num_run-digits_in zero n st b h p = absurd (omega arith)
num_run-digits_in (suc fuel) n st (begins z d) h p = elim (Bool-cases (ltb n 10)) [
  | inl e ↦ rw e (unfold num_run Option.bind in rw (kind_of-digit n p (ground arith), d) refl)
  | inr e ↦
      rw
        (
          e,
          num_run-append (digits_in fuel (n / 10)) _ (some st),
          num_run-digits_in fuel (n / 10) st (begins z d) (ground arith) (ground arith),
        )
        (whole-digit (n % 10) (omega arith))
]

abbrev IsDigit : ℕ → Type 0
IsDigit c = (leb b'0' c && leb c b'9') ≡ true

digits_in-IsDigit : (fuel n : ℕ) → All IsDigit (digits_in fuel n)
unfolding digits_in
digits_in-IsDigit zero n = tt
digits_in-IsDigit (suc fuel) n = elim (Bool-cases (ltb n 10)) [
  | inl e ↦ rw e (shown n (ground arith), tt)
  | inr e ↦ rw e (
      All-append IsDigit (digits_in fuel (n / 10)) _ (digits_in-IsDigit fuel (n / 10))
        (shown (n % 10) (omega arith), tt))
]
  where
    shown : (d : ℕ) → d < 10 → IsDigit (b'0' + d)
    shown d h = ground arith

is_number_char-IsDigit : (c : ℕ) → IsDigit c → is_number_char c ≡ true
unfolding kind_of
is_number_char-IsDigit c h = ground arith

int_value-IsDigit : (s : Str) → All IsDigit s → int_value s ≡ pos (nat_value 0 s)
unfolding int_value nat_value
int_value-IsDigit [] h = refl
int_value-IsDigit (c ∷ s) h = let n : eqb c b'-' ≡ false = dash_apart c h.0 in rw n refl
  where
    dash_apart : (c : ℕ) → IsDigit c → eqb c b'-' ≡ false
    dash_apart c h = ground arith

int_value-digits : (n : ℕ) → int_value (digits n) ≡ pos n
int_value-digits n =
    int_value-IsDigit (digits n) (digits_in-IsDigit (n + 1) n)
    ∙ ap pos (nat_value-digits_in (n + 1) n (omega arith))

-- Numbers are taken whole where what follows is not of a number.
span_number-append :
    (s rest : Str)
    → All (λ c. is_number_char c ≡ true) s
    → stops_number rest ≡ true
    → span_number (s ++ rest) ≡ (s, rest)
unfolding span_number
span_number-append [] [] h stops = refl
span_number-append [] (c ∷ rest) h stops =
    let e : is_number_char c ≡ false = not_not (is_number_char c) stops in rw e refl
  where
    not_not : (b : Bool) → not b ≡ true → b ≡ false
    not_not true h = cc
    not_not false h = refl
span_number-append (c ∷ s) rest h stops = rw (h.0, span_number-append s rest h.1 stops) refl

num_run-none : (s : Str) → num_run none s ≡ none
unfolding num_run Option.bind
num_run-none [] = refl
num_run-none (c ∷ s) = num_run-none s

num_step-other : (q : NumState) → num_step q other_char ≡ none
unfolding num_step
num_step-other start = refl
num_step-other minus = refl
num_step-other lone_zero = refl
num_step-other whole = refl
num_step-other point = refl
num_step-other fraction = refl
num_step-other exponent = refl
num_step-other exponent_sign = refl
num_step-other exponent_digits = refl

other_cases : (k : CharKind) → (is_number_kind k ≡ true) ⊎ (k ≡ other_char)
other_cases other_char = inr refl
other_cases nought = inl refl
other_cases digit = inl refl
other_cases dash = inl refl
other_cases plus = inl refl
other_cases dot = inl refl
other_cases e_letter = inl refl

-- What the grammar reads is made of the characters of numbers.
pub All-num_run :
    (s : Str) (q : NumState) → num_run (some q) s ≢ none → All (λ c. is_number_char c ≡ true) s
unfolding num_run Option.bind
All-num_run [] q h = tt
All-num_run (c ∷ s) q h = elim (other_cases (kind_of c)) [
  | inl e ↦ elim (Option-cases (num_step q (kind_of c))) [
    | inl n ↦ absurd (h (rw n (num_run-none s)))
    | inr (q', o) ↦ (e, All-num_run s q' (λ n. h (rw o n)))
  ]
  | inr e ↦ absurd (h (rw (e, num_step-other q) (num_run-none s)))
]

negative_whole : (n : ℕ) → num_run (some start) (b'-' ∷ digits (suc n)) ≡ some whole
unfolding num_run num_step kind_of Option.bind
negative_whole n =
    num_run-digits_in (suc n + 1) (suc n) minus (begins refl refl) (omega arith) (omega arith)

int_value-negative : (n : ℕ) → int_value (b'-' ∷ digits (suc n)) ≡ negsuc n
unfolding int_value
int_value-negative n = rw (nat_value-digits_in (suc n + 1) (suc n) (omega arith)) refl

module _ {F : Type 0} (codec : FloatCodec F) where
  number_of-digits :
      (n : ℕ) → number_of codec (digits n) (num_run (some start) (digits n)) ≡ some (an_int (pos n))
  number_of-digits zero =
      unfold digits_in num_run num_step kind_of int_value nat_value Option.bind in refl
  number_of-digits (suc n) =
      rw
        (
          num_run-digits_in (suc n + 1) (suc n) start
              (begins (unfold num_step in refl) (unfold num_step in refl)) (omega arith)
              (omega arith),
          int_value-digits (suc n),
        )
        refl

  pub number_of-show_int :
      (i : ℤ) → number_of codec (show_int i) (num_run (some start) (show_int i)) ≡ some (an_int i)
  number_of-show_int (pos n) = number_of-digits n
  number_of-show_int (negsuc n) = rw (negative_whole n, int_value-negative n) refl

  -- A literal that is read whole, before a text that ends it.
  pub read_number-append :
      (s rest : Str) (n : Number F)
      → number_of codec s (num_run (some start) s) ≡ some n
      → stops_number rest ≡ true
      → read_number codec (s ++ rest) ≡ some (n, rest)
  read_number-append s rest n e stops =
      rw (span_number-append s rest (All-num_run s start apart) stops, e) refl
    where
      apart : num_run (some start) s ≢ none
      apart none_read = let h : none ≡ some n = rw none_read at e in cc
