-- ===== src/Python/Json/Numbers.antt =====
-- Number literals: `int.__repr__`, the grammar of `NUMBER_RE`, and what it reads. A float is printed
-- and read by two functions, `float.__repr__` and `float`, on a type of its own.
pub mod Reads
use fastapi_kafka_guide.Prelude.{
  ℕ, zero, suc, ◌+◌, ◌-◌, ◌*◌, ◌/◌, ◌%◌, ◌^◌, ◌≤◌, ◌<◌, String, ◌≡◌, refl, sym, ap, subst, ◌∙◌, ◌≢◌,
  ◌↔◌, ◌⊎◌, inl, inr, Bool, true, false, ◌&&◌, ◌||◌, not, Option, none, some, List, [], ◌∷◌, ◌++◌,
  map, append-nil, append_assoc, arith, ltb, leb, eqb, if◌then◌else◌, Bool-cases, Option-cases,
  get_or, is_some, length, take, drop, replicate, length-append, length-drop, length-take_le,
  nil_of_length, All, All-append, In, In-append_left, In-append_right, In-take, In-if, All-In,
  In-All, eqb_iff, le→leb, Result, ok, err, Exec, Result-cases, pure, raise, modify, gets, ◌>>=◌,
  ◌>>◌, ◌==◌, eq_iff, eq_refl,
}
use mathlib.Core.Option
use fastapi_kafka_guide.Prelude.Int.{ℤ, pos, negsuc}
use fastapi_kafka_guide.Python.Utf8.{Str, IsText}

-- `float.__repr__` and `float`.
pub record FloatCodec (F : Type 0) : Type 0 where
  pub shown : F → Str
  pub read : Str → F

-- The decimal digits; a unit of fuel for each.
unfoldable pub digits_in : ℕ → ℕ → Str
digits_in zero n = []
digits_in (suc fuel) n =
    let rest = digits_in fuel (n / 10) in
    if ltb n 10 then (b'0' + n) ∷ [] else rest ++ (b'0' + n % 10) ∷ []

abbrev pub digits : ℕ → Str
digits n = digits_in (n + 1) n

abbrev pub show_int : ℤ → Str
show_int (pos n) = digits n
show_int (negsuc n) = b'-' ∷ digits (suc n)

-- How far a number literal is read: `-?(0|[1-9][0-9]*)(\.[0-9]+)?([eE][-+]?[0-9]+)?`.
pub data NumState : Type 0 where
  start minus lone_zero whole point fraction exponent exponent_sign exponent_digits : NumState

pub data CharKind : Type 0 where
  nought digit dash plus dot e_letter other_char : CharKind

unfoldable pub kind_of : ℕ → CharKind
kind_of c =
    if eqb c b'0'
    then nought
    else if leb b'1' c && leb c b'9'
    then digit
    else if eqb c b'-'
    then dash
    else if eqb c b'+'
    then plus
    else if eqb c b'.'
    then dot
    else if eqb c b'e' || eqb c b'E'
    then e_letter
    else other_char

unfoldable pub num_step : NumState → CharKind → Option NumState
num_step start dash = some minus
num_step start nought = some lone_zero
num_step start digit = some whole
num_step minus nought = some lone_zero
num_step minus digit = some whole
num_step whole nought = some whole
num_step whole digit = some whole
num_step whole dot = some point
num_step lone_zero dot = some point
num_step whole e_letter = some exponent
num_step lone_zero e_letter = some exponent
num_step point nought = some fraction
num_step point digit = some fraction
num_step fraction nought = some fraction
num_step fraction digit = some fraction
num_step fraction e_letter = some exponent
num_step exponent dash = some exponent_sign
num_step exponent plus = some exponent_sign
num_step exponent nought = some exponent_digits
num_step exponent digit = some exponent_digits
num_step exponent_sign nought = some exponent_digits
num_step exponent_sign digit = some exponent_digits
num_step exponent_digits nought = some exponent_digits
num_step exponent_digits digit = some exponent_digits
num_step _ _ = none

unfoldable pub num_run : Option NumState → Str → Option NumState
num_run st [] = st
num_run st (c ∷ s) = num_run (Option.bind st (λ q. num_step q (kind_of c))) s

pub data Number (F : Type 0) : Type 0 where
  an_int : ℤ → Number F
  a_float : F → Number F

abbrev pub is_number_kind : CharKind → Bool
is_number_kind other_char = false
is_number_kind _ = true

abbrev pub is_number_char : ℕ → Bool
is_number_char c = is_number_kind (kind_of c)

-- The longest run of characters that numbers are made of. A literal that `NUMBER_RE` ends before that
-- is followed by such a character, which no text of JSON allows, so it is refused either way.
unfoldable pub span_number : Str → Str × Str
span_number [] = ([], [])
span_number (c ∷ s) =
    let (read, rest) = span_number s in if is_number_char c then (c ∷ read, rest) else ([], c ∷ s)

unfoldable pub nat_value : ℕ → Str → ℕ
nat_value n [] = n
nat_value n (c ∷ s) = nat_value (n * 10 + (c - b'0')) s

abbrev negated : ℕ → ℤ
negated zero = pos 0
negated (suc n) = negsuc n

-- `int` on a literal.
unfoldable pub int_value : Str → ℤ
int_value [] = pos 0
int_value (c ∷ s) = if eqb c b'-' then negated (nat_value 0 s) else pos (nat_value 0 (c ∷ s))

-- A text on which a number before it ends.
abbrev pub stops_number : Str → Bool
stops_number [] = true
stops_number (c ∷ s) = not (is_number_char c)

module _ {F : Type 0} (codec : FloatCodec F) where
  -- What a literal is, from where the grammar stands at its end.
  abbrev pub number_of : Str → Option NumState → Option (Number F)
  number_of s (some lone_zero) = some (an_int (int_value s))
  number_of s (some whole) = some (an_int (int_value s))
  number_of s (some fraction) = some (a_float (codec.read s))
  number_of s (some exponent_digits) = some (a_float (codec.read s))
  number_of s _ = none

  abbrev pub read_number : Str → Option (Number F × Str)
  read_number s =
      let (literal, rest) = span_number s in
      Option.map (λ n. (n, rest)) (number_of literal (num_run (some start) literal))

  -- The text of a finite float is a float's literal, and reads as it.
  abbrev pub IsFinite : F → Type 0
  IsFinite x = number_of (codec.shown x) (num_run (some start) (codec.shown x)) ≡ some (a_float x)
