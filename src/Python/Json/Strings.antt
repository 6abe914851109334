-- ===== src/Python/Json/Strings.antt =====
-- String literals: `encode_basestring`, which `ensure_ascii=False` chooses, and `scanstring`.
pub mod Reads
use fastapi_kafka_guide.Prelude.{
  ℕ, zero, suc, ◌+◌, ◌-◌, ◌*◌, ◌/◌, ◌%◌, ◌^◌, ◌≤◌, ◌<◌, String, ◌≡◌, refl, sym, ap, subst, ◌∙◌, ◌≢◌,
  ◌↔◌, ◌⊎◌, inl, inr, Bool, true, false, ◌&&◌, ◌||◌, not, Option, none, some, List, [], ◌∷◌, ◌++◌,
  map, append-nil, append_assoc, arith, ltb, leb, eqb, if◌then◌else◌, Bool-cases, Option-cases,
  get_or, is_some, length, take, drop, replicate, length-append, length-drop, length-take_le,
  nil_of_length, All, All-append, In, In-append_left, In-append_right, In-take, In-if, All-In,
  In-All, eqb_iff, le→leb, Result, ok, err, Exec, Result-cases, pure, raise, modify, gets, ◌>>=◌,
  ◌>>◌, ◌==◌, eq_iff, eq_refl,
}
use mathlib.Core.Option
use fastapi_kafka_guide.Python.Utf8.{Str, is_scalar}

abbrev pub quote : ℕ
quote = b'"'

abbrev pub backslash : ℕ
backslash = b'\\'

unfoldable pub hex_digit : ℕ → ℕ
hex_digit n = if ltb n 10 then b'0' + n else b'a' + (n - 10)

-- A quote, a backslash and what is below the blank are escaped, some by a letter.
unfoldable pub escape_char : ℕ → Str
unfolding hex_digit
escape_char c =
    if eqb c quote
    then backslash ∷ quote ∷ []
    else if eqb c backslash
    then backslash ∷ backslash ∷ []
    else if eqb c b'\n'
    then backslash ∷ b'n' ∷ []
    else if eqb c b'\r'
    then backslash ∷ b'r' ∷ []
    else if eqb c b'\t'
    then backslash ∷ b't' ∷ []
    else if eqb c 12
    then backslash ∷ b'f' ∷ []
    else if eqb c 8
    then backslash ∷ b'b' ∷ []
    else if ltb c 0x20
    then backslash ∷ b'u' ∷ b'0' ∷ b'0' ∷ hex_digit (c / 16) ∷ hex_digit (c % 16) ∷ []
    else c ∷ []

unfoldable pub escape : Str → Str
escape [] = []
escape (c ∷ s) = escape_char c ++ escape s

abbrev pub show_string : Str → Str
show_string s = quote ∷ (escape s ++ quote ∷ [])

-- Inside a literal: in plain text, after a backslash, or with digits of `\uXXXX` still to come.
pub data Scanning : Type 0 where
  plain escaped : Scanning
  hex : ℕ → ℕ → Scanning

-- One character: the literal ends, is refused, or goes on with the characters that are now known.
pub data Scanned : Type 0 where
  ends refused : Scanned
  goes_on : Scanning → Str → Scanned

unfoldable pub hex_value : ℕ → Option ℕ
hex_value c =
    if leb b'0' c && leb c b'9'
    then some (c - b'0')
    else if leb b'a' c && leb c b'f'
    then some (c - b'a' + 10)
    else if leb b'A' c && leb c b'F'
    then some (c - b'A' + 10)
    else none

-- The table of escapes by one letter.
unfoldable pub unescape : ℕ → Option ℕ
unescape c =
    if eqb c quote || eqb c backslash || eqb c b'/'
    then some c
    else if eqb c b'n'
    then some b'\n'
    else if eqb c b'r'
    then some b'\r'
    else if eqb c b't'
    then some b'\t'
    else if eqb c b'f'
    then some 12
    else if eqb c b'b'
    then some 8
    else none

abbrev after_escape : Option ℕ → Scanned
after_escape none = refused
after_escape (some c) = goes_on plain (c ∷ [])

abbrev after_hex : ℕ → ℕ → Option ℕ → Scanned
after_hex more value none = refused
after_hex zero value (some d) = goes_on plain ((value * 16 + d) ∷ [])
after_hex (suc more) value (some d) = goes_on (hex more (value * 16 + d)) []

unfoldable pub scan_char : Scanning → ℕ → Scanned
scan_char plain c =
    if eqb c quote
    then ends
    else if eqb c backslash
    then goes_on escaped []
    else if ltb c 0x20
    then refused
    else goes_on plain (c ∷ [])
scan_char escaped c = if eqb c b'u' then goes_on (hex 3 0) [] else after_escape (unescape c)
scan_char (hex more value) c = after_hex more value (hex_value c)

-- The characters up to the closing quote, and what follows it.
unfoldable pub scan : Scanning → Str → Option (Str × Str)
scan state [] = none
scan state (c ∷ s) = elim (scan_char state c) [
  | ends ↦ some ([], s)
  | refused ↦ none
  | goes_on state' out ↦ Option.map (λ (read, rest). (out ++ read, rest)) (scan state' s)
]

abbrev pub is_high : ℕ → Bool
is_high c = leb 0xd800 c && ltb c 0xdc00

abbrev pub is_low : ℕ → Bool
is_low c = leb 0xdc00 c && ltb c 0xe000

-- Two escapes that are a surrogate pair are one character. A decoded text has no others.
unfoldable pub join_surrogates : Str → Str
join_surrogates [] = []
join_surrogates (c ∷ []) = c ∷ []
join_surrogates (c ∷ d ∷ s) = elim (is_high c && is_low d) [
  | true ↦ (0x10000 + (c - 0xd800) * 1024 + (d - 0xdc00)) ∷ join_surrogates s
  | false ↦ c ∷ join_surrogates (d ∷ s)
]

-- What follows the opening quote.
abbrev pub read_string : Str → Option (Str × Str)
read_string s = Option.map (λ (read, rest). (join_surrogates read, rest)) (scan plain s)
