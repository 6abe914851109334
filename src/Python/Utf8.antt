-- ===== src/Python/Utf8.antt =====
-- UTF-8 as `str.encode` and `bytes.decode` do it, where both raise `UnicodeError` on what they refuse.
pub mod RoundTrip
use fastapi_kafka_guide.Prelude.{
  ℕ, ◌+◌, ◌-◌, ◌*◌, ◌/◌, ◌%◌, ◌≤◌, ◌<◌, String, ◌≡◌, refl, ap, ◌∙◌, ◌≢◌, ◌⊎◌, inl, inr, Bool, true,
  false, ◌&&◌, ◌||◌, not, Option, none, some, List, [], ◌∷◌, ◌++◌, arith, ltb, leb, eqb,
  if◌then◌else◌, All, append_assoc,
}
use mathlib.Core.Option
use Prim.Native.Char.{code}

-- A `str` is its code points.
abbrev pub Str : Type 0
Str = List ℕ

-- A literal's code points.
abbrev pub text : String → Str
text String.[] = []
text (String.◌∷◌ c s) = code c ∷ text s

abbrev pub Bytes : Type 0
Bytes = List ℕ

-- A code point that is not a surrogate.
abbrev pub is_scalar : ℕ → Bool
is_scalar c = ltb c 0xd800 || (leb 0xe000 c && ltb c 0x110000)

-- A text without surrogates, which is what a decoded one is.
abbrev pub IsText : Str → Type 0
IsText = All (λ c. is_scalar c ≡ true)

-- The bytes of one code point.
unfoldable pub encode_char : ℕ → Bytes
encode_char c =
    if ltb c 0x80
    then c ∷ []
    else if ltb c 0x800
    then (0xc0 + c / 64) ∷ (0x80 + c % 64) ∷ []
    else if ltb c 0x10000
    then (0xe0 + c / 4096) ∷ (0x80 + c / 64 % 64) ∷ (0x80 + c % 64) ∷ []
    else (0xf0 + c / 262144) ∷ (0x80 + c / 4096 % 64) ∷ (0x80 + c / 64 % 64) ∷ (0x80 + c % 64) ∷ []

-- A surrogate is refused.
unfoldable pub encode : Str → Option Bytes
encode [] = some []
encode (c ∷ s) =
    let rest = encode s in if is_scalar c then Option.map (λ bs. encode_char c ++ bs) rest else none

-- What is read of a code point: nothing, or how many bytes it still needs after this one, the bits so
-- far, and the least value that needs this many bytes.
pub data Decoding : Type 0 where
  idle : Decoding
  pending : ℕ → ℕ → ℕ → Decoding

-- One byte: the code points that it completes, or `none` where it is refused.
unfoldable pub decode_byte : Decoding → ℕ → Option (Decoding × Str)
decode_byte idle b =
    if ltb b 0x80
    then some (idle, b ∷ [])
    else if ltb b 0xc2
    then none
    else if ltb b 0xe0
    then some (pending 0 (b - 0xc0) 0x80, [])
    else if ltb b 0xf0
    then some (pending 1 (b - 0xe0) 0x800, [])
    else if ltb b 0xf5
    then some (pending 2 (b - 0xf0) 0x10000, [])
    else none
decode_byte (pending more bits least) b =
    let value = bits * 64 + (b - 0x80) in
    if not (leb 0x80 b && ltb b 0xc0)
    then none
    else if ltb 0 more
    then some (pending (more - 1) value least, [])
    else if leb least value && is_scalar value
    then some (idle, value ∷ [])
    else none

unfoldable pub decode_from : Decoding → Bytes → Option Str
decode_from idle [] = some []
decode_from (pending _ _ _) [] = none
decode_from d (b ∷ bs) =
    Option.bind (decode_byte d b) λ (d', out). Option.map (λ s. out ++ s) (decode_from d' bs)

abbrev pub decode : Bytes → Option Str
decode = decode_from idle
