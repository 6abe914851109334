-- ===== src/Python/Utf8/RoundTrip.antt =====
-- What `encode` gives, `decode` reads back.
use fastapi_kafka_guide.Prelude.{
  Bool, ℕ, ◌+◌, ◌-◌, ◌*◌, ◌/◌, ◌%◌, ◌≤◌, ◌<◌, ◌≡◌, refl, ◌∙◌, inl, inr, true, false, ◌&&◌, none,
  some, [], ◌∷◌, ◌++◌, arith, ltb, leb, Bool-cases, Option-cases, some_injective, le→leb,
}
use mathlib.Core.Option
use fastapi_kafka_guide.Python.Utf8.{
  Str, IsText, Bytes, is_scalar, encode_char, encode, Decoding, idle, pending, decode_byte,
  decode_from, decode,
}

decode_byte-two :
    (c : ℕ)
    → 0x80 ≤ c
    → c < 0x800
    → decode_byte idle (0xc0 + c / 64) ≡ some (pending 0 (c / 64) 0x80, [])
unfolding decode_byte
decode_byte-two c h l = ground arith

decode_byte-three :
    (c : ℕ)
    → c < 0x10000
    → decode_byte idle (0xe0 + c / 4096) ≡ some (pending 1 (c / 4096) 0x800, [])
unfolding decode_byte
decode_byte-three c l = ground arith

decode_byte-four :
    (c : ℕ)
    → c < 0x110000
    → decode_byte idle (0xf0 + c / 262144) ≡ some (pending 2 (c / 262144) 0x10000, [])
unfolding decode_byte
decode_byte-four c l = ground arith

decode_byte-more :
    (n bits least b : ℕ)
    → decode_byte (pending (n + 1) bits least) (0x80 + b % 64)
      ≡ some (pending n (bits * 64 + b % 64) least, [])
unfolding decode_byte
decode_byte-more n bits least b = ground arith

-- A continuation byte is one, and carries its six bits.
continuation : (b : ℕ) → (leb 0x80 (0x80 + b % 64) && ltb (0x80 + b % 64) 0xc0) ≡ true
continuation b = ground arith

continuation_bits : (b : ℕ) → 0x80 + b % 64 - 0x80 ≡ b % 64
continuation_bits b = omega arith

decode_byte-last :
    (bits least b c : ℕ)
    → bits * 64 + b % 64 ≡ c
    → least ≤ c
    → is_scalar c ≡ true
    → decode_byte (pending 0 bits least) (0x80 + b % 64) ≡ some (idle, c ∷ [])
unfolding decode_byte
decode_byte-last bits least b c e l s =
    rw (continuation b, continuation_bits b, e, le→leb least c l, s)

-- A state that completes nothing hands on what follows.
decode_from-step :
    (d d' : Decoding) (b : ℕ) (bs : Bytes)
    → decode_byte d b ≡ some (d', [])
    → decode_from d (b ∷ bs) ≡ decode_from d' bs
unfolding decode_from Option.bind
decode_from-step d d' b bs e = elim (Option-cases (decode_from d' bs)) [
  | inl n ↦ rw (e, n) refl
  | inr (s, o) ↦ rw (e, o) refl
]

decode_from-done :
    (d : Decoding) (b c : ℕ) (bs : Bytes)
    → decode_byte d b ≡ some (idle, c ∷ [])
    → decode_from d (b ∷ bs) ≡ Option.map (λ s. c ∷ s) (decode_from idle bs)
unfolding decode_from Option.bind
decode_from-done d b c bs e = rw e

-- The four ranges of code points, by the number of bytes they take.
data Range (c : ℕ) : Type 0 where
  one : ltb c 0x80 ≡ true → Range c
  two : ltb c 0x80 ≡ false → ltb c 0x800 ≡ true → Range c
  three : ltb c 0x80 ≡ false → ltb c 0x800 ≡ false → ltb c 0x10000 ≡ true → Range c
  four : ltb c 0x80 ≡ false → ltb c 0x800 ≡ false → ltb c 0x10000 ≡ false → Range c

encoded_ranges : (c : ℕ) → Range c
encoded_ranges c = elim (Bool-cases (ltb c 0x80)) [
  | inl e ↦ one e
  | inr a ↦ elim (Bool-cases (ltb c 0x800)) [
    | inl e ↦ two a e
    | inr b ↦ elim (Bool-cases (ltb c 0x10000)) [ inl e ↦ three a b e | inr d ↦ four a b d ]
  ]
]

scalar_bound : (c : ℕ) → is_scalar c ≡ true → c < 0x110000
scalar_bound c h = ground arith

decode_from-encode_char :
    (c : ℕ) (bs : Bytes)
    → is_scalar c ≡ true
    → Range c
    → decode_from idle (encode_char c ++ bs) ≡ Option.map (λ s. c ∷ s) (decode_from idle bs)
unfolding encode_char
decode_from-encode_char c bs s (one a) =
    rw a (decode_from-done idle c c bs (unfold decode_byte in rw a refl))
decode_from-encode_char c bs s (two a b) =
    rw (a, b)
      (decode_from-step idle _ _ _ (decode_byte-two c (ground arith) (ground arith))
        ∙ decode_from-done _ _ c bs
            (decode_byte-last (c / 64) 0x80 c c (omega arith) (ground arith) s))
decode_from-encode_char c bs s (three a b d) =
    rw (a, b, d)
      (decode_from-step idle _ _ _ (decode_byte-three c (ground arith))
        ∙ decode_from-step _ _ _ _ (decode_byte-more 0 (c / 4096) 0x800 (c / 64))
        ∙ decode_from-done _ _ c bs (
            decode_byte-last (c / 4096 * 64 + c / 64 % 64) 0x800 c c (omega arith) (ground arith)
              s))
decode_from-encode_char c bs s (four a b d) =
    rw (a, b, d)
      (decode_from-step idle _ _ _ (decode_byte-four c (scalar_bound c s))
        ∙ decode_from-step _ _ _ _ (decode_byte-more 1 (c / 262144) 0x10000 (c / 4096))
        ∙ decode_from-step _ _ _ _ (decode_byte-more 0 _ 0x10000 (c / 64))
        ∙ decode_from-done _ _ c bs (
            decode_byte-last ((c / 262144 * 64 + c / 4096 % 64) * 64 + c / 64 % 64) 0x10000 c c
              (omega arith) (ground arith) s))

-- `s.encode("utf-8").decode("utf-8")` is `s`, whenever the encoding does not raise.
pub decode-encode : (s : Str) (bs : Bytes) → encode s ≡ some bs → decode bs ≡ some s
unfolding encode
decode-encode [] bs h = rw (← some_injective [] bs h) (unfold decode_from in refl)
decode-encode (c ∷ s) bs h = elim (Bool-cases (is_scalar c)) [
  | inr e ↦ let h' : none ≡ some bs = rw e at h in cc
  | inl e ↦ elim (Option-cases (encode s)) [
    | inl n ↦ let h' : none ≡ some bs = rw (e, n) at h in cc
    | inr (rest, o) ↦
        let h' : encode_char c ++ rest ≡ bs = some_injective _ _ (rw (e, o) at h) in
        rw (← h', decode_from-encode_char c rest e (encoded_ranges c), decode-encode s rest o) refl
  ]
]

-- A text without surrogates is never refused.
pub encode_total : (s : Str) → IsText s → (bs : Bytes) × (encode s ≡ some bs)
unfolding encode
encode_total [] h = ([], refl)
encode_total (c ∷ s) h = let (bs, e) = encode_total s h.1 in (encode_char c ++ bs, rw (h.0, e) refl)

-- A test of it, for the texts that are known.
abbrev pub all_scalar : Str → Bool
all_scalar [] = true
all_scalar (c ∷ s) = is_scalar c && all_scalar s

pub IsText-all_scalar : (s : Str) → all_scalar s ≡ true → IsText s
IsText-all_scalar [] h = tt
IsText-all_scalar (c ∷ s) h = elim (Bool-cases (is_scalar c)) [
  | inl e ↦ (e, IsText-all_scalar s (rw e at h))
  | inr e ↦ let no : false ≡ true = rw e at h in cc
]
