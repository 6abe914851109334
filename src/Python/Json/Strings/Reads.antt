-- ===== src/Python/Json/Strings/Reads.antt =====
-- A literal that was printed reads back.
use fastapi_kafka_guide.Prelude.{
  ℕ, ◌+◌, ◌*◌, ◌/◌, ◌%◌, ◌<◌, ◌≡◌, refl, sym, subst, ◌∙◌, inl, inr, true, false, Option, some, [],
  ◌∷◌, ◌++◌, append_assoc, arith, ltb, eqb, Bool-cases, Option-cases, All-append, eqb_iff,
}
use mathlib.Core.Option
use fastapi_kafka_guide.Python.Utf8.{Str, IsText, is_scalar}
use fastapi_kafka_guide.Python.Json.Strings.{
  quote, backslash, hex_digit, escape_char, escape, Scanning, plain, escaped, hex, goes_on,
  hex_value, unescape, scan_char, scan, is_high, join_surrogates, read_string,
}

-- The characters that a printed one can be.
scan_char-plain :
    (c : ℕ)
    → eqb c quote ≡ false
    → eqb c backslash ≡ false
    → ltb c 0x20 ≡ false
    → scan_char plain c ≡ goes_on plain (c ∷ [])
unfolding scan_char
scan_char-plain c a b d = rw (a, b, d)

hex_value-hex_digit : (n : ℕ) → n < 16 → hex_value (hex_digit n) ≡ some n
unfolding hex_value hex_digit
hex_value-hex_digit n h = ground arith

abbrev add : ℕ → Option (Str × Str) → Option (Str × Str)
add c = Option.map (λ (read, rest). (c ∷ read, rest))

-- A state that knows no character yet hands on what follows.
scan-silent :
    (st st' : Scanning) (c : ℕ) (s : Str)
    → scan_char st c ≡ goes_on st' []
    → scan st (c ∷ s) ≡ scan st' s
unfolding scan
scan-silent st st' c s e = elim (Option-cases (scan st' s)) [
  | inl n ↦ rw (scan, e, n) refl
  | inr (p, o) ↦ rw (scan, e, o) refl
]

scan-one :
    (st : Scanning) (c d : ℕ) (s : Str)
    → scan_char st c ≡ goes_on plain (d ∷ [])
    → scan st (c ∷ s) ≡ add d (scan plain s)
unfolding scan
scan-one st c d s e = rw (scan, e) refl

-- `c` is `k`, or the test against `k` fails.
unless {ℓ} : (P : ℕ → Type ℓ) (k c : ℕ) → P k → (eqb c k ≡ false → P c) → P c
unless P k c h other = elim (Bool-cases (eqb c k)) [
  | inl e ↦ subst P (sym ((eqb_iff c k).0 e)) h
  | inr e ↦ other e
]

-- What is printed for `c` scans as `c`.
abbrev Scans : Str → ℕ → Type 0
Scans s c = scan plain (escape_char c ++ s) ≡ add c (scan plain s)

-- An escape by one letter.
scan-letter :
    (l c : ℕ) (s : Str)
    → scan_char escaped l ≡ goes_on plain (c ∷ [])
    → scan plain (backslash ∷ l ∷ s) ≡ add c (scan plain s)
scan-letter l c s e =
    scan-silent plain escaped backslash (l ∷ s) (unfold scan_char in refl)
    ∙ scan-one escaped l c s e

sixteens : (c : ℕ) → (0 + c / 16) * 16 + c % 16 ≡ c
sixteens c = omega arith

-- An escape by four digits, of which the first two are zero.
scan-digits :
    (c : ℕ) (s : Str)
    → c < 0x20
    → scan plain (backslash ∷ b'u' ∷ b'0' ∷ b'0' ∷ hex_digit (c / 16) ∷ hex_digit (c % 16) ∷ s)
      ≡ add c (scan plain s)
unfolding scan_char hex_value
scan-digits c s h =
    scan-silent plain escaped _ _ refl
    ∙ scan-silent escaped (hex 3 0) _ _ refl
    ∙ scan-silent (hex 3 0) (hex 2 0) _ _ refl
    ∙ scan-silent (hex 2 0) (hex 1 0) _ _ refl
    ∙ scan-silent (hex 1 0) (hex 0 (0 + c / 16)) (hex_digit (c / 16)) _
        (rw (hex_value-hex_digit (c / 16) (omega arith)) refl)
    ∙ scan-one (hex 0 (0 + c / 16)) (hex_digit (c % 16)) c s
        (rw (hex_value-hex_digit (c % 16) (omega arith), sixteens c) refl)

scan-escape_char : (s : Str) (c : ℕ) → Scans s c
unfolding escape_char scan_char unescape
scan-escape_char s c = unless (Scans s) quote c (scan-letter quote quote s refl) λ q.
    unless (Scans s) backslash c (scan-letter backslash backslash s refl) λ b.
      unless (Scans s) b'\n' c (scan-letter b'n' b'\n' s refl) λ n.
        unless (Scans s) b'\r' c (scan-letter b'r' b'\r' s refl) λ r.
          unless (Scans s) b'\t' c (scan-letter b't' b'\t' s refl) λ t.
            unless (Scans s) 12 c (scan-letter b'f' 12 s refl) λ f.
              unless (Scans s) 8 c (scan-letter b'b' 8 s refl) λ v. elim (Bool-cases (ltb c 0x20)) [
                | inl e ↦ rw (q, b, n, r, t, f, v, e) (scan-digits c s (ground arith))
                | inr e ↦
                    rw (q, b, n, r, t, f, v, e) (scan-one plain c c s (scan_char-plain c q b e))
              ]

scan-escape : (s rest : Str) → scan plain (escape s ++ quote ∷ rest) ≡ some (s, rest)
unfolding escape
scan-escape [] rest = unfold scan scan_char in refl
scan-escape (c ∷ s) rest =
    rw append_assoc (scan-escape_char (escape s ++ quote ∷ rest) c ∙ rw (scan-escape s rest) refl)

not_high : (c : ℕ) → is_scalar c ≡ true → is_high c ≡ false
not_high c h = ground arith

-- What is printed for a character that is no surrogate has none.
escape_char-IsText : (c : ℕ) → is_scalar c ≡ true → IsText (escape_char c)
unfolding escape_char hex_digit
escape_char-IsText c h =
    unless P quote c (refl, (refl, tt))
      λ q.
        unless P backslash c (refl, (refl, tt))
          λ b.
            unless P b'\n' c (refl, (refl, tt))
              λ n.
                unless P b'\r' c (refl, (refl, tt))
                  λ r.
                    unless P b'\t' c (refl, (refl, tt))
                      λ t.
                        unless P 12 c (refl, (refl, tt))
                          λ f.
                            unless P 8 c (refl, (refl, tt))
                              λ v. elim (Bool-cases (ltb c 0x20)) [
                                | inl e ↦
                                    rw (q, b, n, r, t, f, v, e)
                                      (
                                        refl,
                                        (
                                          refl,
                                          (
                                            refl,
                                            (
                                              refl,
                                              (
                                                digit (c / 16) (ground arith),
                                                (digit (c % 16) (omega arith), tt),
                                              ),
                                            ),
                                          ),
                                        ),
                                      )
                                | inr e ↦ rw (q, b, n, r, t, f, v, e) (h, tt)
                              ]
  where
    P : ℕ → Type 0
    P c = IsText (escape_char c)

    digit : (n : ℕ) → n < 16 → is_scalar (hex_digit n) ≡ true
    digit n h = ground arith

-- A text without surrogates has no pair to join.
pub join_surrogates-IsText : (s : Str) → IsText s → join_surrogates s ≡ s
unfolding join_surrogates
join_surrogates-IsText [] h = refl
join_surrogates-IsText (c ∷ []) h = refl
join_surrogates-IsText (c ∷ d ∷ s) h =
    rw (join_surrogates, not_high c h.0, join_surrogates-IsText (d ∷ s) h.1) refl

pub read_string-escape :
    (s rest : Str) → IsText s → read_string (escape s ++ quote ∷ rest) ≡ some (s, rest)
read_string-escape s rest h = rw (scan-escape s rest, join_surrogates-IsText s h) refl

pub escape-IsText : (s : Str) → IsText s → IsText (escape s)
unfolding escape
escape-IsText [] h = tt
escape-IsText (c ∷ s) h =
    All-append _ (escape_char c) (escape s) (escape_char-IsText c h.0) (escape-IsText s h.1)
