-- ===== src/Prelude/Windows.antt =====
-- The last entries of a list, and a list that is cut to them after each entry.
use Prim.Native.Nat.{ℕ, zero, suc, ◌+◌, ◌-◌, ◌≤◌}
use mathlib.Core.Path.{◌≡◌, refl}
use mathlib.Core.List.{List, [], ◌∷◌, ◌++◌, reverse, reverse-cons}
use native.Mathlib.Omega.{arith}
use fastapi_kafka_guide.Prelude.Int.{ℤ, pos, negsuc}
use fastapi_kafka_guide.Prelude.Lists.{length, drop, length-append, length-drop, All, All-append}

module _ {A : Type 0} where
  -- `xs[-limit:]`: for a limit of 0 that is the whole list, and for a negative one what is left after so
  -- many entries.
  unfoldable pub last_entries : ℤ → List A → List A
  last_entries (pos zero) xs = xs
  last_entries (pos (suc n)) xs = drop (length xs - suc n) xs
  last_entries (negsuc n) xs = drop (suc n) xs

  -- `xs[-n:]` for a positive `n`
  abbrev pub keep_last : ℕ → List A → List A
  keep_last n xs = drop (length xs - n) xs

  pub length-keep_last : (n : ℕ) (xs : List A) → length (keep_last n xs) ≤ n
  length-keep_last n xs = omega (arith, length-drop (length xs - n) xs)

  drop-drop : (a b c : ℕ) (xs : List A) → b + a ≡ c → drop a (drop b xs) ≡ drop c xs
  drop-drop a zero c xs e = let same : a ≡ c = omega arith in rw same refl
  drop-drop zero (suc b) zero xs e = absurd (omega arith)
  drop-drop (suc a) (suc b) zero xs e = absurd (omega arith)
  drop-drop zero (suc b) (suc c) [] e = refl
  drop-drop (suc a) (suc b) (suc c) [] e = refl
  drop-drop zero (suc b) (suc c) (x ∷ xs) e = drop-drop zero b c xs (omega arith)
  drop-drop (suc a) (suc b) (suc c) (x ∷ xs) e = drop-drop (suc a) b c xs (omega arith)

  drop-append : (n : ℕ) (xs ys : List A) → n ≤ length xs → drop n (xs ++ ys) ≡ drop n xs ++ ys
  drop-append zero xs ys h = refl
  drop-append (suc n) [] ys h = absurd (omega arith)
  drop-append (suc n) (x ∷ xs) ys h = drop-append n xs ys (omega arith)

  -- Cutting early loses nothing of the last entries.
  pub keep_last-append :
      (n : ℕ) (xs ys : List A) → keep_last n (keep_last n xs ++ ys) ≡ keep_last n (xs ++ ys)
  keep_last-append n xs ys = rw (← drop-append (length xs - n) xs ys (omega arith)) (
      drop-drop _ (length xs - n) _ (xs ++ ys)
        (omega (arith, length-drop (length xs - n) (xs ++ ys), length-append xs ys)))

  -- A list that is no longer than `n` is its own last `n` entries.
  pub keep_last-all : (n : ℕ) (xs : List A) → length xs ≤ n → keep_last n xs ≡ xs
  keep_last-all n xs h = let none_cut : length xs - n ≡ 0 = omega arith in rw none_cut refl

  pub length-reverse : (xs : List A) → length (reverse xs) ≡ length xs
  length-reverse [] = refl
  length-reverse (x ∷ xs) =
      rw (reverse-cons x xs) (omega (arith, length-append (reverse xs) (x ∷ []), length-reverse xs))

  module _ (P : A → Type 0) where
    pub All-reverse : (xs : List A) → All P xs → All P (reverse xs)
    All-reverse [] h = tt
    All-reverse (x ∷ xs) h =
        rw (reverse-cons x xs) (All-append P (reverse xs) (x ∷ []) (All-reverse xs h.1) (h.0, tt))

    pub All-drop : (n : ℕ) (xs : List A) → All P xs → All P (drop n xs)
    All-drop zero xs h = h
    All-drop (suc n) [] h = tt
    All-drop (suc n) (x ∷ xs) h = All-drop n xs h.1
