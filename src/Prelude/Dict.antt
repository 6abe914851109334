-- ===== src/Prelude/Dict.antt =====
-- Python's `dict` with text keys, in insertion order; a key that is written again keeps its place.
use Prim.Native.String.{String}
use Prim.Native.Nat.{◌+◌}
use mathlib.Core.Path.{◌≡◌, refl, sym, ◌∙◌, subst}
use mathlib.Core.Logic.{inl, inr}
use mathlib.Core.Bool.{Bool}
use mathlib.Core.Option.{Option, none, some}
use mathlib.Core.List.{List, [], ◌∷◌, map}
use native.Mathlib.Omega.{arith}
use text.Mathlib.Text.{◌==◌}
use text.Mathlib.TextEquality.{eq_iff}
use text.Mathlib.TextPositions.{eq_refl}
use fastapi_kafka_guide.Prelude.Tests.{if◌then◌else◌, Bool-cases}
use fastapi_kafka_guide.Prelude.Lists.{length, is_some, some_injective}

abbrev pub Dict {ℓ} : Type ℓ → Type ℓ
Dict V = List (String × V)

abbrev pub empty {ℓ} : {V : Type ℓ} → Dict V
empty = []

module _ {ℓ} {V : Type ℓ} where
  -- `d.get(k)`
  unfoldable pub get : Dict V → String → Option V
  get [] k = none
  get ((j, v) ∷ d) k = if j == k then some v else get d k

  -- `d[k] = v`
  unfoldable pub put : Dict V → String → V → Dict V
  put [] k v = (k, v) ∷ []
  put ((j, w) ∷ d) k v = if j == k then (j, v) ∷ d else (j, w) ∷ put d k v

  -- `k in d`
  abbrev pub contains : Dict V → String → Bool
  contains d k = is_some (get d k)

  -- `list(d.values())`
  abbrev pub values : Dict V → List V
  values d = map (λ e. e.1) d

  pub get-put :
      (d : Dict V) (k j : String) (v : V) → get (put d k v) j ≡ (if k == j then some v else get d j)
  unfolding get put
  get-put [] k j v = refl
  get-put ((i, w) ∷ d) k j v = ground (arith, eq_iff i k, eq_iff i j, eq_iff k j, get-put d k j v)

  pub get-put_self : (d : Dict V) (k : String) (v : V) → get (put d k v) k ≡ some v
  get-put_self d k v = simp (get-put, eq_refl)

  -- A write to a key that is there adds no entry; one to a new key adds exactly one.
  pub length-put :
      (d : Dict V) (k : String) (v : V)
      → length (put d k v) ≡ (if contains d k then length d else length d + 1)
  unfolding get put
  length-put [] k v = refl
  length-put ((i, w) ∷ d) k v = ground (arith, length-put d k v)

-- A property of all the values of a dictionary.
abbrev pub AllValues : {V : Type 0} → (V → Type 0) → Dict V → Type 0
AllValues P d = (i : String) (v : _) → get d i ≡ some v → P v

-- A write keeps it if the written value has it.
pub put-AllValues :
    {V : Type 0} (P : V → Type 0) (d : Dict V) (i : String) (w : V)
    → AllValues P d
    → P w
    → AllValues P (put d i w)
put-AllValues P d i w h new j v e = elim (Bool-cases (i == j)) [
  | inl same ↦ subst P (some_injective w v (sym (get-put d i j w ∙ rw same refl) ∙ e)) new
  | inr other ↦ h j v (sym (get-put d i j w ∙ rw other refl) ∙ e)
]
