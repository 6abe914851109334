-- ===== src/Python/Json/Lookup.antt =====
-- Reading a dict after a write.
use fastapi_kafka_guide.Prelude.{
  ◌≡◌, refl, ◌↔◌, inl, inr, true, false, some, [], ◌∷◌, arith, eqb, if◌then◌else◌, Bool-cases,
  eqb_iff,
}
use fastapi_kafka_guide.Python.Utf8.{Str}
use fastapi_kafka_guide.Python.Json.Values.{
  Value, Fields, no_fields, field, same, set_field, get_field,
}

pub same_refl : (s : Str) → same s s ≡ true
unfolding same
same_refl [] = refl
same_refl (c ∷ s) = let e : eqb c c ≡ true = ground arith in rw (e, same_refl s) refl

pub eq_of_same : (s t : Str) → same s t ≡ true → s ≡ t
unfolding same
eq_of_same [] [] h = refl
eq_of_same [] (d ∷ t) h = cc
eq_of_same (c ∷ s) [] h = cc
eq_of_same (c ∷ s) (d ∷ t) h = elim (Bool-cases (eqb c d)) [
  | inl e ↦
      let heads : c ≡ d = (eqb_iff c d).0 e in
      let tails : s ≡ t = eq_of_same s t (rw e at h) in rw (heads, tails) refl
  | inr e ↦ let no : false ≡ true = rw e at h in cc
]

pub same_iff : (s t : Str) → (same s t ≡ true) ↔ (s ≡ t)
same_iff s t = (eq_of_same s t, λ e. rw e (same_refl t))

module _ {F : Type 0} where
  pub get_field-set_field :
      (fs : Fields F) (k j : Str) (v : Value F)
      → get_field (set_field fs k v) j ≡ (if same k j then some v else get_field fs j)
  unfolding get_field set_field
  get_field-set_field no_fields k j v = refl
  get_field-set_field (field i w fs) k j v =
      ground (arith, same_iff i k, same_iff i j, same_iff k j, get_field-set_field fs k j v)
