-- ===== src/Python/Json/Values.antt =====
-- What `json.loads` returns: `None`, a `bool`, an `int`, a `float`, a `str`, a `list` or a `dict`.
use fastapi_kafka_guide.Prelude.{
  Bool, true, false, ◌&&◌, Option, none, some, [], ◌∷◌, eqb, if◌then◌else◌,
}
use fastapi_kafka_guide.Prelude.Int.{ℤ}
use fastapi_kafka_guide.Python.Utf8.{Str}

mutual
  pub data Value (F : Type 0) : Type 0 where
    null : Value F
    bool : Bool → Value F
    int : ℤ → Value F
    float : F → Value F
    str : Str → Value F
    array : Items F → Value F
    object : Fields F → Value F

  pub data Items (F : Type 0) : Type 0 where
    no_items : Items F
    item : Value F → Items F → Items F

  pub data Fields (F : Type 0) : Type 0 where
    no_fields : Fields F
    field : Str → Value F → Fields F → Fields F

unfoldable pub same : Str → Str → Bool
same [] [] = true
same (a ∷ s) (b ∷ t) = eqb a b && same s t
same _ _ = false

module _ {F : Type 0} where
  -- `d[k] = v`
  unfoldable pub set_field : Fields F → Str → Value F → Fields F
  set_field no_fields k v = field k v no_fields
  set_field (field j w fs) k v =
      let rest = set_field fs k v in if same j k then field j v fs else field j w rest

  unfoldable pub set_fields : Fields F → Fields F → Fields F
  set_fields d no_fields = d
  set_fields d (field k v fs) = set_fields (set_field d k v) fs

  -- `dict(pairs)`: a key that is repeated keeps its first place and its last value.
  abbrev pub dict : Fields F → Fields F
  dict = set_fields no_fields

  -- `d.get(k)`
  unfoldable pub get_field : Fields F → Str → Option (Value F)
  get_field no_fields k = none
  get_field (field j v fs) k = if same j k then some v else get_field fs k
