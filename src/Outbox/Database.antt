-- ===== src/Outbox/Database.antt =====
-- models.py, the two tables of one database, and the SQL statements of relay.py over the outbox table.
-- Times are whole units; JSON payloads are of any type `J`.
use fastapi_kafka_guide.Prelude.{
  ℕ, String, Bool, false, ◌||◌, Option, some, List, ltb, [], ◌∷◌, map, leb, eqb, if◌then◌else◌,
  is_some, take,
}
use fastapi_kafka_guide.Prelude.Int.{ℤ, pos, negsuc}
use fastapi_kafka_guide.Prelude.Dict.{Dict}

-- A finite `Decimal`: the coefficient times ten to the exponent.
pub record Decimal : Type 0 where
  pub coefficient : ℤ
  pub exponent : ℤ

abbrev pub is_positive : Decimal → Bool
is_positive d = elim d.coefficient [ pos n ↦ ltb 0 n | negsuc n ↦ false ]

-- What is done to decimals: `price * quantity` and `+` in Python's context, which round to 28 digits and
-- may raise (`none`), and the column `Numeric(12, 2)`, which rounds what it stores to two places and refuses
-- (`none`) what has too many digits.
pub record Decimals : Type 0 where
  pub times : Decimal → ℕ → Option Decimal
  pub plus : Decimal → Decimal → Option Decimal
  pub numeric : Decimal → Option Decimal

-- `OrderItem` of schemas.py, as the JSON column holds it
pub record OrderItem : Type 0 where
  pub product_id : String
  pub quantity : ℕ
  pub price : Decimal

-- class `Order`
pub record Order : Type 0 where
  pub order_id : String
  pub user_id : String
  pub items : List OrderItem
  pub total_price : Decimal
  pub status : String
  pub created_at : ℕ
  pub updated_at : ℕ

-- class `OutboxEvent`
pub record OutboxEvent (J : Type 0) : Type 0 where
  pub id : ℕ
  pub event_id : String
  pub aggregate_type : String
  pub aggregate_id : String
  pub event_type : String
  pub topic : String
  pub payload : J
  pub headers : Dict String
  pub created_at : ℕ
  pub published_at : Option ℕ

-- The committed rows, and the next value of the outbox table's `autoincrement` column.
pub record Database (J : Type 0) : Type 0 where
  pub orders : List Order
  pub outbox : List (OutboxEvent J)
  pub next_id : ℕ

abbrev pub elem : ℕ → List ℕ → Bool
elem x [] = false
elem x (y ∷ ys) = eqb x y || elem x ys

module _ {J : Type 0} where
  abbrev pub ids : List (OutboxEvent J) → List ℕ
  ids rows = map (λ r. r.id) rows

  -- `WHERE published_at IS NULL`
  unfoldable pub pending : List (OutboxEvent J) → List (OutboxEvent J)
  pending [] = []
  pending (r ∷ rows) = let rest = pending rows in if is_some r.published_at then rest else r ∷ rest

  -- `SKIP LOCKED`: the rows that other transactions hold are passed over
  unfoldable pub skip_locked : List ℕ → List (OutboxEvent J) → List (OutboxEvent J)
  skip_locked locked [] = []
  skip_locked locked (r ∷ rows) =
      let rest = skip_locked locked rows in if elem r.id locked then rest else r ∷ rest

  unfoldable pub insert_by_id : OutboxEvent J → List (OutboxEvent J) → List (OutboxEvent J)
  insert_by_id r [] = r ∷ []
  insert_by_id r (s ∷ rows) = if leb r.id s.id then r ∷ s ∷ rows else s ∷ insert_by_id r rows

  -- `ORDER BY id`
  unfoldable pub order_by_id : List (OutboxEvent J) → List (OutboxEvent J)
  unfolding insert_by_id
  order_by_id [] = []
  order_by_id (r ∷ rows) = insert_by_id r (order_by_id rows)

  -- the `SELECT … FOR UPDATE SKIP LOCKED LIMIT :batch` of `_tick`
  unfoldable pub select_batch : ℕ → List ℕ → List (OutboxEvent J) → List (OutboxEvent J)
  unfolding pending skip_locked order_by_id
  select_batch batch locked table = take batch (skip_locked locked (order_by_id (pending table)))

  -- A row after the `UPDATE` below.
  abbrev pub updated : ℕ → List ℕ → OutboxEvent J → OutboxEvent J
  updated now marked r = if elem r.id marked then record r { published_at = some now } else r

  -- the `UPDATE outbox SET published_at = :now WHERE id = ANY(:ids)` of `_tick`
  unfoldable pub mark_published : ℕ → List ℕ → List (OutboxEvent J) → List (OutboxEvent J)
  mark_published now marked [] = []
  mark_published now marked (r ∷ rows) = updated now marked r ∷ mark_published now marked rows
