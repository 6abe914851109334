-- ===== src/MultiService/QueryService/Search.antt =====
-- main.py of query-service: `query_orders`, the filtered list of the orders. `str.upper` is an argument.
use fastapi_kafka_guide.Prelude.{
  ℕ, suc, String, ◌≡◌, Bool, true, false, ◌&&◌, not, Option, none, some, List, [], ◌∷◌, map, ltb,
  if◌then◌else◌, length, ◌==◌,
}
use fastapi_kafka_guide.Prelude.Dict
use fastapi_kafka_guide.Prelude.Dict.{Dict}
use fastapi_kafka_guide.Python.Utf8.{Str, text}
use fastapi_kafka_guide.MultiService.QueryService.{
  PaymentStatus, InventoryStatus, ViewStatus, View, ReadModel,
}
use fastapi_kafka_guide.MultiService.QueryService.Stats.{status_name}

-- `<=` on texts: by their code points, as Python orders them.
unfoldable pub leb_text : Str → Str → Bool
leb_text [] t = true
leb_text (a ∷ s) [] = false
leb_text (a ∷ s) (b ∷ t) =
    let rest = leb_text s t in if ltb a b then true else if ltb b a then false else rest

-- A query parameter that is absent or empty is no filter.
abbrev pub is_filter : Option String → Bool
is_filter none = false
is_filter (some f) = not (f == "")

-- One entry of `orders`.
pub record OrderSummary (F : Type 0) : Type 0 where
  pub order_id : String
  pub user_id : String
  pub total_price : F
  pub status : ViewStatus
  pub payment_status : PaymentStatus
  pub inventory_status : InventoryStatus
  pub created_at : String
  pub updated_at : String

-- What `query_orders` answers.
pub record OrderPage (F : Type 0) : Type 0 where
  pub total : ℕ
  pub status_filter : Option String
  pub user_filter : Option String
  pub orders : List (OrderSummary F)

module _ {F : Type 0} where
  unfoldable pub select : (View F → Bool) → List (View F) → List (View F)
  select test [] = []
  select test (o ∷ orders) = let rest = select test orders in if test o then o ∷ rest else rest

  abbrev pub has_status : (String → String) → Option String → View F → Bool
  has_status upper none o = true
  has_status upper (some status) o = upper (status_name o.status) == upper status

  abbrev pub has_user : Option String → View F → Bool
  has_user none o = true
  has_user (some user_id) o = o.user_id == user_id

  abbrev pub is_not_after : View F → View F → Bool
  is_not_after o p = leb_text (text o.created_at) (text p.created_at)

  unfoldable pub insert_order : View F → List (View F) → List (View F)
  insert_order o [] = o ∷ []
  insert_order o (p ∷ ps) =
      let rest = insert_order o ps in if is_not_after p o then o ∷ p ∷ ps else p ∷ rest

  -- `orders.sort(key=created_at, reverse=True)`: orders of the same time stay in their order.
  unfoldable pub sort_newest : List (View F) → List (View F)
  sort_newest [] = []
  sort_newest (o ∷ orders) = insert_order o (sort_newest orders)

  abbrev pub summary : View F → OrderSummary F
  summary o = record {
    order_id = o.order_id;
    user_id = o.user_id;
    total_price = o.total_price;
    status = o.status;
    payment_status = o.payment_status;
    inventory_status = o.inventory_status;
    created_at = o.created_at;
    updated_at = o.updated_at;
  }

  unfoldable pub query_orders :
      (String → String) → Option String → Option String → ReadModel F → OrderPage F
  query_orders upper status user_id s =
      let all_orders = Dict.values s.orders_read_model in
      let by_status =
        if is_filter status then select (has_status upper status) all_orders else all_orders in
      let by_user = if is_filter user_id then select (has_user user_id) by_status else by_status in
      let orders = sort_newest by_user in
      record {
        total = length orders;
        status_filter = status;
        user_filter = user_id;
        orders = map summary orders;
      }

  -- How many orders pass a test.
  abbrev pub number_of : (View F → Bool) → List (View F) → ℕ
  number_of test [] = 0
  number_of test (o ∷ orders) =
      let rest = number_of test orders in if test o then suc rest else rest

  -- Whether the filters of a request let an order through.
  abbrev pub matches : (String → String) → Option String → Option String → View F → Bool
  matches upper status user_id o =
      (if is_filter status then has_status upper status o else true)
      && (if is_filter user_id then has_user user_id o else true)

  -- No order is newer than the one before it.
  abbrev pub IsNewestFirst : List (View F) → Type 0
  IsNewestFirst [] = Unit
  IsNewestFirst (o ∷ []) = Unit
  IsNewestFirst (o ∷ p ∷ ps) = (is_not_after p o ≡ true) × IsNewestFirst (p ∷ ps)
