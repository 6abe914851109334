-- ===== src/MultiService/QueryService/Stats.antt =====
-- main.py of query-service: the recent events and the statistics.
use fastapi_kafka_guide.Prelude.{
  ℕ, zero, suc, ◌+◌, ◌-◌, String, ◌≡◌, refl, sym, ap, ◌∙◌, inl, inr, Bool, true, false, some, List,
  [], ◌∷◌, arith, ltb, if◌then◌else◌, Bool-cases, get_or, length, length-drop, drop, ◌==◌, eq_iff,
}
use Prim.Native.Nat.{min}
use mathlib.Core.List.{reverse}
use fastapi_kafka_guide.Prelude.Int.{ℤ, pos, negsuc}
use fastapi_kafka_guide.Prelude.Windows.{last_entries}
use fastapi_kafka_guide.Prelude.Dict
use fastapi_kafka_guide.Prelude.Dict.{Dict}
use fastapi_kafka_guide.Saga.Events.{Floats}
use fastapi_kafka_guide.MultiService.QueryService.{
  ViewStatus, View, LogEntry, ReadModel, total_revenue,
}

-- The text of a status.
unfoldable pub status_name : ViewStatus → String
status_name ViewStatus.created = "CREATED"
status_name ViewStatus.payment_completed = "PAYMENT_COMPLETED"
status_name ViewStatus.inventory_reserved = "INVENTORY_RESERVED"
status_name ViewStatus.completed = "COMPLETED"
status_name ViewStatus.cancelled = "CANCELLED"

-- `limit < len(event_log)`
unfoldable pub is_below : ℤ → ℕ → Bool
is_below (pos n) len = ltb n len
is_below (negsuc n) len = true

-- What `list_events` answers.
pub record EventPage (F : Type 0) : Type 0 where
  pub total_events : ℕ
  pub showing : ℕ
  pub events : List (LogEntry F)

-- What `get_stats` answers.
pub record Stats (F : Type 0) : Type 0 where
  pub total_orders : ℕ
  pub status_breakdown : Dict ℕ
  pub total_revenue : F
  pub total_events_processed : ℕ

module _ {F : Type 0} where
  unfoldable pub list_events : ℤ → ReadModel F → EventPage F
  list_events limit s =
      let recent =
        if is_below limit (length s.event_log)
        then last_entries limit s.event_log
        else s.event_log in
      record { total_events = length s.event_log; showing = length recent; events = reverse recent }

  -- The loop that counts the orders by their status.
  unfoldable pub count_statuses : List (View F) → Dict ℕ → Dict ℕ
  count_statuses [] counts = counts
  count_statuses (o ∷ orders) counts =
      let status = status_name o.status in
      count_statuses orders (Dict.put counts status (get_or (Dict.get counts status) 0 + 1))

  unfoldable pub get_stats : Floats F → ReadModel F → Stats F
  get_stats float s =
      let orders = Dict.values s.orders_read_model in
      record {
        total_orders = length orders;
        status_breakdown = count_statuses orders [];
        total_revenue = total_revenue float orders float.zero_amount;
        total_events_processed = length s.event_log;
      }

  -- How many orders have this text as their status.
  abbrev pub number_with : String → List (View F) → ℕ
  number_with name [] = 0
  number_with name (o ∷ orders) =
      let rest = number_with name orders in if status_name o.status == name then rest + 1 else rest

  count_statuses-get :
      (name : String) (orders : List (View F)) (counts : Dict ℕ)
      → get_or (Dict.get (count_statuses orders counts) name) 0
        ≡ get_or (Dict.get counts name) 0 + number_with name orders
  unfolding count_statuses
  count_statuses-get name [] counts = omega arith
  count_statuses-get name (o ∷ orders) counts =
      let status = status_name o.status in
      let counts' = Dict.put counts status (get_or (Dict.get counts status) 0 + 1) in
      let written = Dict.get-put counts status name (get_or (Dict.get counts status) 0 + 1) in
      let rest = count_statuses-get name orders counts' in
      elim (Bool-cases (status == name)) [
        | inl same ↦
            let taken : (if status == name
                  then some (get_or (Dict.get counts status) 0 + 1)
                  else Dict.get counts name)
                ≡ some (get_or (Dict.get counts status) 0 + 1) =
              rw same refl in
            let one_more : get_or (Dict.get counts' name) 0 ≡ get_or (Dict.get counts name) 0 + 1 =
              ap (λ x. get_or x 0) (written ∙ taken)
              ∙ ap (λ k. get_or (Dict.get counts k) 0 + 1) ((eq_iff status name).0 same) in
            rw same (omega (arith, rest, one_more))
        | inr other ↦
            let left : (if status == name
                  then some (get_or (Dict.get counts status) 0 + 1)
                  else Dict.get counts name)
                ≡ Dict.get counts name =
              rw other refl in
            let kept : get_or (Dict.get counts' name) 0 ≡ get_or (Dict.get counts name) 0 =
              ap (λ x. get_or x 0) (written ∙ left) in
            rw other (omega (arith, rest, kept))
      ]

  -- For every text, the breakdown of `get_stats` counts the orders whose status has that text (a status
  -- that it lacks belongs to none), and the total is the number of all orders of the read model.
  pub get_stats-counts :
      (float : Floats F) (s : ReadModel F) (name : String)
      → (get_or (Dict.get (get_stats float s).status_breakdown name) 0
          ≡ number_with name (Dict.values s.orders_read_model))
        × ((get_stats float s).total_orders ≡ length (Dict.values s.orders_read_model))
  unfolding get_stats Dict.get
  get_stats-counts float s name =
      let orders = Dict.values s.orders_read_model in
      (omega (arith, count_statuses-get name orders []), refl)

  drop-all : (xs : List (LogEntry F)) (n : ℕ) → n ≡ 0 → drop n xs ≡ xs
  drop-all xs zero h = refl
  drop-all xs (suc n) h = absurd (omega arith)

  recent_entries :
      (n : ℕ) (log : List (LogEntry F))
      → (if is_below (pos (suc n)) (length log) then last_entries (pos (suc n)) log else log)
        ≡ drop (length log - suc n) log
  unfolding is_below last_entries
  recent_entries n log = elim (Bool-cases (ltb (suc n) (length log))) [
    | inl below ↦ rw below refl
    | inr all ↦ rw all (sym (drop-all log (length log - suc n) (ground arith)))
  ]

  -- For a limit of at least one, `list_events` shows the latest entries of the log, the newest first, as
  -- many as the limit or all if there are fewer, and says how many it shows and how many there are. A limit
  -- of 0 shows the whole log.
  pub list_events-shows :
      (n : ℕ) (s : ReadModel F)
      → ((list_events (pos (suc n)) s).events
          ≡ reverse (drop (length s.event_log - suc n) s.event_log))
        × ((list_events (pos (suc n)) s).showing ≡ min (suc n) (length s.event_log))
        × ((list_events (pos (suc n)) s).total_events ≡ length s.event_log)
        × ((list_events (pos 0) s).events ≡ reverse s.event_log)
  unfolding list_events is_below last_entries
  list_events-shows n s =
      let recent = recent_entries n s.event_log in
      (
        ap reverse recent,
        ap (λ (xs : List (LogEntry F)). length xs) recent
            ∙ (length-drop (length s.event_log - suc n) s.event_log ∙ omega arith),
        refl,
        ap reverse (either_way (ltb 0 (length s.event_log)) s.event_log),
      )
    where
      either_way : (b : Bool) (xs : List (LogEntry F)) → (if b then xs else xs) ≡ xs
      either_way true xs = refl
      either_way false xs = refl
