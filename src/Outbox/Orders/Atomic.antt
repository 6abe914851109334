-- ===== src/Outbox/Orders/Atomic.antt =====
-- Orders and their events are written together, and the table's ids ascend.
use fastapi_kafka_guide.Prelude.{
  ℕ, ◌+◌, ◌≤◌, ◌≡◌, refl, ◌⊎◌, inl, inr, Bool, true, false, some, List, [], ◌∷◌, ◌++◌, arith,
  Bool-cases, Option-cases, Result, ok, err,
}
use fastapi_kafka_guide.Outbox.Database.{Decimal, Decimals, Order, OutboxEvent, Database}
use fastapi_kafka_guide.Outbox.Orders.{
  CreateOrderRequest, OrderPayload, Fresh, Ending, completed, unrefreshed, unanswered, rolled_back,
  is_written, answer, is_valid_order, total_of, zero_decimal, create_order, commit, order_session,
}

-- The ids ascend strictly, from `low` on, and end below `high`.
abbrev pub Ascends {ℓ} : {J : Type ℓ} → (J → ℕ) → ℕ → ℕ → List J → Type 0
Ascends key low high [] = low ≤ high
Ascends key low high (r ∷ rows) = (low ≤ key r) × Ascends key (key r + 1) high rows

Ascends-append :
    (low high : ℕ) (rows : List (OutboxEvent OrderPayload)) (r : OutboxEvent OrderPayload)
    → Ascends (λ (r : OutboxEvent OrderPayload). r.id) low high rows
    → r.id ≡ high
    → Ascends (λ (r : OutboxEvent OrderPayload). r.id) low (high + 1) (rows ++ r ∷ [])
Ascends-append low high [] r h e = (omega arith, omega arith)
Ascends-append low high (x ∷ rows) r h e = (h.0, Ascends-append (x.id + 1) high rows r h.1 e)

module _ (decimal : Decimals) where
  -- The event tells of the order (its id, its user, its items, and the total that the column has rounded), in
  -- the form that `create_order` gives it.
  pub record Describes (o : Order) (e : OutboxEvent OrderPayload) : Type 0 where
    pub aggregate : e.aggregate_id ≡ o.order_id
    pub kind : e.event_type ≡ "OrderCreated"
    pub topic : e.topic ≡ "order.events"
    pub order : e.payload.order_id ≡ o.order_id
    pub user : e.payload.user_id ≡ o.user_id
    pub items : e.payload.items ≡ o.items
    pub total : decimal.numeric e.payload.total_price ≡ some o.total_price
    pub headers : e.headers ≡ ("schema_version", "1") ∷ []

  -- One event for each order, in the same places of the two tables.
  abbrev pub Paired : List Order → List (OutboxEvent OrderPayload) → Type 0
  Paired [] [] = Unit
  Paired (o ∷ orders) (e ∷ events) = Describes o e × Paired orders events
  Paired _ _ = ⊥

  pub record IsValid (db : Database OrderPayload) : Type 0 where
    pub paired : Paired db.orders db.outbox
    pub ascends : Ascends (λ (r : OutboxEvent OrderPayload). r.id) 0 db.next_id db.outbox

  Paired-append :
      (os : List Order) (es : List (OutboxEvent OrderPayload)) (o : Order)
      (e : OutboxEvent OrderPayload)
      → Paired os es
      → Describes o e
      → Paired (os ++ o ∷ []) (es ++ e ∷ [])
  Paired-append [] [] o e h d = (d, tt)
  Paired-append [] (x ∷ es) o e h d = absurd h
  Paired-append (x ∷ os) [] o e h d = absurd h
  Paired-append (x ∷ os) (y ∷ es) o e h d = (h.0, Paired-append os es o e h.1 d)

  -- The database after a request that wrote: one more order, and one more event, which tells of it.
  pub record IsAdded (db db' : Database OrderPayload) : Type 0 where
    pub order : Order
    pub event : OutboxEvent OrderPayload
    pub orders : db'.orders ≡ db.orders ++ order ∷ []
    pub outbox : db'.outbox ≡ db.outbox ++ event ∷ []
    pub describes : Describes order event

  -- Either the request changed nothing, or it got as far as its transaction.
  pub create_order-cases :
      (fresh : Fresh) (ending : Ending) (request : CreateOrderRequest) (db : Database OrderPayload)
      → ((status : ℕ) × (create_order decimal fresh ending request db ≡ (err status, db)))
        ⊎ ((total stored : Decimal) × (decimal.numeric total ≡ some stored)
            × (create_order decimal fresh ending request db ≡ (
              answer ending,
              commit (is_written ending) (order_session fresh request total stored) db,
            )))
  unfolding create_order
  create_order-cases fresh ending request db = elim (Bool-cases (is_valid_order request)) [
    | inr refused ↦ inl (422, rw refused refl)
    | inl valid ↦ elim (Option-cases (total_of decimal zero_decimal request.items)) [
      | inl raised ↦ inl (500, rw (valid, raised) refl)
      | inr (total, summed) ↦ elim (Option-cases (decimal.numeric total)) [
        | inl overflow ↦ inl (500, rw (valid, summed, overflow) refl)
        | inr (stored, fits) ↦ inr (total, stored, fits, rw (valid, summed, fits) refl)
      ]
    ]
  ]

  session-Describes :
      (fresh : Fresh) (request : CreateOrderRequest) (total stored : Decimal)
      (db : Database OrderPayload)
      → decimal.numeric total ≡ some stored
      → IsAdded db (commit true (order_session fresh request total stored) db)
  unfolding commit order_session
  session-Describes fresh request total stored db fits = record {
    order = _;
    event = _;
    orders = refl;
    outbox = refl;
    describes = record {
      aggregate = refl;
      kind = refl;
      topic = refl;
      order = refl;
      user = refl;
      items = refl;
      total = fits;
      headers = refl;
    };
  }

  commit-IsValid :
      (written : Bool) (fresh : Fresh) (request : CreateOrderRequest) (total stored : Decimal)
      (db : Database OrderPayload)
      → decimal.numeric total ≡ some stored
      → IsValid db
      → IsValid (commit written (order_session fresh request total stored) db)
  unfolding commit order_session
  commit-IsValid true fresh request total stored db fits h = record {
    paired = Paired-append db.orders db.outbox _ _ h.paired (record {
      aggregate = refl;
      kind = refl;
      topic = refl;
      order = refl;
      user = refl;
      items = refl;
      total = fits;
      headers = refl;
    });
    ascends = Ascends-append 0 db.next_id db.outbox _ h.ascends refl;
  }
  commit-IsValid false fresh request total stored db fits h = h

  -- A request for an order leaves the database valid on every path: whether it is refused, an error is
  -- raised, or it commits.
  pub create_order-IsValid :
      (fresh : Fresh) (ending : Ending) (request : CreateOrderRequest) (db : Database OrderPayload)
      → IsValid db
      → IsValid (create_order decimal fresh ending request db).1
  create_order-IsValid fresh ending request db h =
      elim (create_order-cases fresh ending request db) [
        | inl (status, same) ↦ rw same h
        | inr (total, stored, fits, written) ↦
            rw written (commit-IsValid (is_written ending) fresh request total stored db fits h)
      ]

  -- What an answer says of the database: a success that the order and its event were added; an error that
  -- nothing was, or, as a 500 when COMMIT or `refresh` raised after the commit, that both were.
  abbrev pub Answers :
      Ending → Database OrderPayload → Result ℕ (Unit {0}) × Database OrderPayload → Type 0
  Answers ending db (ok _, db') = IsAdded db db'
  Answers ending db (err status, db') =
      (db' ≡ db)
      ⊎ (IsAdded db db' × (status ≡ 500) × ((ending ≡ unrefreshed) ⊎ (ending ≡ unanswered)))

  transaction-Answers :
      (fresh : Fresh) (ending : Ending) (request : CreateOrderRequest) (total stored : Decimal)
      (db : Database OrderPayload)
      → decimal.numeric total ≡ some stored
      → Answers ending db
          (answer ending, commit (is_written ending) (order_session fresh request total stored) db)
  transaction-Answers fresh completed request total stored db fits =
      session-Describes fresh request total stored db fits
  transaction-Answers fresh unrefreshed request total stored db fits =
      inr (session-Describes fresh request total stored db fits, refl, inl refl)
  transaction-Answers fresh unanswered request total stored db fits =
      inr (session-Describes fresh request total stored db fits, refl, inr refl)
  transaction-Answers fresh rolled_back request total stored db fits = unfold commit in inl refl

  -- On every path the order and its event are both written, or neither is. A success means that one order
  -- was added, and one event, which tells of it, its total as the column rounds it. An error means that
  -- the database is as it was, or, if it is a 500 and COMMIT or the refresh after it raised, that both were
  -- added all the same. A valid request whose total can be computed and stored, and in which nothing
  -- raises, succeeds.
  pub create_order_atomic :
      (fresh : Fresh) (ending : Ending) (request : CreateOrderRequest) (db : Database OrderPayload)
      → Answers ending db (create_order decimal fresh ending request db)
        × ((total stored : Decimal)
            → is_valid_order request ≡ true
            → total_of decimal zero_decimal request.items ≡ some total
            → decimal.numeric total ≡ some stored
            → ending ≡ completed
            → (create_order decimal fresh ending request db).0 ≡ ok tt)
  unfolding create_order
  create_order_atomic fresh ending request db = (
    elim (create_order-cases fresh ending request db) [
      | inl (status, same) ↦ rw same (inl refl)
      | inr (total, stored, fits, written) ↦
          rw written (transaction-Answers fresh ending request total stored db fits)
    ],
    λ total stored valid summed fits ends. rw (valid, summed, fits, ends) refl,
  )
