-- ===== src/Outbox/History.antt =====
-- The order service and the relay together: every history of requests and polls.
use fastapi_kafka_guide.Prelude.{
  ℕ, ◌+◌, ◌≤◌, ◌≡◌, refl, sym, ap, ◌∙◌, inl, inr, Bool, true, false, ◌&&◌, none, List, [], ◌∷◌,
  arith, Bool-cases, All, All-append, In,
}
use fastapi_kafka_guide.Outbox.Database.{
  Decimal, Decimals, Order, OutboxEvent, Database, ids, select_batch, updated, mark_published,
}
use fastapi_kafka_guide.Outbox.Orders.{
  CreateOrderRequest, OrderPayload, Fresh, create_order, commit, order_session, number_rows, Ending,
  is_written,
}
use fastapi_kafka_guide.Outbox.Orders.Atomic.{
  Describes, Paired, IsValid, create_order-cases, create_order-IsValid,
}
use fastapi_kafka_guide.Outbox.Relay.{KafkaRecord, Relay, Poll, publish_rows, publish_batch, tick}
use fastapi_kafka_guide.Outbox.Relay.Delivery.{IsKeyed, IsDelivered, tick-IsDelivered}
use fastapi_kafka_guide.Outbox.Relay.Progress.{InOrder, mark_published-InOrder}

-- What may happen next: a request for an order, with its fresh values and how it ends,
-- or a poll of some relay.
pub data Act : Type 0 where
  request : Fresh → Ending → CreateOrderRequest → Act
  poll : ℕ → Poll OrderPayload → Act

module _ (decimal : Decimals) where
  -- The service after one of these.
  unfoldable pub act : Relay OrderPayload → Act → Relay OrderPayload
  act s (request fresh ending r) = record s { db = (create_order decimal fresh ending r s.db).1 }
  act s (poll batch p) = (tick batch p s).1

  unfoldable pub history : Relay OrderPayload → List Act → Relay OrderPayload
  unfolding act
  history s [] = s
  history s (a ∷ acts) = history (act s a) acts

  pub record IsSound (s : Relay OrderPayload) : Type 0 where
    pub valid : IsValid decimal s.db
    pub delivered : All (IsDelivered s.log) s.db.outbox

  In-InOrder :
      (low high : ℕ) (r : OutboxEvent OrderPayload) (rows : List (OutboxEvent OrderPayload))
      → InOrder low high rows
      → In r rows
      → low ≤ r.id
  In-InOrder low high r [] h i = absurd i
  In-InOrder low high r (x ∷ rows) h (inl e) =
      let same : r.id ≡ x.id = ap (λ (y : OutboxEvent OrderPayload). y.id) e in omega arith
  In-InOrder low high r (x ∷ rows) h (inr i) =
      omega (arith, In-InOrder (x.id + 1) high r rows h.1 i)

  InOrder-IsKeyed :
      (low high : ℕ) (rows : List (OutboxEvent OrderPayload)) → InOrder low high rows → IsKeyed rows
  InOrder-IsKeyed low high [] h r s i j e = absurd i
  InOrder-IsKeyed low high (x ∷ rows) h r s (inl p) (inl q) e = p ∙ sym q
  InOrder-IsKeyed low high (x ∷ rows) h r s (inl p) (inr j) e =
      let same : r.id ≡ x.id = ap (λ (y : OutboxEvent OrderPayload). y.id) p in
      absurd (omega (arith, In-InOrder (x.id + 1) high s rows h.1 j))
  InOrder-IsKeyed low high (x ∷ rows) h r s (inr i) (inl q) e =
      let same : s.id ≡ x.id = ap (λ (y : OutboxEvent OrderPayload). y.id) q in
      absurd (omega (arith, In-InOrder (x.id + 1) high r rows h.1 i))
  InOrder-IsKeyed low high (x ∷ rows) h r s (inr i) (inr j) e =
      InOrder-IsKeyed (x.id + 1) high rows h.1 r s i j e

  updated-Describes :
      (now : ℕ) (marked : List ℕ) (o : Order) (e : OutboxEvent OrderPayload)
      → Describes decimal o e
      → Describes decimal o (updated now marked e)
  updated-Describes now marked o e h = ground (arith, h)

  mark_published-Paired :
      (now : ℕ) (marked : List ℕ) (os : List Order) (es : List (OutboxEvent OrderPayload))
      → Paired decimal os es
      → Paired decimal os (mark_published now marked es)
  unfolding mark_published
  mark_published-Paired now marked [] [] h = h
  mark_published-Paired now marked [] (e ∷ es) h = absurd h
  mark_published-Paired now marked (o ∷ os) [] h = absurd h
  mark_published-Paired now marked (o ∷ os) (e ∷ es) h =
      (updated-Describes now marked o e h.0, mark_published-Paired now marked os es h.1)

  -- What a commit adds to the outbox is not published yet.
  number_rows-IsDelivered :
      (log : List (KafkaRecord OrderPayload)) (next : ℕ) (es : List (OutboxEvent OrderPayload))
      → All (λ (e : OutboxEvent OrderPayload). e.published_at ≡ none) es
      → All (IsDelivered log) (number_rows next es)
  unfolding number_rows
  number_rows-IsDelivered log next [] h = tt
  number_rows-IsDelivered log next (e ∷ es) h =
      (λ sent. absurd (ground (arith, h.0)), number_rows-IsDelivered log (next + 1) es h.1)

  commit-IsDelivered :
      (log : List (KafkaRecord OrderPayload)) (written : Bool) (fresh : Fresh)
      (r : CreateOrderRequest) (total stored : Decimal) (db : Database OrderPayload)
      → All (IsDelivered log) db.outbox
      → All (IsDelivered log) (commit written (order_session fresh r total stored) db).outbox
  unfolding commit order_session
  commit-IsDelivered log true fresh r total stored db h =
      All-append (IsDelivered log) db.outbox _ h (
        number_rows-IsDelivered log db.next_id (order_session fresh r total stored).new_events
          (refl, tt))
  commit-IsDelivered log false fresh r total stored db h = h

  create_order-IsDelivered :
      (log : List (KafkaRecord OrderPayload)) (fresh : Fresh) (ending : Ending)
      (r : CreateOrderRequest) (db : Database OrderPayload)
      → All (IsDelivered log) db.outbox
      → All (IsDelivered log) (create_order decimal fresh ending r db).1.outbox
  create_order-IsDelivered log fresh ending r db h =
      elim (create_order-cases decimal fresh ending r db) [
        | inl (status, same) ↦ rw same h
        | inr (total, stored, fits, written) ↦
            rw written (commit-IsDelivered log (is_written ending) fresh r total stored db h)
      ]

  publish_batch-IsValid :
      (p : Poll OrderPayload) (rows : List (OutboxEvent OrderPayload)) (s : Relay OrderPayload)
      → IsValid decimal s.db
      → IsValid decimal (publish_batch p rows s).1.db
  unfolding publish_batch
  publish_batch-IsValid p [] s h = h
  publish_batch-IsValid p (row ∷ rows) s h =
      elim (Bool-cases ((publish_rows p.send (row ∷ rows)).0 && p.committed)) [
        | inl all ↦ rw all (record {
          paired = mark_published-Paired p.now (ids (row ∷ rows)) s.db.orders s.db.outbox h.paired;
          ascends =
              mark_published-InOrder p.now 0 s.db.next_id (ids (row ∷ rows)) s.db.outbox h.ascends;
        })
        | inr rolled_back ↦ rw rolled_back h
      ]

  act-IsSound : (s : Relay OrderPayload) (a : Act) → IsSound s → IsSound (act s a)
  unfolding act
  act-IsSound s (request fresh ending r) h = record {
    valid = create_order-IsValid decimal fresh ending r s.db h.valid;
    delivered = create_order-IsDelivered s.log fresh ending r s.db h.delivered;
  }
  act-IsSound s (poll batch p) h = record {
    valid =
        unfold tick in publish_batch-IsValid p (select_batch batch p.locked s.db.outbox) s h.valid;
    delivered =
        tick-IsDelivered batch p s (InOrder-IsKeyed 0 s.db.next_id s.db.outbox h.valid.ascends)
          h.delivered;
  }

  -- From a sound state, after any history of requests and polls, with whatever failures: each order
  -- has exactly one event, which tells of it (its total as the column rounds it), the ids ascend, and an event is marked as published only
  -- if Kafka holds it.
  pub history-IsSound :
      (s : Relay OrderPayload) (acts : List Act) → IsSound s → IsSound (history s acts)
  unfolding history
  history-IsSound s [] h = h
  history-IsSound s (a ∷ acts) h = history-IsSound (act s a) acts (act-IsSound s a h)
