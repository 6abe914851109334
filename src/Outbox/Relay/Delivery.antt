-- ===== src/Outbox/Relay/Delivery.antt =====
-- Whatever a poll meets, a row is marked as published only if Kafka holds its record.
use fastapi_kafka_guide.Prelude.{
  ℕ, ◌≡◌, refl, ap, ◌⊎◌, inl, inr, Bool, true, ◌&&◌, List, [], ◌∷◌, ◌++◌, arith, leb, eqb,
  Bool-cases, is_some, All, In, In-append_left, In-append_right, In-take, In-if, All-In, eqb_iff,
}
use fastapi_kafka_guide.Outbox.Database.{
  OutboxEvent, ids, elem, pending, skip_locked, insert_by_id, order_by_id, select_batch, updated,
  mark_published,
}
use fastapi_kafka_guide.Messaging.{SendOutcome, acked, refused, unacked}
use fastapi_kafka_guide.Outbox.Relay.{
  KafkaRecord, after_send, Relay, Poll, record_of, publish_rows, publish_batch, tick,
}

-- No two rows of the table share an id.
abbrev pub IsKeyed : {J : Type 0} → List (OutboxEvent J) → Type 0
IsKeyed rows = (r s : OutboxEvent _) → In r rows → In s rows → r.id ≡ s.id → r ≡ s

module _ {J : Type 0} where
  -- The row's record is in the log, if the row says that it was published.
  abbrev pub IsDelivered : List (KafkaRecord J) → OutboxEvent J → Type 0
  IsDelivered log row = is_some row.published_at ≡ true → In (record_of row) log

  In-pending : (x : OutboxEvent J) (rows : List (OutboxEvent J)) → In x (pending rows) → In x rows
  unfolding pending
  In-pending x [] h = h
  In-pending x (r ∷ rows) h = elim (In-if (is_some r.published_at) x _ _ h) [
    | inl i ↦ inr (In-pending x rows i)
    | inr (inl e) ↦ inl e
    | inr (inr i) ↦ inr (In-pending x rows i)
  ]

  In-skip_locked :
      (locked : List ℕ) (x : OutboxEvent J) (rows : List (OutboxEvent J))
      → In x (skip_locked locked rows)
      → In x rows
  unfolding skip_locked
  In-skip_locked locked x [] h = h
  In-skip_locked locked x (r ∷ rows) h = elim (In-if (elem r.id locked) x _ _ h) [
    | inl i ↦ inr (In-skip_locked locked x rows i)
    | inr (inl e) ↦ inl e
    | inr (inr i) ↦ inr (In-skip_locked locked x rows i)
  ]

  In-insert_by_id :
      (x r : OutboxEvent J) (rows : List (OutboxEvent J))
      → In x (insert_by_id r rows)
      → In x (r ∷ rows)
  unfolding insert_by_id
  In-insert_by_id x r [] h = h
  In-insert_by_id x r (s ∷ rows) h = elim (In-if (leb r.id s.id) x _ _ h) [
    | inl i ↦ i
    | inr (inl e) ↦ inr (inl e)
    | inr (inr i) ↦ elim (In-insert_by_id x r rows i) [ inl e ↦ inl e | inr j ↦ inr (inr j) ]
  ]

  In-order_by_id :
      (x : OutboxEvent J) (rows : List (OutboxEvent J)) → In x (order_by_id rows) → In x rows
  unfolding order_by_id
  In-order_by_id x [] h = h
  In-order_by_id x (r ∷ rows) h = elim (In-insert_by_id x r (order_by_id rows) h) [
    | inl e ↦ inl e
    | inr i ↦ inr (In-order_by_id x rows i)
  ]

  -- The rows that a poll takes are rows of the table.
  pub In-select_batch :
      (batch : ℕ) (locked : List ℕ) (x : OutboxEvent J) (table : List (OutboxEvent J))
      → In x (select_batch batch locked table)
      → In x table
  unfolding select_batch
  In-select_batch batch locked x table h = In-pending x table (
      In-order_by_id x (pending table)
        (In-skip_locked locked x (order_by_id (pending table)) (In-take batch x _ h)))

  after_send-In :
      (o : SendOutcome) (x sent : KafkaRecord J) (rest : Bool × List (KafkaRecord J))
      → (after_send o sent rest).0 ≡ true
      → (x ≡ sent) ⊎ (rest.0 ≡ true → In x rest.1)
      → In x (after_send o sent rest).1
  after_send-In acked x sent rest h (inl e) = inl e
  after_send-In acked x sent rest h (inr i) = inr (i h)
  after_send-In refused x sent rest h i = cc
  after_send-In unacked x sent rest h i = cc

  -- If the loop over the rows came to its end, the record of each row is among those written.
  publish_rows-In :
      (send : KafkaRecord J → SendOutcome) (x : OutboxEvent J) (rows : List (OutboxEvent J))
      → (publish_rows send rows).0 ≡ true
      → In x rows
      → In (record_of x) (publish_rows send rows).1
  unfolding publish_rows
  publish_rows-In send x [] h i = i
  publish_rows-In send x (r ∷ rows) h (inl e) =
      after_send-In (send (record_of r)) (record_of x) (record_of r) (publish_rows send rows) h
        (inl (ap record_of e))
  publish_rows-In send x (r ∷ rows) h (inr i) =
      after_send-In (send (record_of r)) (record_of x) (record_of r) (publish_rows send rows) h
        (inr (λ done. publish_rows-In send x rows done i))

  elem→In :
      (n : ℕ) (rows : List (OutboxEvent J))
      → elem n (ids rows) ≡ true
      → (r : OutboxEvent J) × In r rows × (n ≡ r.id)
  elem→In n [] h = cc
  elem→In n (r ∷ rows) h = elim (Bool-cases (eqb n r.id)) [
    | inl same ↦ (r, inl refl, (eqb_iff n r.id).0 same)
    | inr other ↦ let (s, i, e) = elem→In n rows (ground arith) in (s, inr i, e)
  ]

  mark_published-All :
      (P : OutboxEvent J → Type 0) (now : ℕ) (marked : List ℕ) (rows : List (OutboxEvent J))
      → ((r : OutboxEvent J) → In r rows → P (updated now marked r))
      → All P (mark_published now marked rows)
  unfolding mark_published
  mark_published-All P now marked [] h = tt
  mark_published-All P now marked (r ∷ rows) h =
      (h r (inl refl), mark_published-All P now marked rows (λ s i. h s (inr i)))

  updated-IsDelivered :
      (log written : List (KafkaRecord J)) (now : ℕ) (marked : List ℕ) (r : OutboxEvent J)
      → IsDelivered log r
      → (elem r.id marked ≡ true → In (record_of r) written)
      → IsDelivered (log ++ written) (updated now marked r)
  unfolding record_of
  updated-IsDelivered log written now marked r old new = elim (Bool-cases (elem r.id marked)) [
    | inl hit ↦ rw hit (λ _. In-append_right _ log written (new hit))
    | inr miss ↦ rw miss (λ h. In-append_left _ log written (old h))
  ]

  pub IsDelivered-append :
      (log written : List (KafkaRecord J)) (rows : List (OutboxEvent J))
      → All (IsDelivered log) rows
      → All (IsDelivered (log ++ written)) rows
  IsDelivered-append log written [] h = tt
  IsDelivered-append log written (r ∷ rows) h = (
    λ p. In-append_left (record_of r) log written (h.0 p),
    IsDelivered-append log written rows h.1,
  )

  publish_batch-IsDelivered :
      (poll : Poll J) (rows : List (OutboxEvent J)) (s : Relay J)
      → ((x : OutboxEvent J) → In x rows → In x s.db.outbox)
      → IsKeyed s.db.outbox
      → All (IsDelivered s.log) s.db.outbox
      → let t = (publish_batch poll rows s).1 in All (IsDelivered t.log) t.db.outbox
  unfolding publish_batch
  publish_batch-IsDelivered poll [] s own keyed h = h
  publish_batch-IsDelivered poll (row ∷ rows) s own keyed h =
      let (done, written) = publish_rows poll.send (row ∷ rows) in
      elim (Bool-cases (done && poll.committed)) [
        | inl all ↦ rw all (
            mark_published-All (IsDelivered (s.log ++ written)) poll.now (ids (row ∷ rows))
              s.db.outbox
              (λ r i.
                updated-IsDelivered s.log written poll.now (ids (row ∷ rows)) r
                  (All-In (IsDelivered s.log) r s.db.outbox h i)
                  (λ hit.
                    let (x, j, e) = elem→In r.id (row ∷ rows) hit in
                    rw (keyed r x i (own x j) e)
                      (publish_rows-In poll.send x (row ∷ rows) (ground arith) j))))
        | inr rolled_back ↦ rw rolled_back (IsDelivered-append s.log written s.db.outbox h)
      ]

  -- Whatever a poll meets (sends that fail or are not acknowledged, rows that others hold, a commit
  -- that fails), a row that is marked as published has its record in Kafka, if that was so before and
  -- no two rows share an id.
  pub tick-IsDelivered :
      (batch : ℕ) (poll : Poll J) (s : Relay J)
      → IsKeyed s.db.outbox
      → All (IsDelivered s.log) s.db.outbox
      → let t = (tick batch poll s).1 in All (IsDelivered t.log) t.db.outbox
  unfolding tick
  tick-IsDelivered batch poll s keyed h =
      publish_batch-IsDelivered poll (select_batch batch poll.locked s.db.outbox) s
        (λ x i. In-select_batch batch poll.locked x s.db.outbox i) keyed h
