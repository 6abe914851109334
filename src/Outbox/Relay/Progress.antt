-- ===== src/Outbox/Relay/Progress.antt =====
-- Polls that nothing disturbs publish the oldest rows first, and in the end every row.
use fastapi_kafka_guide.Prelude.{
  ℕ, zero, suc, ◌+◌, ◌*◌, ◌≤◌, ◌<◌, ◌≡◌, refl, ap, ◌∙◌, ◌⊎◌, inl, inr, true, false, List, [], ◌∷◌,
  ◌++◌, map, append-nil, arith, Bool-cases, is_some, length, take, drop, length-drop, nil_of_length,
  All, le→leb, ok,
}
use fastapi_kafka_guide.Outbox.Database.{
  OutboxEvent, ids, elem, pending, skip_locked, insert_by_id, order_by_id, select_batch, updated,
  mark_published,
}
use fastapi_kafka_guide.Outbox.Orders.Atomic.{Ascends}
use fastapi_kafka_guide.Messaging.{SendOutcome, acked}
use fastapi_kafka_guide.Outbox.Relay.{
  KafkaRecord, Relay, Poll, record_of, publish_rows, publish_batch, tick, run,
}

-- A poll that nothing disturbs: Kafka acknowledges each record, no other transaction holds a row, and
-- the commit goes through.
pub record IsGood {J : Type 0} (poll : Poll J) : Type 0 where
  pub acknowledged : (m : KafkaRecord J) → poll.send m ≡ acked
  pub unlocked : poll.locked ≡ []
  pub commits : poll.committed ≡ true

module _ {J : Type 0} where
  abbrev pub InOrder : ℕ → ℕ → List (OutboxEvent J) → Type 0
  InOrder = Ascends (λ (r : OutboxEvent J). r.id)

  InOrder-weaken :
      (low low' high : ℕ) (rows : List (OutboxEvent J))
      → low' ≤ low
      → InOrder low high rows
      → InOrder low' high rows
  InOrder-weaken low low' high [] le h = omega arith
  InOrder-weaken low low' high (r ∷ rows) le h = (omega arith, h.1)

  pending-InOrder :
      (low high : ℕ) (rows : List (OutboxEvent J))
      → InOrder low high rows
      → InOrder low high (pending rows)
  unfolding pending
  pending-InOrder low high [] h = h
  pending-InOrder low high (r ∷ rows) h = elim (Bool-cases (is_some r.published_at)) [
    | inl sent ↦ rw sent (
        InOrder-weaken (r.id + 1) low high (pending rows) (omega arith)
          (pending-InOrder (r.id + 1) high rows h.1))
    | inr waiting ↦ rw waiting (h.0, pending-InOrder (r.id + 1) high rows h.1)
  ]

  insert_by_id-first :
      (high : ℕ) (r : OutboxEvent J) (rows : List (OutboxEvent J))
      → InOrder (r.id + 1) high rows
      → insert_by_id r rows ≡ r ∷ rows
  unfolding insert_by_id
  insert_by_id-first high r [] h = refl
  insert_by_id-first high r (s ∷ rows) h = rw (le→leb r.id s.id (omega arith))

  order_by_id-InOrder :
      (low high : ℕ) (rows : List (OutboxEvent J)) → InOrder low high rows → order_by_id rows ≡ rows
  unfolding order_by_id
  order_by_id-InOrder low high [] h = refl
  order_by_id-InOrder low high (r ∷ rows) h =
      rw (order_by_id-InOrder (r.id + 1) high rows h.1) (insert_by_id-first high r rows h.1)

  skip_locked-none : (rows : List (OutboxEvent J)) → skip_locked [] rows ≡ rows
  unfolding skip_locked
  skip_locked-none [] = refl
  skip_locked-none (r ∷ rows) = rw (skip_locked-none rows)

  -- With no locks a poll takes the oldest pending rows.
  select_batch-InOrder :
      (batch low high : ℕ) (table : List (OutboxEvent J))
      → InOrder low high table
      → select_batch batch [] table ≡ take batch (pending table)
  unfolding select_batch
  select_batch-InOrder batch low high table h =
      rw (order_by_id-InOrder low high (pending table) (pending-InOrder low high table h))
        (rw skip_locked-none)

  mark_published-none : (now : ℕ) (rows : List (OutboxEvent J)) → mark_published now [] rows ≡ rows
  unfolding mark_published
  mark_published-none now [] = refl
  mark_published-none now (r ∷ rows) = rw (mark_published-none now rows)

  mark_published-absent :
      (now n low high : ℕ) (marked : List ℕ) (rows : List (OutboxEvent J))
      → n < low
      → InOrder low high rows
      → mark_published now (n ∷ marked) rows ≡ mark_published now marked rows
  unfolding mark_published
  mark_published-absent now n low high marked [] lt h = refl
  mark_published-absent now n low high marked (r ∷ rows) lt h =
      ground (arith, mark_published-absent now n (r.id + 1) high marked rows)

  pending-sent :
      (r : OutboxEvent J) (rows : List (OutboxEvent J))
      → is_some r.published_at ≡ true
      → pending (r ∷ rows) ≡ pending rows
  unfolding pending
  pending-sent r rows sent = rw sent

  pending-waiting :
      (r : OutboxEvent J) (rows : List (OutboxEvent J))
      → is_some r.published_at ≡ false
      → pending (r ∷ rows) ≡ r ∷ pending rows
  unfolding pending
  pending-waiting r rows waiting = rw waiting

  updated-sent :
      (now : ℕ) (marked : List ℕ) (r : OutboxEvent J)
      → (is_some r.published_at ≡ true) ⊎ (elem r.id marked ≡ true)
      → is_some (updated now marked r).published_at ≡ true
  updated-sent now marked r h = ground arith

  mark_published-cons :
      (now : ℕ) (marked : List ℕ) (r : OutboxEvent J) (rows : List (OutboxEvent J))
      → mark_published now marked (r ∷ rows) ≡ updated now marked r ∷ mark_published now marked rows
  unfolding mark_published
  mark_published-cons now marked r rows = refl

  -- Marking the first `n` pending rows leaves the others pending.
  pending-mark_published :
      (n now low high : ℕ) (rows : List (OutboxEvent J))
      → InOrder low high rows
      → pending (mark_published now (ids (take n (pending rows))) rows) ≡ drop n (pending rows)
  pending-mark_published zero now low high rows h = ap pending (mark_published-none now rows)
  pending-mark_published (suc n) now low high [] h = unfold pending mark_published in refl
  pending-mark_published (suc n) now low high (r ∷ rows) h =
      elim (Bool-cases (is_some r.published_at)) [
        | inl sent ↦
            rw (pending-sent r rows sent, mark_published-cons)
              (pending-sent (updated now (ids (take (suc n) (pending rows))) r)
                  (mark_published now (ids (take (suc n) (pending rows))) rows)
                  (updated-sent now (ids (take (suc n) (pending rows))) r (inl sent))
                ∙ pending-mark_published (suc n) now (r.id + 1) high rows h.1)
        | inr waiting ↦
            rw (pending-waiting r rows waiting, mark_published-cons)
              (pending-sent (updated now (r.id ∷ ids (take n (pending rows))) r)
                  (mark_published now (r.id ∷ ids (take n (pending rows))) rows)
                  (updated-sent now (r.id ∷ ids (take n (pending rows))) r (inr (ground arith)))
                ∙ ap pending (
                    mark_published-absent now r.id (r.id + 1) high (ids (take n (pending rows)))
                      rows (omega arith) h.1)
                ∙ pending-mark_published n now (r.id + 1) high rows h.1)
      ]

  publish_rows-acked :
      (send : KafkaRecord J → SendOutcome) (rows : List (OutboxEvent J))
      → ((m : KafkaRecord J) → send m ≡ acked)
      → publish_rows send rows ≡ (true, map record_of rows)
  unfolding publish_rows
  publish_rows-acked send [] h = refl
  publish_rows-acked send (r ∷ rows) h = rw (h (record_of r), publish_rows-acked send rows h)

  pub mark_published-InOrder :
      (now low high : ℕ) (marked : List ℕ) (rows : List (OutboxEvent J))
      → InOrder low high rows
      → InOrder low high (mark_published now marked rows)
  unfolding mark_published
  mark_published-InOrder now low high marked [] h = h
  mark_published-InOrder now low high marked (r ∷ rows) h =
      let same : (updated now marked r).id ≡ r.id = ground arith in
      rw same (h.0, mark_published-InOrder now (r.id + 1) high marked rows h.1)

  publish_batch-good :
      (poll : Poll J) (rows : List (OutboxEvent J)) (s : Relay J)
      → IsGood poll
      → publish_batch poll rows s ≡ (
        ok (length rows),
        record {
          db = record s.db { outbox = mark_published poll.now (ids rows) s.db.outbox };
          log = s.log ++ map record_of rows;
        },
      )
  unfolding publish_batch
  publish_batch-good poll [] s good =
      rw (mark_published-none poll.now s.db.outbox, append-nil s.log)
  publish_batch-good poll (r ∷ rows) s good =
      rw (publish_rows-acked poll.send (r ∷ rows) good.acknowledged, good.commits)

  -- If the ids of the rows ascend, a poll that nothing disturbs sends the oldest pending rows, at
  -- most `batch` of them, in the order of their ids; it returns how many they were, exactly those
  -- are no longer pending, and the ids still ascend.
  pub tick_progress :
      (batch low high : ℕ) (poll : Poll J) (s : Relay J)
      → IsGood poll
      → InOrder low high s.db.outbox
      → let rows = take batch (pending s.db.outbox) in
        let (r, t) = tick batch poll s in
        (r ≡ ok (length rows))
        × (t.log ≡ s.log ++ map record_of rows)
        × (pending t.db.outbox ≡ drop batch (pending s.db.outbox))
        × InOrder low high t.db.outbox
  unfolding tick
  tick_progress batch low high poll s good h =
      let chosen =
        ap (λ (locked : List ℕ). select_batch batch locked s.db.outbox) good.unlocked
        ∙ select_batch-InOrder batch low high s.db.outbox h in
      rw (chosen, publish_batch-good poll (take batch (pending s.db.outbox)) s good)
        (
          refl,
          refl,
          pending-mark_published batch poll.now low high s.db.outbox h,
          mark_published-InOrder poll.now low high (ids (take batch (pending s.db.outbox)))
              s.db.outbox h,
        )

  -- If the ids of the rows ascend, polls that nothing disturbs, one after the other and enough for
  -- the pending rows at `batch` rows a poll, leave no row pending.
  pub run_drains :
      (batch poll_interval idle_backoff low high : ℕ) (polls : List (Poll J)) (s : Relay J)
      → All IsGood polls
      → InOrder low high s.db.outbox
      → length (pending s.db.outbox) ≤ batch * length polls
      → pending (run batch poll_interval idle_backoff polls s).1.db.outbox ≡ []
  unfolding run
  run_drains batch poll_interval idle_backoff low high [] s good h le =
      nil_of_length (pending s.db.outbox) (omega arith)
  run_drains batch poll_interval idle_backoff low high (poll ∷ polls) s good h le =
      let (_, _, rest, ordered) = tick_progress batch low high poll s good.0 h in
      run_drains batch poll_interval idle_backoff low high polls (tick batch poll s).1 good.1
        ordered (rw rest (omega (arith, length-drop batch (pending s.db.outbox))))
