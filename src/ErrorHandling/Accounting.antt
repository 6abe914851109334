-- ===== src/ErrorHandling/Accounting.antt =====
-- Where each payment goes: it is processed, set aside, or lost when the dead letter cannot be sent.
use fastapi_kafka_guide.Prelude.{
  ℕ, zero, suc, ◌+◌, ◌<◌, ◌≡◌, refl, ap, ◌∙◌, ◌⊎◌, inl, inr, true, false, some, List, [], ◌∷◌, ◌++◌,
  arith, ltb, length, length-append, All, Bool, ◌||◌, Bool-cases, if◌then◌else◌, lt→ltb, ok, err,
  Exec, Result-cases,
}
use fastapi_kafka_guide.Messaging.{
  Ended, publish, acked, refused, commit_failed, cancelled, crashed, consume_loop,
}
use fastapi_kafka_guide.ErrorHandling.Retry.{
  Runtime, back_off, naps, retry_with_backoff_fails, retry_with_backoff_returns,
}
use fastapi_kafka_guide.ErrorHandling.Payments.{
  Amounts, Payment, ProcessedPayment, PaymentError, App, Env, process_payment, dead_letter,
  send_to_dlq, runtime, committed, consume_payment, consume_payments,
}

module _ {F : Type 0} where
  -- The app without what it slept.
  abbrev pub unslept : App F → App F
  unslept s = record s { slept = [] }

  -- What has been processed or set aside.
  abbrev pub settled : App F → ℕ
  settled s = length s.processed_payments + length s.dead_letters

module _ {F : Type 0} (amounts : Amounts F) where
  -- The attempt that is retried.
  abbrev pub attempt_of : Env → Payment F → Exec (App F) PaymentError (ProcessedPayment F)
  attempt_of env payment t = (process_payment amounts env.now payment, t)

  back_off-unslept :
      (env : Env) (payment : Payment F) (k : ℕ) (s : App F)
      → unslept (back_off (runtime env) env.max_retries env.base_delay (attempt_of env payment) k s)
        ≡ unslept s
  unfolding back_off
  back_off-unslept env payment k s = elim (Bool-cases (ltb (k + 1) env.max_retries)) [
    | inl again ↦ rw (again, back_off) refl
    | inr done ↦ rw (done, back_off) refl
  ]

  back_off-length :
      (env : Env) (payment : Payment F) (k : ℕ) (s : App F)
      → k + 1 < env.max_retries
      → length
          (back_off (runtime env) env.max_retries env.base_delay (attempt_of env payment) k s).slept
        ≡ length s.slept + 1
  unfolding back_off
  back_off-length env payment k s h =
      rw (lt→ltb (k + 1) env.max_retries h) (length-append s.slept _)

  naps-unslept :
      (env : Env) (payment : Payment F) (n k : ℕ) (s : App F)
      → unslept (naps (runtime env) env.max_retries env.base_delay (attempt_of env payment) n k s)
        ≡ unslept s
  unfolding naps
  naps-unslept env payment zero k s = refl
  naps-unslept env payment (suc n) k s =
      naps-unslept env payment n (k + 1) _ ∙ back_off-unslept env payment k s

  naps-length :
      (env : Env) (payment : Payment F) (n k : ℕ) (s : App F)
      → k + n < env.max_retries
      → length
          (naps (runtime env) env.max_retries env.base_delay (attempt_of env payment) n k s).slept
        ≡ length s.slept + n
  unfolding naps
  naps-length env payment zero k s h = omega arith
  naps-length env payment (suc n) k s h = omega (
    arith,
    naps-length env payment n (k + 1)
        (back_off (runtime env) env.max_retries env.base_delay (attempt_of env payment) k s)
        (omega arith),
    back_off-length env payment k s (omega arith),
  )

  aside-unslept :
      (env : Env) (payment : Payment F) (e : PaymentError) (t s : App F)
      → unslept t ≡ unslept s
      → unslept (send_to_dlq amounts env payment (some e) t)
        ≡ unslept (send_to_dlq amounts env payment (some e) s)
  unfolding send_to_dlq
  aside-unslept env payment e t s h =
      ap (λ x. unslept (send_to_dlq amounts env payment (some e) x)) h

  -- If a payment may be tried at least once: one that can be processed is stored, with no sleep and
  -- no dead letter; one that cannot is set aside after `max_retries - 1` sleeps, as far as the dead
  -- letter can be sent. The offset is committed next in both cases, which may raise.
  pub consume_payment-accounts :
      (env : Env) (payment : Payment F) (n : ℕ) (s : App F)
      → suc n ≡ env.max_retries
      → ((r : ProcessedPayment F)
          → process_payment amounts env.now payment ≡ ok r
          → consume_payment amounts env payment s
            ≡ committed amounts env
                (record s { processed_payments = s.processed_payments ++ r ∷ [] }))
        × ((e : PaymentError)
            → process_payment amounts env.now payment ≡ err e
            → (t : App F) × (consume_payment amounts env payment s ≡ committed amounts env t)
              × (unslept t ≡ unslept (send_to_dlq amounts env payment (some e) s))
              × (length t.slept ≡ length s.slept + n))
  unfolding consume_payment send_to_dlq
  consume_payment-accounts env payment n s h =
      let rt : Runtime (App F) = runtime env in
      let func = attempt_of env payment in
      let napped = naps rt env.max_retries env.base_delay func n 0 s in
      (
        λ r q.
            rw
              (
                consume_payment,
                retry_with_backoff_returns rt env.max_retries env.base_delay func r n s
                    (ap (λ x. (x, s)) q) h,
              )
              refl,
        λ e q. (
          send_to_dlq amounts env payment (some e) napped,
          rw
              (
                consume_payment,
                retry_with_backoff_fails rt env.max_retries env.base_delay func e
                    (λ t. ap (λ x. (x, t)) q) n s h,
              )
              refl,
          aside-unslept env payment e napped s (naps-unslept env payment n 0 s),
          naps-length env payment n 0 s (omega arith),
        ),
      )

  positive : (n : ℕ) → 0 < n → (m : ℕ) × (suc m ≡ n)
  positive zero h = absurd (omega arith)
  positive (suc n) h = (n, refl)

  -- What the handling of a payment that fails leaves for the commit, field by field.
  failed_fields :
      (env : Env) (payment : Payment F) (e : PaymentError) (s : App F)
      → 0 < env.max_retries
      → process_payment amounts env.now payment ≡ err e
      → (t : App F) × (consume_payment amounts env payment s ≡ committed amounts env t)
        × (t.producer ≡ s.producer)
        × (t.processed_payments ≡ s.processed_payments)
        × (t.dead_letters
            ≡ (publish s.producer env.send
                (dead_letter amounts env payment (some e))
                s.dead_letters).1)
        × (t.commits ≡ s.commits)
  unfolding send_to_dlq
  failed_fields env payment e s h q =
      let (n, m) = positive env.max_retries h in
      let (t, ends, same, _) = (consume_payment-accounts env payment n s m).1 e q in
      (
        t,
        ends,
        ap (λ (x : App F). x.producer) same,
        ap (λ (x : App F). x.processed_payments) same,
        ap (λ (x : App F). x.dead_letters) same,
        ap (λ (x : App F). x.commits) same,
      )

  commit-ok :
      (env : Env) (t : App F)
      → env.commit_fails ≡ false
      → committed amounts env t ≡ (ok tt, record t { commits = t.commits + 1 })
  commit-ok env t h = rw h refl

  commit-err :
      (env : Env) (t : App F)
      → env.commit_fails ≡ true
      → committed amounts env t ≡ (err commit_failed, t)
  commit-err env t h = rw h refl

  -- A payment that may be tried at least once and fails, while the producer is not started or the
  -- send of its dead letter is refused, is lost if the commit goes through: it is neither processed nor
  -- set aside, no error is raised, and its offset is committed.
  pub unsent_dead_letter_lost :
      (env : Env) (payment : Payment F) (e : PaymentError) (s : App F)
      → 0 < env.max_retries
      → process_payment amounts env.now payment ≡ err e
      → (s.producer ≡ false) ⊎ (env.send ≡ refused)
      → env.commit_fails ≡ false
      → let (r, s') = consume_payment amounts env payment s in
        (r ≡ ok tt)
        × (s'.processed_payments ≡ s.processed_payments)
        × (s'.dead_letters ≡ s.dead_letters)
        × (s'.commits ≡ s.commits + 1)
  unfolding publish
  unsent_dead_letter_lost env payment e s h q unsent commits =
      let (t, ends, _, stored, aside, count) = failed_fields env payment e s h q in
      rw (ends ∙ commit-ok env t commits)
        (refl, stored, aside ∙ ground (arith, unsent), omega (arith, count))

  consume_payment-settled :
      (env : Env) (payment : Payment F) (s : App F)
      → 0 < env.max_retries
      → s.producer ≡ true
      → env.send ≡ acked
      → (t : App F) × (consume_payment amounts env payment s ≡ committed amounts env t)
        × (t.producer ≡ true)
        × (settled t ≡ settled s + 1)
        × (t.commits ≡ s.commits)
  unfolding publish dead_letter
  consume_payment-settled env payment s h started sent =
      let (n, m) = positive env.max_retries h in
      elim (Result-cases (process_payment amounts env.now payment)) [
        | inl (r, q) ↦ (
          record s { processed_payments = s.processed_payments ++ r ∷ [] },
          (consume_payment-accounts env payment n s m).0 r q,
          started,
          omega (arith, length-append s.processed_payments (r ∷ [])),
          refl,
        )
        | inr (e, q) ↦
            let (t, ends, kept, stored, aside, count) = failed_fields env payment e s h q in
            let letter = dead_letter amounts env payment (some e) in
            (
              t,
              ends,
              kept ∙ started,
              rw (stored, aside, started, sent)
                  (omega (arith, length-append s.dead_letters (letter ∷ []))),
              count,
            )
      ]

  -- Of these messages, how many the loop takes: those up to the first whose commit raises, or all.
  abbrev pub taken : List (Env × Payment F) → ℕ
  taken [] = 0
  taken ((env, payment) ∷ messages) =
      let rest = taken messages in if env.commit_fails then 1 else suc rest

  -- Whether the commit of one of them raises.
  abbrev pub stops : List (Env × Payment F) → Bool
  stops [] = false
  stops ((env, payment) ∷ messages) = let rest = stops messages in env.commit_fails || rest

  -- The messages are accounted for, from the state `s` on.
  abbrev pub AllSettled : List (Env × Payment F) → App F → Ended × App F → Type 0
  AllSettled messages s (ended, s') =
      (settled s' ≡ settled s + taken messages)
      × (s'.commits + (if stops messages then 1 else 0) ≡ s.commits + taken messages)
      × (ended ≡ (if stops messages then crashed commit_failed else cancelled))

  AllSettled-cons :
      (env : Env) (payment : Payment F) (messages : List (Env × Payment F)) (s t : App F)
      → consume_payment amounts env payment s ≡ committed amounts env t
      → settled t ≡ settled s + 1
      → t.commits ≡ s.commits
      → AllSettled messages
          (record t { commits = t.commits + 1 })
          (consume_payments amounts messages (record t { commits = t.commits + 1 }))
      → AllSettled
          ((env, payment) ∷ messages)
          s
          (consume_payments amounts ((env, payment) ∷ messages) s)
  unfolding consume_payments consume_loop
  AllSettled-cons env payment messages s t ends one count (all, counted, ended) =
      elim (Bool-cases env.commit_fails) [
        | inl raises ↦
            rw (consume_loop, ends ∙ commit-err env t raises, raises)
              (omega (arith, one), omega (arith, count), refl)
        | inr commits ↦
            rw (consume_loop, ends ∙ commit-ok env t commits, commits)
              (omega (arith, one, all), omega (arith, count, counted), ended)
      ]

  -- While the producer is started, every send is acknowledged and each payment may be tried at least
  -- once, no payment that the loop takes is lost: it takes all messages up to the first whose commit
  -- raises, which ends it; each of these is either processed or set aside, once; and the offset of each
  -- is committed, except of the one whose commit raised.
  pub consume_payments-settled :
      (messages : List (Env × Payment F)) (s : App F)
      → All (λ m. (0 < m.0.max_retries) × (m.0.send ≡ acked)) messages
      → s.producer ≡ true
      → AllSettled messages s (consume_payments amounts messages s)
  unfolding consume_payments consume_loop
  consume_payments-settled [] s h started = (omega arith, omega arith, refl)
  consume_payments-settled ((env, payment) ∷ messages) s ((retries, sent), h) started =
      let (t, ends, works, one, count) =
        consume_payment-settled env payment s retries started sent in
      AllSettled-cons env payment messages s t ends one count
        (consume_payments-settled messages (record t { commits = t.commits + 1 }) h works)
