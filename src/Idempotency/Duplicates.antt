-- ===== src/Idempotency/Duplicates.antt =====
-- The duplicate test from the request to the balance.
use fastapi_kafka_guide.Prelude.{
  ℕ, suc, ◌+◌, ◌≤◌, ◌<◌, String, ◌≡◌, refl, ap, ◌∙◌, true, false, none, some, List, [], ◌∷◌, ◌++◌,
  append_assoc, if◌then◌else◌, get_or, All, ◌==◌,
}
use fastapi_kafka_guide.Prelude.Int.{ℤ, pos, ◌+ℤ◌}
use fastapi_kafka_guide.Prelude.Dict
use fastapi_kafka_guide.Messaging.{SendOutcome, acked, refused, unacked, publish, Ended}
use fastapi_kafka_guide.Idempotency.{Redis, IsRedis, Points, is_processed, credit, consume_points}
use fastapi_kafka_guide.Idempotency.Credits.{
  Delivery, delivered, after, consume-cons, consume-seen, marked_there,
}
use fastapi_kafka_guide.Idempotency.Api.{
  PointEvent, PointRecord, payload, is_valid, send_point_event, duplicate_test, get_balances,
}

-- The records as they are handed to the consumer, with the times at which their keys are looked up and
-- marked.
abbrev pub handed : List PointRecord → (ℕ → ℕ × ℕ) → List Delivery
handed [] at = []
handed (r ∷ rs) at =
    record { message = r.value; checked_at = (at 0).0; marked_at = (at 0).1 }
    ∷ handed rs (λ j. at (suc j))

-- The record that a send of the event adds.
abbrev pub record_of : PointEvent → PointRecord
record_of e = record { key = if e.user_id == "" then none else some e.user_id; value = payload e }

abbrev pub balance_of : {R : Type 0} → Points R → String → ℤ
balance_of s user = get_or (Dict.get (get_balances s) user) (pos 0)

module _ {R : Type 0} (redis : Redis R) (laws : IsRedis redis) (ttl : ℕ) where
  -- A new message, and then deliveries of the same while its key is there.
  credited_once :
      (d : Delivery) (again : List Delivery) (s : Points R)
      → is_processed redis ttl d.message.idempotency_key d.checked_at s.store ≡ false
      → All
          (λ x.
            (x.message ≡ d.message)
            × (d.marked_at ≤ x.checked_at)
            × (x.checked_at < d.marked_at + ttl))
          again
      → balance_of (consume_points redis ttl (delivered (d ∷ again)) s).1 d.message.user_id
        ≡ balance_of s d.message.user_id +ℤ d.message.points
  unfolding get_balances credit
  credited_once d again s new h =
      let user = d.message.user_id in
      let seen = consume-seen redis ttl again (after redis ttl d s) (all_seen again h) in
      let put : (after redis ttl d s).balances
          ≡ Dict.put s.balances user
              (get_or (Dict.get s.balances user) (pos 0) +ℤ d.message.points) =
        rw new refl in
      ap (λ (p : Ended × Points R). balance_of p.1 user) (consume-cons redis ttl d again s)
      ∙ ap (λ e. get_or (Dict.get e user) (pos 0)) (seen ∙ put)
      ∙ ap (λ o. get_or o (pos 0)) (Dict.get-put_self s.balances user _)
    where
      marked :
          (u : ℕ)
          → d.marked_at ≤ u
          → u < d.marked_at + ttl
          → is_processed redis ttl d.message.idempotency_key u (after redis ttl d s).store ≡ true
      marked u from until =
          rw new
            (marked_there redis ttl laws d.message.idempotency_key d.marked_at u s.store from until)

      all_seen :
          (again : List Delivery)
          → All
              (λ x.
                (x.message ≡ d.message)
                × (d.marked_at ≤ x.checked_at)
                × (x.checked_at < d.marked_at + ttl))
              again
          → All
              (λ x.
                is_processed redis ttl x.message.idempotency_key x.checked_at
                  (after redis ttl d s).store
                ≡ true)
              again
      all_seen [] h = tt
      all_seen (x ∷ again) ((same, from, until), h) =
          (rw same (marked x.checked_at from until), all_seen again h)

  -- The duplicate test with a valid event whose key is new, through a producer that was started and whose
  -- first send is acknowledged: however its second send ends, the consumer that handles the records
  -- which the request has added, while no call raises and the second within the time to live after the
  -- first was marked, adds the points to the user's balance once.
  pub duplicate_test_credits_once :
      (e : PointEvent) (second : SendOutcome) (log : List PointRecord) (at : ℕ → ℕ × ℕ)
      (s : Points R)
      → is_valid e ≡ true
      → is_processed redis ttl e.idempotency_key (at 0).0 s.store ≡ false
      → (at 0).1 ≤ (at 1).0
      → (at 1).0 < (at 0).1 + ttl
      → (added : List PointRecord) × ((duplicate_test true acked second e log).1 ≡ log ++ added)
        × (balance_of (consume_points redis ttl (delivered (handed added at)) s).1 e.user_id
            ≡ balance_of s e.user_id +ℤ e.points)
  unfolding duplicate_test send_point_event publish
  duplicate_test_credits_once e acked log at s valid new from until = (
    record_of e ∷ record_of e ∷ [],
    rw valid (append_assoc log (record_of e ∷ []) (record_of e ∷ [])),
    credited_once _ (handed (record_of e ∷ []) (λ j. at (suc j))) s new ((refl, from, until), tt),
  )
  duplicate_test_credits_once e refused log at s valid new from until =
      (record_of e ∷ [], rw valid refl, credited_once _ [] s new tt)
  duplicate_test_credits_once e unacked log at s valid new from until = (
    record_of e ∷ record_of e ∷ [],
    rw valid (append_assoc log (record_of e ∷ []) (record_of e ∷ [])),
    credited_once _ (handed (record_of e ∷ []) (λ j. at (suc j))) s new ((refl, from, until), tt),
  )
