-- ===== src/Idempotency/Examples.antt =====
-- The theorems on idempotency keys at concrete inputs, with a list of keys and the ends of their times as
-- Redis.
use fastapi_kafka_guide.Prelude.{
  ℕ, ◌+◌, String, ◌≡◌, refl, inl, Bool, true, false, some, List, [], ◌∷◌, arith, ltb, ◌==◌, eq_refl,
  lt→ltb, get_or, err, if◌then◌else◌,
}
use fastapi_kafka_guide.Prelude.Int.{pos, ◌+ℤ◌}
use fastapi_kafka_guide.Prelude.Dict
use fastapi_kafka_guide.Messaging.{redis_failed, acked, unacked}
use fastapi_kafka_guide.Idempotency.Api.{PointEvent, PointRecord, duplicate_test}
use fastapi_kafka_guide.Idempotency.Duplicates.{handed, balance_of, duplicate_test_credits_once}
use fastapi_kafka_guide.Idempotency.{
  Redis, IsRedis, PointMessage, Points, is_processed, process_message, consume_points,
}
use fastapi_kafka_guide.Idempotency.Credits.{
  Delivery, calm, delivered, redelivery_credits_nothing, failed_mark_credits_twice,
}

-- Whether the latest SET of the key has not expired.
abbrev has : List (String × ℕ) → ℕ → String → Bool
has [] now k = false
has ((j, end) ∷ keys) now k = if j == k then ltb now end else has keys now k

abbrev keys : Redis (List (String × ℕ))
keys = record { exists = has; set = λ r now k ttl. (k, now + ttl) ∷ r }

keys-IsRedis : IsRedis keys
keys-IsRedis = record {
  set_there = λ r t u ttl k from until. rw (eq_refl k) (lt→ltb u (t + ttl) until);
  set_keeps = λ r t u ttl k j apart. rw apart refl;
}

abbrev bonus : PointMessage
bonus = record { idempotency_key = "k1"; user_id = "ann"; points = pos 5 }

abbrev empty : Points (List (String × ℕ))
empty = record { balances = []; store = []; commits = 0 }

abbrev delivery : ℕ → Delivery
delivery now = record { message = bonus; checked_at = now; marked_at = now + 1 }

abbrev first : List Delivery
first = delivery 100 ∷ []

-- Half a day later, twice.
abbrev second : List Delivery
second = delivery 43200 ∷ delivery 43201 ∷ []

redelivery_credits_nothing_example :
    (consume_points keys 86400
      (delivered second)
      (consume_points keys 86400 (delivered first) empty).1).1.balances
    ≡ (consume_points keys 86400 (delivered first) empty).1.balances
redelivery_credits_nothing_example =
    redelivery_credits_nothing keys keys-IsRedis 86400 100 101 first second empty
      ((omega arith, omega arith, omega arith, omega arith), tt)
      (
        ((omega arith, omega arith), (delivery 100, inl refl, refl)),
        (((omega arith, omega arith), (delivery 100, inl refl, refl)), tt),
      )
      (λ k u low high seen. let no : false ≡ true = unfold is_processed in seen in cc)

bonus-new : is_processed keys 86400 "k1" 100 [] ≡ false
unfolding is_processed
bonus-new = refl

bonus-still : is_processed keys 86400 "k1" 200 [] ≡ false
unfolding is_processed
bonus-still = refl

failed_mark_credits_twice_example :
    let (r, s') =
      process_message keys 86400
        (record {
          checked_at = 100;
          marked_at = 101;
          exists_fails = false;
          set_fails = true;
          commit_fails = false;
        })
        bonus
        empty in
    (r ≡ err redis_failed)
    × (s'.commits ≡ 0)
    × (Dict.get (process_message keys 86400 (calm 200 201) bonus s').1.balances "ann"
        ≡ some (get_or (Dict.get empty.balances "ann") (pos 0) +ℤ pos 5 +ℤ pos 5))
failed_mark_credits_twice_example =
    failed_mark_credits_twice keys 86400 bonus 100 101 200 201 empty bonus-new bonus-still

abbrev event : PointEvent
event = record { user_id = "ann"; points = pos 5; idempotency_key = "k1" }

abbrev at : ℕ → ℕ × ℕ
at j = (100 + j, 100 + j)

duplicate_test_credits_once_example :
    (added : List PointRecord) × ((duplicate_test true acked unacked event []).1 ≡ added)
    × (balance_of (consume_points keys 86400 (delivered (handed added at)) empty).1 "ann"
        ≡ balance_of empty "ann" +ℤ pos 5)
duplicate_test_credits_once_example =
    duplicate_test_credits_once keys keys-IsRedis 86400 event unacked [] at empty refl bonus-new
      (omega arith) (omega arith)
