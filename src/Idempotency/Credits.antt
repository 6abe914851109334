-- ===== src/Idempotency/Credits.antt =====
-- Each key is credited once while Redis answers and keeps it, and twice when it fails at the wrong moment.
use fastapi_kafka_guide.Prelude.{
  ℕ, ◌+◌, ◌≤◌, ◌<◌, String, ◌≡◌, refl, sym, ap, subst, ◌∙◌, inl, inr, true, false, some, List, [],
  ◌∷◌, arith, if◌then◌else◌, Bool-cases, get_or, All, In, All-In, ok, err, eq_iff, ◌==◌,
}
use fastapi_kafka_guide.Prelude.Int.{pos, ◌+ℤ◌}
use fastapi_kafka_guide.Prelude.Dict
use fastapi_kafka_guide.Messaging.{redis_failed, Ended, consume_loop}
use fastapi_kafka_guide.Idempotency.{
  Redis, IsRedis, PointMessage, Points, Env, redis_key, is_processed, mark_processed, credit,
  process_message, consume_points,
}

-- A message with the times at which its key is looked up and marked.
pub record Delivery : Type 0 where
  pub message : PointMessage
  pub checked_at : ℕ
  pub marked_at : ℕ

-- No call raises.
abbrev pub calm : ℕ → ℕ → Env
calm checked_at marked_at = record {
  checked_at = checked_at;
  marked_at = marked_at;
  exists_fails = false;
  set_fails = false;
  commit_fails = false;
}

-- Messages that are handled with no call raising.
abbrev pub delivered : List Delivery → List (Env × PointMessage)
delivered [] = []
delivered (d ∷ deliveries) = (calm d.checked_at d.marked_at, d.message) ∷ delivered deliveries

module _ {R : Type 0} (redis : Redis R) (ttl : ℕ) where
  -- The state after a message that is handled calmly.
  abbrev pub after : Delivery → Points R → Points R
  after d s =
      if is_processed redis ttl d.message.idempotency_key d.checked_at s.store
      then record s { commits = s.commits + 1 }
      else record (credit redis ttl d.message s) {
        store =
            mark_processed redis ttl d.message.idempotency_key d.marked_at
              (credit redis ttl d.message s).store;
        commits = (credit redis ttl d.message s).commits + 1;
      }

  calm-ok :
      (d : Delivery) (s : Points R)
      → process_message redis ttl (calm d.checked_at d.marked_at) d.message s ≡ (ok tt, after d s)
  unfolding process_message
  calm-ok d s =
      elim (Bool-cases (is_processed redis ttl d.message.idempotency_key d.checked_at s.store)) [
        | inl seen ↦ rw (process_message, seen) refl
        | inr new ↦ rw (process_message, new) refl
      ]

  pub consume-cons :
      (d : Delivery) (deliveries : List Delivery) (s : Points R)
      → consume_points redis ttl (delivered (d ∷ deliveries)) s
        ≡ consume_points redis ttl (delivered deliveries) (after d s)
  unfolding consume_points consume_loop
  consume-cons d deliveries s = rw (consume_loop, calm-ok d s) refl

  -- A key that was marked is there for its time to live.
  pub marked_there :
      (laws : IsRedis redis) (k : String) (t u : ℕ) (r : R)
      → t ≤ u
      → u < t + ttl
      → is_processed redis ttl k u (mark_processed redis ttl k t r) ≡ true
  unfolding is_processed mark_processed
  marked_there laws k t u r from until = laws.set_there r t u ttl _ from until

  -- Messages whose keys are there when they are looked up change no balance.
  pub consume-seen :
      (deliveries : List Delivery) (s : Points R)
      → All
          (λ d. is_processed redis ttl d.message.idempotency_key d.checked_at s.store ≡ true)
          deliveries
      → (consume_points redis ttl (delivered deliveries) s).1.balances ≡ s.balances
  consume-seen [] s h = unfold consume_points in unfold consume_loop in refl
  consume-seen (d ∷ deliveries) s h =
      rw (consume-cons d deliveries s)
        (rw h.0 (consume-seen deliveries (record s { commits = s.commits + 1 }) h.1))

  -- A new message whose key cannot be marked, since the SET raises after the points are credited, stops
  -- the consumer before its commit; delivered again while the key is still new, it is credited a second
  -- time.
  pub failed_mark_credits_twice :
      (m : PointMessage) (checked_at marked_at again marked_again : ℕ) (s : Points R)
      → is_processed redis ttl m.idempotency_key checked_at s.store ≡ false
      → is_processed redis ttl m.idempotency_key again s.store ≡ false
      → let (r, s') =
          process_message redis ttl
            (record {
              checked_at = checked_at;
              marked_at = marked_at;
              exists_fails = false;
              set_fails = true;
              commit_fails = false;
            })
            m
            s in
        (r ≡ err redis_failed)
        × (s'.commits ≡ s.commits)
        × (Dict.get (process_message redis ttl (calm again marked_again) m s').1.balances m.user_id
            ≡ some (get_or (Dict.get s.balances m.user_id) (pos 0) +ℤ m.points +ℤ m.points))
  unfolding process_message credit
  failed_mark_credits_twice m checked_at marked_at again marked_again s new still_new =
      let old = get_or (Dict.get s.balances m.user_id) (pos 0) in
      let once = Dict.put s.balances m.user_id (old +ℤ m.points) in
      let read : get_or (Dict.get once m.user_id) (pos 0) ≡ old +ℤ m.points =
        ap (λ o. get_or o (pos 0)) (Dict.get-put_self s.balances m.user_id (old +ℤ m.points)) in
      rw (new, still_new)
        (refl, refl, Dict.get-put_self once m.user_id _ ∙ ap (λ x. some (x +ℤ m.points)) read)

-- Two rounds of deliveries: the first from `start` to `turn`, the second from then on, within the time to
-- live of a key that is marked at `start`.
module _ {R : Type 0} (redis : Redis R) (laws : IsRedis redis) (ttl start turn : ℕ) where
  abbrev pub InFirst : Delivery → Type 0
  InFirst d =
      (start ≤ d.checked_at) × (d.checked_at ≤ turn) × (start ≤ d.marked_at) × (d.marked_at ≤ turn)

  abbrev pub InSecond : Delivery → Type 0
  InSecond d = (turn ≤ d.checked_at) × (d.checked_at < start + ttl)

  -- The key is there during the whole second round.
  abbrev pub IsThere : String → R → Type 0
  IsThere k r = (v : ℕ) → turn ≤ v → v < start + ttl → is_processed redis ttl k v r ≡ true

  -- No key that is there in the first round has expired before the second is over.
  abbrev pub IsLasting : R → Type 0
  IsLasting r =
      (k : String) (u : ℕ)
      → start ≤ u
      → u ≤ turn
      → is_processed redis ttl k u r ≡ true
      → IsThere k r

  marked-IsThere :
      (k : String) (t : ℕ) (r : R)
      → start ≤ t
      → t ≤ turn
      → IsThere k (mark_processed redis ttl k t r)
  marked-IsThere k t r from until v low high =
      marked_there redis ttl laws k t v r (omega (arith, until, low)) (omega (arith, from, high))

  marked_other :
      (k j : String) (t u : ℕ) (r : R)
      → (redis_key k == redis_key j) ≡ false
      → is_processed redis ttl j u (mark_processed redis ttl k t r) ≡ is_processed redis ttl j u r
  unfolding is_processed mark_processed
  marked_other k j t u r apart = laws.set_keeps r t u ttl _ _ apart

  marked_same :
      (k j : String) (t : ℕ) (r : R)
      → (redis_key k == redis_key j) ≡ true
      → start ≤ t
      → t ≤ turn
      → IsThere j (mark_processed redis ttl k t r)
  unfolding is_processed mark_processed
  marked_same k j t r same from until =
      let equal : redis_key k ≡ redis_key j = (eq_iff (redis_key k) (redis_key j)).0 same in
      λ v low high.
        subst (λ x. redis.exists (redis.set r t (redis_key k) ttl) v x ≡ true) equal
          (laws.set_there r t v ttl (redis_key k) (omega (arith, until, low))
            (omega (arith, from, high)))

  marked_keeps :
      (k j : String) (t : ℕ) (r : R)
      → start ≤ t
      → t ≤ turn
      → IsThere j r
      → IsThere j (mark_processed redis ttl k t r)
  marked_keeps k j t r from until h = elim (Bool-cases (redis_key k == redis_key j)) [
    | inl same ↦ marked_same k j t r same from until
    | inr apart ↦ λ v low high. marked_other k j t v r apart ∙ h v low high
  ]

  marked-IsLasting :
      (k : String) (t : ℕ) (r : R)
      → start ≤ t
      → t ≤ turn
      → IsLasting r
      → IsLasting (mark_processed redis ttl k t r)
  marked-IsLasting k t r from until h j u low high seen =
      elim (Bool-cases (redis_key k == redis_key j)) [
        | inl same ↦ marked_same k j t r same from until
        | inr apart ↦ λ v later before.
            marked_other k j t v r apart
            ∙ h j u low high (sym (marked_other k j t u r apart) ∙ seen) v later before
      ]

  after-IsThere :
      (d : Delivery) (s : Points R) (k : String)
      → InFirst d
      → IsThere k s.store
      → IsThere k (after redis ttl d s).store
  unfolding credit
  after-IsThere d s k (_, _, from, until) h =
      elim (Bool-cases (is_processed redis ttl d.message.idempotency_key d.checked_at s.store)) [
        | inl seen ↦ rw seen h
        | inr new ↦
            rw new (marked_keeps d.message.idempotency_key k d.marked_at s.store from until h)
      ]

  after-IsLasting :
      (d : Delivery) (s : Points R)
      → InFirst d
      → IsLasting s.store
      → IsLasting (after redis ttl d s).store
        × IsThere d.message.idempotency_key (after redis ttl d s).store
  unfolding credit
  after-IsLasting d s (low, high, from, until) h =
      let k = d.message.idempotency_key in
      elim (Bool-cases (is_processed redis ttl k d.checked_at s.store)) [
        | inl seen ↦ rw seen (h, h k d.checked_at low high seen)
        | inr new ↦ rw new (
          marked-IsLasting k d.marked_at s.store from until h,
          marked-IsThere k d.marked_at s.store from until,
        )
      ]

  -- What was there and the keys of these deliveries are there in the state.
  abbrev pub Kept : List Delivery → Points R → Ended × Points R → Type 0
  Kept first s (ended, s') =
      ((k : String) → IsThere k s.store → IsThere k s'.store)
      × All (λ d. IsThere d.message.idempotency_key s'.store) first

  consume_first :
      (first : List Delivery) (s : Points R)
      → All InFirst first
      → IsLasting s.store
      → Kept first s (consume_points redis ttl (delivered first) s)
  consume_first [] s h lasting =
      unfold consume_points in unfold consume_loop in (λ k there. there, tt)
  consume_first (d ∷ first) s h lasting =
      let (still, there) = after-IsLasting d s h.0 lasting in
      let (keeps, all_there) = consume_first first (after redis ttl d s) h.1 still in
      subst (Kept (d ∷ first) s) (sym (consume-cons redis ttl d first s)) (
        λ k before. keeps k (after-IsThere d s k h.0 before),
        (keeps d.message.idempotency_key there, all_there),
      )

  -- While no call of Redis or Kafka raises, messages that are delivered again, in any order and any number
  -- of times, credit nothing if their keys are looked up within the time to live after the first of them
  -- was delivered. The keys that Redis held when they came first do not expire meanwhile.
  pub redelivery_credits_nothing :
      (first second : List Delivery) (s : Points R)
      → All InFirst first
      → All (λ d. InSecond d × ((e : Delivery) × In e first × (d.message ≡ e.message))) second
      → IsLasting s.store
      → (consume_points redis ttl
          (delivered second)
          (consume_points redis ttl (delivered first) s).1).1.balances
        ≡ (consume_points redis ttl (delivered first) s).1.balances
  redelivery_credits_nothing first second s h again lasting =
      consume-seen redis ttl second (consume_points redis ttl (delivered first) s).1
        (all_seen second again)
    where
      there :
          All
            (λ d.
              IsThere d.message.idempotency_key
                (consume_points redis ttl (delivered first) s).1.store)
            first
      there = (consume_first first s h lasting).1

      all_seen :
          (second : List Delivery)
          → All (λ d. InSecond d × ((e : Delivery) × In e first × (d.message ≡ e.message))) second
          → All
              (λ d.
                is_processed redis ttl d.message.idempotency_key d.checked_at
                  (consume_points redis ttl (delivered first) s).1.store
                ≡ true)
              second
      all_seen [] again = tt
      all_seen (d ∷ second) (((low, high), (e, i, same)), again) =
          (rw same (All-In _ e first there i d.checked_at low high), all_seen second again)
