-- ===== src/Idempotency.antt =====
-- idempotency.py and consumer.py of 08-exactly-once-and-idempotency: points are credited once for each
-- idempotency key. Redis is an interface, whose keys expire.
pub mod Credits
pub mod Api
pub mod Duplicates
pub mod Examples
use fastapi_kafka_guide.Prelude.{
  ℕ, ◌+◌, ◌≤◌, ◌<◌, String, Bool, true, false, List, ◌≡◌, ◌==◌, if◌then◌else◌, get_or, ok, err,
  Exec,
}
use fastapi_kafka_guide.Prelude.Int.{ℤ, pos, ◌+ℤ◌}
use fastapi_kafka_guide.Prelude.Dict
use fastapi_kafka_guide.Prelude.Dict.{Dict}
use fastapi_kafka_guide.Messaging.{ServiceError, redis_failed, commit_failed, Ended, consume_loop}
use Prim.Native.String.{◌++◌ as ◌+++◌}

-- The two commands of Redis at a time: EXISTS, and SET with the text "1" and a time to live.
pub record Redis (R : Type 0) : Type 0 where
  pub exists : R → ℕ → String → Bool
  pub set : R → ℕ → String → ℕ → R

-- What Redis documents of them: a key that was set is there until its time to live is over, and a SET
-- changes no other key.
pub record IsRedis {R : Type 0} (redis : Redis R) : Type 0 where
  pub set_there :
      (r : R) (t u ttl : ℕ) (k : String)
      → t ≤ u
      → u < t + ttl
      → redis.exists (redis.set r t k ttl) u k ≡ true
  pub set_keeps :
      (r : R) (t u ttl : ℕ) (k j : String)
      → (k == j) ≡ false
      → redis.exists (redis.set r t k ttl) u j ≡ redis.exists r u j

-- The payload of a message.
pub record PointMessage : Type 0 where
  pub idempotency_key : String
  pub user_id : String
  pub points : ℤ

-- `balances`, Redis, and the number of commits.
pub record Points (R : Type 0) : Type 0 where
  pub balances : Dict ℤ
  pub store : R
  pub commits : ℕ

-- The clock when the key is looked up and when it is set, and which calls raise while a message is handled.
pub record Env : Type 0 where
  pub checked_at : ℕ
  pub marked_at : ℕ
  pub exists_fails : Bool
  pub set_fails : Bool
  pub commit_fails : Bool

-- `f"{KEY_PREFIX}{idempotency_key}"`
unfoldable pub redis_key : String → String
redis_key idempotency_key = "idempotency:" +++ idempotency_key

module _ {R : Type 0} (redis : Redis R) (ttl : ℕ) where
  unfoldable pub is_processed : String → ℕ → R → Bool
  is_processed idempotency_key now r = redis.exists r now (redis_key idempotency_key)

  -- Called with `settings.idempotency_ttl`.
  unfoldable pub mark_processed : String → ℕ → R → R
  mark_processed idempotency_key now r = redis.set r now (redis_key idempotency_key) ttl

  -- `consumer.commit()`
  abbrev pub commit : Env → Exec (Points R) ServiceError (Unit {0})
  commit env s =
      if env.commit_fails
      then (err commit_failed, s)
      else (ok tt, record s { commits = s.commits + 1 })

  -- Step 2: the points are added to the balance of the user.
  unfoldable pub credit : PointMessage → Points R → Points R
  credit msg s = record s {
    balances =
        Dict.put s.balances msg.user_id
          (get_or (Dict.get s.balances msg.user_id) (pos 0) +ℤ msg.points);
  }

  -- `_process_message`
  unfoldable pub process_message : Env → PointMessage → Exec (Points R) ServiceError (Unit {0})
  process_message env msg s =
      let credited = credit msg s in
      if env.exists_fails
      then (err redis_failed, s)
      else if is_processed msg.idempotency_key env.checked_at s.store
      then commit env s
      else if env.set_fails
      then (err redis_failed, credited)
      else commit env (record credited {
        store = mark_processed msg.idempotency_key env.marked_at credited.store;
      })

  -- The loop of `start_consumer`, which an exception ends.
  unfoldable pub consume_points : List (Env × PointMessage) → Points R → Ended × Points R
  consume_points messages = consume_loop (λ m. process_message m.0 m.1) messages
