-- ===== src/Messaging.antt =====
-- What the services share of aiokafka's use: how a send ends, the connection loop of every
-- `start_consumer`, and its loop over the messages, which an exception of the handler ends.
pub mod Clients
use fastapi_kafka_guide.Prelude.{
  ℕ, zero, suc, ◌+◌, Bool, true, false, List, [], ◌∷◌, ◌++◌, if◌then◌else◌, Result, ok, err, Exec,
}

-- How `send_and_wait` ends: acknowledged, raised with nothing written, or raised although the broker
-- has written the record.
pub data SendOutcome : Type 0 where
  acked refused unacked : SendOutcome

-- What a service raises: its producer was not started, or a call of Kafka or Redis raised.
pub data ServiceError : Type 0 where
  not_started send_failed redis_failed commit_failed : ServiceError

-- How the task of a consumer ends: no connection, cancelled, or an exception of the handler.
pub data Ended : Type 0 where
  gave_up : Ended
  cancelled : Ended
  crashed : ServiceError → Ended

-- `send_and_wait` after the guard `if not producer`, on the records that Kafka holds.
unfoldable pub publish :
    {R : Type 0} → Bool → SendOutcome → R → List R → Result ServiceError (Unit {0}) × List R
publish false outcome r log = (err not_started, log)
publish true acked r log = (ok tt, log ++ r ∷ [])
publish true refused r log = (err send_failed, log)
publish true unacked r log = (err send_failed, log ++ r ∷ [])

-- `for attempt in range(max_retries)`: whether a start succeeded, and the seconds slept.
unfoldable pub connect_loop : ℕ → (ℕ → Bool) → ℕ → Bool × List ℕ
connect_loop zero accepts attempt = (false, [])
connect_loop (suc n) accepts attempt =
    let (connected, slept) = connect_loop n accepts (attempt + 1) in
    if accepts attempt then (true, []) else (connected, 2 ∷ slept)

-- `async for msg in consumer`: an exception leaves the loop; the list ends where the task is cancelled.
abbrev pub after_message : {S : Type 0} → Result ServiceError (Unit {0}) → S → Ended × S → Ended × S
after_message (ok _) s rest = rest
after_message (err e) s rest = (crashed e, s)

unfoldable pub consume_loop :
    {S M : Type 0} → (M → Exec S ServiceError (Unit {0})) → List M → S → Ended × S
consume_loop handle [] s = (cancelled, s)
consume_loop handle (msg ∷ messages) s =
    let (r, s') = handle msg s in
    let rest = consume_loop handle messages s' in after_message r s' rest

-- `start_consumer`: 30 attempts to connect, then the loop.
unfoldable pub start_consumer :
    {S M : Type 0} → (ℕ → Bool) → (M → Exec S ServiceError (Unit {0})) → List M → S → Ended × S
start_consumer accepts handle messages s =
    let (connected, _) = connect_loop 30 accepts 0 in
    if connected then consume_loop handle messages s else (gave_up, s)
