-- ===== src/Idempotency/Api.antt =====
-- producer.py, schemas.py and main.py of 08-exactly-once-and-idempotency. A send through a producer that
-- was never started raises.
use fastapi_kafka_guide.Prelude.{
  ℕ, String, Bool, false, Option, none, some, List, map, ltb, eqb, if◌then◌else◌, get_or, length,
  Result, ok, err, Exec, ◌>>◌, ◌==◌,
}
use Prim.Native.Char.{code}
use fastapi_kafka_guide.Prelude.Int.{ℤ, pos, negsuc}
use fastapi_kafka_guide.Prelude.Dict.{Dict}
use fastapi_kafka_guide.Messaging.{SendOutcome, ServiceError, publish}
use fastapi_kafka_guide.Idempotency.{PointMessage, Points}

-- `PointEvent`, whose points are checked to be more than 0.
pub record PointEvent : Type 0 where
  pub user_id : String
  pub points : ℤ
  pub idempotency_key : String

abbrev pub is_valid : PointEvent → Bool
is_valid e = elim e.points [ pos n ↦ ltb 0 n | negsuc n ↦ false ]

-- A record of the topic; an empty user is no key.
pub record PointRecord : Type 0 where
  pub key : Option String
  pub value : PointMessage

pub record SentResponse : Type 0 where
  pub status : String
  pub idempotency_key : String

pub record DuplicateResponse : Type 0 where
  pub status : String
  pub idempotency_key : String
  pub sent_count : ℕ

pub data RequestError : Type 0 where
  unprocessable : RequestError
  failed : ServiceError → RequestError

abbrev pub payload : PointEvent → PointMessage
payload e = record { idempotency_key = e.idempotency_key; user_id = e.user_id; points = e.points }

-- `PointProducer.send_point_event`
unfoldable pub send_point_event :
    Bool → SendOutcome → PointEvent → Exec (List PointRecord) ServiceError (Unit {0})
send_point_event started outcome e log =
    let key = if e.user_id == "" then none else some e.user_id in
    publish started outcome (record { key = key; value = payload e }) log

abbrev pub answered :
    {A : Type 0}
    → A
    → Result ServiceError (Unit {0}) × List PointRecord
    → Result RequestError A × List PointRecord
answered a (ok _, log) = (ok a, log)
answered a (err e, log) = (err (failed e), log)

-- `POST /points`
unfoldable pub send_points :
    Bool
    → SendOutcome
    → PointEvent
    → List PointRecord
    → Result RequestError SentResponse × List PointRecord
send_points started outcome e log =
    let answer : SentResponse = record { status = "sent"; idempotency_key = e.idempotency_key } in
    let sent = answered answer (send_point_event started outcome e log) in
    if is_valid e then sent else (err unprocessable, log)

-- `POST /points/duplicate-test`: the same event twice, the second time only if the first did not raise.
unfoldable pub duplicate_test :
    Bool
    → SendOutcome
    → SendOutcome
    → PointEvent
    → List PointRecord
    → Result RequestError DuplicateResponse × List PointRecord
duplicate_test started first second e log =
    let answer : DuplicateResponse = record {
      status = "duplicate_test_sent";
      idempotency_key = e.idempotency_key;
      sent_count = 2;
    } in
    let both = send_point_event started first e >> send_point_event started second e in
    if is_valid e then answered answer (both log) else (err unprocessable, log)

-- `GET /balances`
unfoldable pub get_balances : {R : Type 0} → Points R → Dict ℤ
get_balances s = s.balances

-- `key.removeprefix(KEY_PREFIX)`
unfoldable pub strip : String → String → Option String
strip String.[] s = some s
strip (String.◌∷◌ c p) String.[] = none
strip (String.◌∷◌ c p) (String.◌∷◌ d s) =
    let rest = strip p s in if eqb (code c) (code d) then rest else none

unfoldable pub remove_prefix : String → String → String
remove_prefix p s = get_or (strip p s) s

pub record ProcessedKeys : Type 0 where
  pub keys : List String
  pub count : ℕ

-- `GET /processed-keys`, on the keys that SCAN hands out.
unfoldable pub get_all_keys : List String → List String
get_all_keys scanned = map (remove_prefix "idempotency:") scanned

unfoldable pub get_processed_keys : List String → ProcessedKeys
get_processed_keys scanned = record {
  keys = get_all_keys scanned;
  count = length (get_all_keys scanned);
}
