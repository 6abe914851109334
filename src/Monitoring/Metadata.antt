-- ===== src/Monitoring/Metadata.antt =====
-- A message on its way from the request to the consumer's memory.
use fastapi_kafka_guide.Prelude.{
  ℕ, String, ◌≡◌, refl, ap, ◌∙◌, Bool, true, not, Option, some, [], ◌∷◌, ◌++◌, if◌then◌else◌,
  Result,
}
use fastapi_kafka_guide.Messaging.Clients.{
  Sent, acked, message_of, nonempty, KeyIsText, key_arrives,
}
use fastapi_kafka_guide.Python.Utf8.{Str, text}
use fastapi_kafka_guide.Python.Json.Numbers.{FloatCodec}
use fastapi_kafka_guide.Python.Json.Values.{Fields, str, object, same, set_field, get_field}
use fastapi_kafka_guide.Python.Json.Lookup.{get_field-set_field}
use fastapi_kafka_guide.Python.Json.Entries.{IsLoadable}
use fastapi_kafka_guide.Python.Json.Bytes.{from_bytes-to_bytes}
use fastapi_kafka_guide.Monitoring.Producer.{
  Sending, SendResult, SendError, enriched, counted, send_message,
}
use fastapi_kafka_guide.Monitoring.Consumer.{ConsumedMessage, consumed}

module _ {F : Type 0} where
  -- The two fields that the service adds stand in every message, whatever the request put there; the
  -- other fields are the request's.
  pub enriched-fields :
      (app_name timestamp : Str) (message : Fields F) (k : Str)
      → (get_field (enriched app_name timestamp message) (text "timestamp") ≡ some (str timestamp))
        × (get_field (enriched app_name timestamp message) (text "source") ≡ some (str app_name))
        × (get_field (enriched app_name timestamp message) k ≡ (
            if same (text "source") k
            then some (str app_name)
            else if same (text "timestamp") k
            then some (str timestamp)
            else get_field message k))
  unfolding enriched same
  enriched-fields app_name timestamp message k =
      let stamped = set_field message (text "timestamp") (str timestamp) in
      (
        get_field-set_field stamped (text "source") (text "timestamp") (str app_name)
            ∙ get_field-set_field message (text "timestamp") (text "timestamp") (str timestamp),
        get_field-set_field stamped (text "source") (text "source") (str app_name),
        get_field-set_field stamped (text "source") k (str app_name)
            ∙ rw (get_field-set_field message (text "timestamp") k (str timestamp)) refl,
      )

module _ {F : Type 0} (codec : FloatCodec F) where
  -- When the producer was started, the broker acknowledges, and the message with its metadata is JSON that
  -- loads (its texts have no surrogates, its floats are finite), the send is counted and adds one record,
  -- and a consumer that is handed it stores the message with this service's name and time in it, under
  -- the key of the request.
  pub sent_message_consumed :
      (app_name timestamp : Str) (topic : String) (message : Fields F) (key : Option Str)
      (partition offset : ℕ) (s : Sending)
      → s.0.created ≡ true
      → KeyIsText key
      → IsLoadable codec (object (enriched app_name timestamp message))
      → (r : Sent) × (m : ConsumedMessage F) × ((send_message codec app_name timestamp
            (acked partition offset)
            topic
            message
            key
            s).1
          ≡ (counted s.0, s.1 ++ r ∷ []))
        × (consumed codec (message_of r partition offset) ≡ some m)
        × (m.value ≡ object (enriched app_name timestamp message))
        × (m.key ≡ nonempty key)
        × (get_field (enriched app_name timestamp message) (text "source") ≡ some (str app_name))
        × (get_field (enriched app_name timestamp message) (text "timestamp")
            ≡ some (str timestamp))
  unfolding send_message consumed
  sent_message_consumed app_name timestamp topic message key partition offset (p, log) created h
        loads =
      let v = object (enriched app_name timestamp message) in
      let (k, key_sent, key_read) = key_arrives key h in
      let (bs, sent, read) = from_bytes-to_bytes codec v loads in
      let (stamped, named, _) = enriched-fields app_name timestamp message [] in
      (
        record { topic = topic; key = k; value = bs },
        record {
          topic = topic;
          partition = partition;
          offset = offset;
          key = nonempty key;
          value = v;
        },
        rw (key_sent, sent)
            (ap {A = Result SendError SendResult × Sending} (λ g. g.1)
              (guarded _ _ p.created created)),
        rw (key_read, read) refl,
        refl,
        refl,
        named,
        stamped,
      )
    where
      guarded : {A : Type 0} (x y : A) (b : Bool) → b ≡ true → (if not b then x else y) ≡ y
      guarded x y b e = rw e refl
