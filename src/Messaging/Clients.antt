-- ===== src/Messaging/Clients.antt =====
-- What the simpler services share of aiokafka's clients: sends that report the record's place, keys that
-- may be empty, and the records that a consumer is handed.
use fastapi_kafka_guide.Prelude.{ℕ, String, ◌≡◌, refl, Option, none, some, [], ◌∷◌}
use fastapi_kafka_guide.Python.Utf8.{Str, Bytes, IsText, encode, decode, decode_from}
use fastapi_kafka_guide.Python.Utf8.RoundTrip.{encode_total, decode-encode}

-- A record as the broker keeps it.
pub record Sent : Type 0 where
  pub topic : String
  pub key : Option Bytes
  pub value : Bytes

-- How `send_and_wait` ends: acknowledged with the record's place, raised with nothing written, or raised
-- although the broker has written the record.
pub data Outcome : Type 0 where
  acked : ℕ → ℕ → Outcome
  refused unacked : Outcome

pub record Message : Type 0 where
  pub topic : String
  pub partition : ℕ
  pub offset : ℕ
  pub key : Option Bytes
  pub value : Bytes

-- `k.encode("utf-8") if k else None`; the outer `none` is a raised error.
abbrev pub key_bytes : Option Str → Option (Option Bytes)
key_bytes none = some none
key_bytes (some []) = some none
key_bytes (some (c ∷ s)) = elim (encode (c ∷ s)) [ none ↦ none | some bs ↦ some (some bs) ]

-- `msg.key.decode("utf-8") if msg.key else None`; the outer `none` is a raised error.
abbrev pub key_text : Option Bytes → Option (Option Str)
key_text none = some none
key_text (some []) = some none
key_text (some (b ∷ bs)) = elim (decode (b ∷ bs)) [ none ↦ none | some s ↦ some (some s) ]

-- The record of a send whose key and value could be serialized.
abbrev pub sent_record : String → Option (Option Bytes) → Option Bytes → Option Sent
sent_record topic (some key) (some value) =
    some (record { topic = topic; key = key; value = value })
sent_record topic _ _ = none

-- What the consumer is handed of a sent record.
abbrev pub message_of : Sent → ℕ → ℕ → Message
message_of r partition offset = record {
  topic = r.topic;
  partition = partition;
  offset = offset;
  key = r.key;
  value = r.value;
}

-- An empty key is sent as no key.
abbrev pub nonempty : Option Str → Option Str
nonempty none = none
nonempty (some []) = none
nonempty (some (c ∷ s)) = some (c ∷ s)

abbrev pub KeyIsText : Option Str → Type 0
KeyIsText none = Unit
KeyIsText (some s) = IsText s

-- The bytes of a key that is not empty are not empty.
pub key_arrives :
    (key : Option Str)
    → KeyIsText key
    → (k : Option Bytes) × (key_bytes key ≡ some k) × (key_text k ≡ some (nonempty key))
key_arrives none h = (none, refl, refl)
key_arrives (some []) h = (none, refl, refl)
key_arrives (some (c ∷ s)) h =
    let (bs, e) = encode_total (c ∷ s) h in
    (some bs, rw (key_bytes, e) refl, read_back bs (decode-encode (c ∷ s) bs e))
  where
    read_back : (bs : Bytes) → decode bs ≡ some (c ∷ s) → key_text (some bs) ≡ some (some (c ∷ s))
    read_back [] d = let no : some [] ≡ some (c ∷ s) = unfold decode_from in d in cc
    read_back (b ∷ bs) d = rw (key_text, d) refl
