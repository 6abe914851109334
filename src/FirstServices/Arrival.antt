-- ===== src/FirstServices/Arrival.antt =====
-- Texts on their way from the requests to the consumer's list.
use fastapi_kafka_guide.Prelude.{
  ℕ, suc, ◌≡◌, refl, ap, ◌∙◌, some, List, [], ◌∷◌, ◌++◌, map, append-nil, append_assoc, arith,
  length, All,
}
use fastapi_kafka_guide.Messaging.Clients.{
  Sent, message_of, nonempty, KeyIsText, key_text, key_arrives,
}
use fastapi_kafka_guide.Python.Utf8.{Str, IsText}
use fastapi_kafka_guide.Python.Utf8.RoundTrip.{encode_total, decode-encode}
use fastapi_kafka_guide.FirstServices.Texts.{
  MessageRequest, message_record, Turn, MessageData, received, consume_loop, list_messages,
}

-- Both texts of a request have no surrogates.
abbrev pub IsTextRequest : MessageRequest → Type 0
IsTextRequest body = KeyIsText body.key × IsText body.value

-- Where and when a record is handed to the consumer.
pub record Place : Type 0 where
  pub partition : ℕ
  pub offset : ℕ
  pub timestamp : ℕ
  pub now : Str

abbrev pub turn_of : Sent → Place → Turn
turn_of r at = record {
  message = message_of r at.partition at.offset;
  timestamp = at.timestamp;
  now = at.now;
}

abbrev pub turns_of : List Sent → (ℕ → Place) → List Turn
turns_of [] at = []
turns_of (r ∷ rs) at = turn_of r (at 0) ∷ turns_of rs (λ j. at (suc j))

abbrev pub data_at : MessageRequest → Place → MessageData
data_at body at = record {
  topic = body.topic;
  partition = at.partition;
  offset = at.offset;
  key = nonempty body.key;
  value = body.value;
  timestamp = at.timestamp;
  received_at = at.now;
}

abbrev pub all_data : List MessageRequest → (ℕ → Place) → List MessageData
all_data [] at = []
all_data (body ∷ bodies) at = data_at body (at 0) ∷ all_data bodies (λ j. at (suc j))

text_arrives :
    (body : MessageRequest) (at : Place)
    → IsTextRequest body
    → (r : Sent) × (message_record body ≡ some r)
      × (received (turn_of r at) ≡ some (data_at body at))
unfolding received
text_arrives body at (key_text, value_text) =
    let (k, key_sent, key_read) = key_arrives body.key key_text in
    let (bs, sent) = encode_total body.value value_text in
    (
      record { topic = body.topic; key = k; value = bs },
      rw (key_sent, sent) refl,
      rw (key_read, decode-encode body.value bs sent) refl,
    )

length-all_data :
    (bodies : List MessageRequest) (at : ℕ → Place) → length (all_data bodies at) ≡ length bodies
length-all_data [] at = refl
length-all_data (body ∷ bodies) at =
    let rest = length-all_data bodies (λ j. at (suc j)) in omega (arith, rest)

consume_loop-all :
    (bodies : List MessageRequest) (at : ℕ → Place) (stored : List MessageData)
    → All IsTextRequest bodies
    → (rs : List Sent) × (map some rs ≡ map message_record bodies)
      × (consume_loop (turns_of rs at) stored ≡ stored ++ all_data bodies at)
unfolding consume_loop
consume_loop-all [] at stored h = ([], refl, rw append-nil refl)
consume_loop-all (body ∷ bodies) at stored (h, hs) =
    let (r, sent, read) = text_arrives body (at 0) h in
    let (rs, all_sent, rest) =
      consume_loop-all bodies (λ j. at (suc j)) (stored ++ data_at body (at 0) ∷ []) hs in
    (
      r ∷ rs,
      rw (sent, all_sent) refl,
      rw (consume_loop, read) (rest ∙ append_assoc stored (data_at body (at 0) ∷ []) _),
    )

-- Requests whose texts have no surrogates all have a record. When a consumer that has received nothing is
-- handed these records in their order, at any places, its list counts them all and shows each request's
-- topic, key and text in that order; an empty key has become no key.
pub texts_listed :
    (bodies : List MessageRequest) (at : ℕ → Place)
    → All IsTextRequest bodies
    → (rs : List Sent) × (map some rs ≡ map message_record bodies)
      × ((list_messages (consume_loop (turns_of rs at) [])).messages ≡ all_data bodies at)
      × ((list_messages (consume_loop (turns_of rs at) [])).count ≡ length bodies)
unfolding list_messages
texts_listed bodies at h =
    let (rs, sent, stored) = consume_loop-all bodies at [] h in
    (rs, sent, stored, ap (λ (ms : List MessageData). length ms) stored ∙ length-all_data bodies at)
