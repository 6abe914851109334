-- ===== src/FirstServices/Topics.antt =====
-- What the services of 04-topics-and-partitions show of topics and of an order.
use fastapi_kafka_guide.Prelude.{
  ℕ, String, ◌≡◌, ◌≢◌, refl, false, eqb_iff, ap, ◌∙◌, inl, inr, Bool, true, some, List, [], ◌∷◌,
  ◌++◌, map, append-nil, append_assoc, arith, Bool-cases, length, ok,
}
use fastapi_kafka_guide.Messaging.Clients.{Sent, acked, message_of, nonempty, key_arrives}
use fastapi_kafka_guide.Python.Utf8.{IsText, text}
use fastapi_kafka_guide.Python.Utf8.RoundTrip.{all_scalar, IsText-all_scalar}
use fastapi_kafka_guide.Python.Json.Numbers.{FloatCodec, IsFinite}
use fastapi_kafka_guide.Python.Json.Values.{object, same, set_field, set_fields}
use fastapi_kafka_guide.Python.Json.Entries.{IsLoadable}
use fastapi_kafka_guide.Python.Json.Bytes.{from_bytes-to_bytes}
use fastapi_kafka_guide.FirstServices.Partitions.{
  OrderRequest, is_valid_order, model_dump, create_order, consumed, PartitionMeta, PartitionInfo,
  TopicMeta, TopicInfo, is_internal, add_partitions, add_topics, get_topic_info,
}

-- What is shown of a partition and of a topic.
abbrev pub shown : PartitionMeta → PartitionInfo
shown p = record {
  partition_id = p.partition;
  leader = p.leader;
  replicas = p.replicas;
  isr = p.isr;
}

abbrev pub described : TopicMeta → TopicInfo
described t = record {
  topic = t.topic;
  num_partitions = length t.partitions;
  partitions = map shown t.partitions;
}

-- The list that shows the topics of a cluster: one whose name begins with an underscore (0x5f) is left
-- out, every other stands at its place.
pub data Shows : List TopicMeta → List TopicInfo → Type 0 where
  no_topic : Shows [] []
  own :
      {t : TopicMeta} {ts : List TopicMeta} {topics : List TopicInfo} (rest : List ℕ)
      → t.topic ≡ 0x5f ∷ rest
      → Shows ts topics
      → Shows (t ∷ ts) topics
  users :
      {t : TopicMeta} {ts : List TopicMeta} {topics : List TopicInfo}
      → ((rest : List ℕ) → t.topic ≢ 0x5f ∷ rest)
      → Shows ts topics
      → Shows (t ∷ ts) (described t ∷ topics)

add_partitions-map :
    (ps : List PartitionMeta) (partitions : List PartitionInfo)
    → add_partitions ps partitions ≡ partitions ++ map shown ps
unfolding add_partitions
add_partitions-map [] partitions = rw append-nil refl
add_partitions-map (p ∷ ps) partitions =
    add_partitions-map ps (partitions ++ shown p ∷ [])
    ∙ append_assoc partitions (shown p ∷ []) (map shown ps)

length-map : (ps : List PartitionMeta) → length (map shown ps) ≡ length ps
length-map [] = refl
length-map (p ∷ ps) = let rest = length-map ps in omega (arith, rest)

info_of_topic :
    (t : TopicMeta)
    → (record {
      topic = t.topic;
      num_partitions = length (add_partitions t.partitions []);
      partitions = add_partitions t.partitions [];
    }
        ≡ described t)
info_of_topic t = rw (add_partitions-map t.partitions [], length-map t.partitions) refl

is_internal-true : (s : List ℕ) → is_internal s ≡ true → (rest : List ℕ) × (s ≡ 0x5f ∷ rest)
is_internal-true [] h = ground arith
is_internal-true (c ∷ s) h = (s, ap (λ x. x ∷ s) ((eqb_iff c 0x5f).0 h))

is_internal-false : (s rest : List ℕ) → is_internal s ≡ false → s ≢ 0x5f ∷ rest
is_internal-false s rest h same = let begins : is_internal s ≡ true = rw same refl in cc

add_topics-Shows :
    (ts : List TopicMeta) (topics : List TopicInfo)
    → (rest : List TopicInfo) × (add_topics ts topics ≡ topics ++ rest) × Shows ts rest
unfolding add_topics
add_topics-Shows [] topics = ([], rw append-nil refl, no_topic)
add_topics-Shows (t ∷ ts) topics = elim (Bool-cases (is_internal t.topic)) [
  | inl internal ↦
      let (name, begins) = is_internal-true t.topic internal in
      let (rest, added, shows) = add_topics-Shows ts topics in
      (rest, rw internal added, own name begins shows)
  | inr visible ↦
      let (rest, added, shows) = add_topics-Shows ts (topics ++ described t ∷ []) in
      (
        described t ∷ rest,
        rw visible (
            ap (λ i. add_topics ts (topics ++ i ∷ [])) (info_of_topic t)
            ∙ added
            ∙ append_assoc topics (described t ∷ []) rest),
        users (λ name. is_internal-false t.topic name visible) shows,
      )
]

-- When the admin client answers, `get_topic_info` shows in their order the topics whose name does not
-- begin with `_`, each with the number of its partitions and with every partition's id, leader, replicas and
-- in-sync replicas.
pub get_topic_info-Shows :
    (metadata : List TopicMeta)
    → (topics : List TopicInfo) × (get_topic_info (some metadata) ≡ ok topics)
      × Shows metadata topics
unfolding get_topic_info
get_topic_info-Shows metadata =
    let (topics, added, shows) = add_topics-Shows metadata [] in (topics, ap ok added, shows)

literal : (k : String) → all_scalar (text k) ≡ true → IsText (text k)
literal k h = IsText-all_scalar (text k) h

module _ {F : Type 0} (codec : FloatCodec F) where
  model_dump-IsLoadable :
      (order : OrderRequest F)
      → IsText order.order_id
      → IsText order.product
      → IsFinite codec order.price
      → IsLoadable codec (object (model_dump order))
  unfolding IsLoadable set_field set_fields same
  model_dump-IsLoadable order id_text product_text price_loads = (
    (
      literal "order_id" refl,
      id_text,
      (
        literal "product" refl,
        product_text,
        (literal "quantity" refl, tt, (literal "price" refl, price_loads, tt)),
      ),
    ),
    refl,
  )

  -- A valid order whose texts have no surrogates and whose price is finite (as JSON it reads back) is
  -- answered with the place at which the broker acknowledges its one record, and a consumer that is
  -- handed the record reads the order's fields at that place, under the order's id, or under no key if
  -- the id is empty.
  pub created_order_consumed :
      (is_positive : F → Bool) (topic : String) (partition offset : ℕ) (order : OrderRequest F)
      (log : List Sent)
      → is_valid_order is_positive order ≡ true
      → IsText order.order_id
      → IsText order.product
      → IsFinite codec order.price
      → (r : Sent) × (create_order codec is_positive true topic (acked partition offset) order log
          ≡ (
            ok (record {
              status = "success";
              order_id = order.order_id;
              topic = topic;
              partition = partition;
              offset = offset;
            }),
            log ++ r ∷ [],
          ))
        × (consumed codec (message_of r partition offset)
            ≡ some (record {
              topic = topic;
              partition = partition;
              offset = offset;
              key = nonempty (some order.order_id);
              value = model_dump order;
            }))
  unfolding create_order consumed
  created_order_consumed is_positive topic partition offset order log valid id_text product_text
        price_loads =
      let (k, key_sent, key_read) = key_arrives (some order.order_id) id_text in
      let (bs, sent, read) =
        from_bytes-to_bytes codec (object (model_dump order))
          (model_dump-IsLoadable order id_text product_text price_loads) in
      (
        record { topic = topic; key = k; value = bs },
        rw (valid, key_sent, sent) refl,
        rw (key_read, read) refl,
      )
