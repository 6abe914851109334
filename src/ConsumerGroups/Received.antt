-- ===== src/ConsumerGroups/Received.antt =====
-- A bulk request from the endpoint to the messages of a consumer.
use fastapi_kafka_guide.Prelude.{
  ℕ, zero, suc, ◌≤◌, ◌<◌, String, ◌≡◌, refl, subst, ◌∙◌, true, some, List, [], ◌∷◌, ◌++◌, map,
  append-nil, append_assoc, ok,
}
use fastapi_kafka_guide.Prelude.Int.{pos}
use fastapi_kafka_guide.Messaging.Clients.{Sent, acked, message_of}
use fastapi_kafka_guide.Python.Utf8.{Str}
use fastapi_kafka_guide.Python.Json.Numbers.{FloatCodec}
use fastapi_kafka_guide.Python.Json.Values.{object}
use fastapi_kafka_guide.ConsumerGroups.{
  Draws, order_id_of, order_data, order_record, Attempts, send_bulk_orders,
}
use fastapi_kafka_guide.ConsumerGroups.Consumer.{
  MessageInfo, Turn, Consumer, received, store, commit, consume_loop,
}
use fastapi_kafka_guide.ConsumerGroups.Delivery.{order_arrives}
use fastapi_kafka_guide.ConsumerGroups.Bulk.{
  tabulate, response_of, AreRecords, send_bulk_orders-sends,
}

-- Where and when a record is handed to the consumer, and the partitions that are assigned then.
pub record Place : Type 0 where
  pub partition : ℕ
  pub offset : ℕ
  pub timestamp : ℕ
  pub now : Str
  pub assignment : List ℕ

abbrev pub turn_of : Sent → Place → Turn
turn_of r at = record {
  message = message_of r at.partition at.offset;
  timestamp = at.timestamp;
  now = at.now;
  commits = true;
  assignment = at.assignment;
}

abbrev pub turns_of : List Sent → (ℕ → Place) → List Turn
turns_of [] at = []
turns_of (r ∷ rs) at = turn_of r (at 0) ∷ turns_of rs (λ j. at (suc j))

module _ {F : Type 0} (codec : FloatCodec F) (topic : String) where
  -- What a consumer keeps of an order.
  abbrev pub info_at : String → Draws → Place → MessageInfo F
  info_at consumer_id d at = record {
    consumer_id = consumer_id;
    partition = at.partition;
    offset = at.offset;
    key = some (order_id_of d.id);
    value = object (order_data d);
    timestamp = at.timestamp;
    received_at = at.now;
  }

  received_order :
      (consumer_id : String) (d : Draws) (r : Sent) (at : Place)
      → order_record codec topic d ≡ some r
      → received codec consumer_id (turn_of r at) ≡ some (info_at consumer_id d at)
  received_order consumer_id d r at e =
      let (r', e', read, _, _) =
        order_arrives codec topic consumer_id d at.partition at.offset at.timestamp at.now true
          at.assignment in
      let same : r' ≡ r = cc in
      subst (λ q. received codec consumer_id (turn_of q at) ≡ some (info_at consumer_id d at)) same
        read

  consume_loop-orders :
      (n : ℕ) (attempts : Attempts) (rs : List Sent) (at : ℕ → Place) (c : Consumer F)
      → AreRecords codec topic n attempts rs
      → (consume_loop codec (turns_of rs at) c).received_messages
        ≡ c.received_messages
          ++ tabulate n (λ j. info_at c.consumer_status.consumer_id (attempts j).0 (at j))
  unfolding consume_loop store commit
  consume_loop-orders zero attempts [] at c h = rw append-nil refl
  consume_loop-orders zero attempts (r ∷ rs) at c h = let no : some r ∷ map some rs ≡ [] = h in cc
  consume_loop-orders (suc n) attempts [] at c h =
      let no : []
          ≡ order_record codec topic (attempts 0).0
            ∷ tabulate n (λ j. order_record codec topic (attempts (suc j)).0) =
        h in
      cc
  consume_loop-orders (suc n) attempts (r ∷ rs) at c h =
      let id = c.consumer_status.consumer_id in
      let list : some r ∷ map some rs
          ≡ order_record codec topic (attempts 0).0
            ∷ tabulate n (λ j. order_record codec topic (attempts (suc j)).0) =
        h in
      let first : order_record codec topic (attempts 0).0 ≡ some r = cc in
      let others : AreRecords codec topic n (λ j. attempts (suc j)) rs = cc in
      let read = received_order id (attempts 0).0 r (at 0) first in
      let info = info_at id (attempts 0).0 (at 0) in
      let rest =
        consume_loop-orders n (λ j. attempts (suc j)) rs (λ j. at (suc j))
          (commit (at 0).assignment (store info c)) others in
      rw (consume_loop, read) (rest ∙ append_assoc c.received_messages (info ∷ []) _)

  -- When the broker acknowledges the sends of a bulk request for 1 to 1000 orders, the answer names every
  -- order with the place of its record, and a consumer that is handed the records in their order, at any
  -- places, and whose commits succeed, adds to its messages exactly these orders in that order, each
  -- under its id and with its fields.
  pub bulk_orders_received :
      (n : ℕ) (attempts : Attempts) (places : ℕ → ℕ × ℕ) (log : List Sent) (at : ℕ → Place)
      (c : Consumer F)
      → 1 ≤ n
      → n ≤ 1000
      → ((j : ℕ) → j < n → (attempts j).1 ≡ acked (places j).0 (places j).1)
      → (rs : List Sent) × (send_bulk_orders codec topic (some (pos n)) attempts log ≡ (
        ok (record {
          total_sent = n;
          orders = tabulate n (λ j. response_of topic (attempts j).0 (places j));
        }),
        log ++ rs,
      ))
        × ((consume_loop codec (turns_of rs at) c).received_messages
            ≡ c.received_messages
              ++ tabulate n (λ j. info_at c.consumer_status.consumer_id (attempts j).0 (at j)))
  bulk_orders_received n attempts places log at c low high h =
      let (rs, are, sent) = send_bulk_orders-sends codec topic n attempts places log low high h in
      (rs, sent, consume_loop-orders n attempts rs at c are)
