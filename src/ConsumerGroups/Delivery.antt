-- ===== src/ConsumerGroups/Delivery.antt =====
-- An order of the producer at a consumer of the group, and what the consumer's loop stores and commits.
use fastapi_kafka_guide.Prelude.{
  ℕ, zero, suc, ◌+◌, ◌/◌, ◌%◌, ◌^◌, ◌≤◌, String, ◌≡◌, refl, ◌∙◌, inl, inr, Bool, true, false, none,
  some, List, [], ◌∷◌, ◌++◌, append-nil, append_assoc, arith, if◌then◌else◌, Bool-cases,
  Option-cases, length, length-append, All-append,
}
use fastapi_kafka_guide.Messaging.Clients.{Sent, message_of, key_arrives}
use fastapi_kafka_guide.Python.Utf8.{Str, IsText, is_scalar, text}
use fastapi_kafka_guide.Python.Utf8.RoundTrip.{all_scalar, IsText-all_scalar}
use fastapi_kafka_guide.Python.Json.Numbers.{FloatCodec}
use fastapi_kafka_guide.Python.Json.Values.{object, same, set_field, set_fields}
use fastapi_kafka_guide.Python.Json.Entries.{IsLoadable}
use fastapi_kafka_guide.Python.Json.Bytes.{from_bytes-to_bytes}
use fastapi_kafka_guide.ConsumerGroups.{
  Draws, hex_char, hex_digits, order_id_of, quantity_of, order_data, order_record,
}
use fastapi_kafka_guide.ConsumerGroups.Consumer.{
  MessageInfo, Turn, Consumer, received, store, commit, consume_loop, get_status,
}

hex_char-scalar : (n : ℕ) → is_scalar (hex_char (n % 16)) ≡ true
hex_char-scalar n = ground arith

hex_digits-IsText : (k n : ℕ) → IsText (hex_digits k n)
unfolding hex_digits
hex_digits-IsText zero n = tt
hex_digits-IsText (suc k) n =
    All-append _ (hex_digits k (n / 16)) (hex_char (n % 16) ∷ []) (hex_digits-IsText k (n / 16))
      (hex_char-scalar n, tt)

literal : (k : String) → all_scalar (text k) ≡ true → IsText (text k)
literal k h = IsText-all_scalar (text k) h

module _ {F : Type 0} (codec : FloatCodec F) where
  order_data-IsLoadable : (d : Draws) → IsLoadable codec (object (order_data d))
  unfolding IsLoadable set_field set_fields same
  order_data-IsLoadable d = (
    (
      literal "order_id" refl,
      hex_digits-IsText 8 (d.id / 2 ^ 96),
      (
        literal "item" refl,
        All-append _ (text "item-") (hex_digits 4 (d.item / 2 ^ 112)) (literal "item-" refl)
            (hex_digits-IsText 4 (d.item / 2 ^ 112)),
        (literal "quantity" refl, tt, tt),
      ),
    ),
    refl,
  )

  pub record_exists :
      (topic : String) (d : Draws)
      → (r : Sent) × (order_record codec topic d ≡ some r) × (r.topic ≡ topic)
  unfolding order_record
  record_exists topic d =
      let (k, key_sent, _) =
        key_arrives (some (order_id_of d.id)) (hex_digits-IsText 8 (d.id / 2 ^ 96)) in
      let (bs, sent, _) =
        from_bytes-to_bytes codec (object (order_data d)) (order_data-IsLoadable d) in
      (record { topic = topic; key = k; value = bs }, rw (key_sent, sent) refl, refl)

  -- Every order has a record, whatever `uuid4` draws, and a consumer that is handed it at any place reads
  -- the order that was sent: its key is the order's id, its value the order's fields, and the quantity is
  -- from 1 to 10.
  pub order_arrives :
      (topic consumer_id : String) (d : Draws) (partition offset timestamp : ℕ) (now : Str)
      (commits : Bool) (assignment : List ℕ)
      → (r : Sent) × (order_record codec topic d ≡ some r)
        × (received codec consumer_id (record {
          message = message_of r partition offset;
          timestamp = timestamp;
          now = now;
          commits = commits;
          assignment = assignment;
        })
            ≡ some (record {
              consumer_id = consumer_id;
              partition = partition;
              offset = offset;
              key = some (order_id_of d.id);
              value = object (order_data d);
              timestamp = timestamp;
              received_at = now;
            }))
        × (1 ≤ quantity_of d.quantity)
        × (quantity_of d.quantity ≤ 10)
  unfolding order_record received hex_digits
  order_arrives topic consumer_id d partition offset timestamp now commits assignment =
      let (k, key_sent, key_read) =
        key_arrives (some (order_id_of d.id)) (hex_digits-IsText 8 (d.id / 2 ^ 96)) in
      let (bs, sent, read) =
        from_bytes-to_bytes codec (object (order_data d)) (order_data-IsLoadable d) in
      (
        record { topic = topic; key = k; value = bs },
        rw (key_sent, sent) refl,
        rw (key_read, read) refl,
        omega arith,
        omega arith,
      )

  -- What the loop stores of these messages: those before the first that does not decode, and none after
  -- one whose commit raises.
  unfoldable pub stored_infos : String → List Turn → List (MessageInfo F)
  stored_infos consumer_id [] = []
  stored_infos consumer_id (t ∷ turns) =
      let rest = stored_infos consumer_id turns in
      elim (received codec consumer_id t) [
        | none ↦ []
        | some info ↦ if t.commits then info ∷ rest else info ∷ []
      ]

  -- Whether a commit raises before a message fails to decode.
  unfoldable pub commit_lost : String → List Turn → Bool
  commit_lost consumer_id [] = false
  commit_lost consumer_id (t ∷ turns) =
      let rest = commit_lost consumer_id turns in
      elim (received codec consumer_id t) [
        | none ↦ false
        | some info ↦ if t.commits then rest else true
      ]

  -- From a state whose fetched messages are all stored and committed, the loop stores in order the messages
  -- up to the first that does not decode or whose commit raises; a committed message is a stored one, and
  -- at most the last stored one is not committed, exactly when its commit raised; and the status counts
  -- the stored messages.
  pub consume_loop-commits :
      (turns : List Turn) (assignment : List ℕ) (c : Consumer F)
      → c.fetched ≡ length c.received_messages
      → c.committed ≡ c.fetched
      → ((consume_loop codec turns c).received_messages
          ≡ c.received_messages ++ stored_infos c.consumer_status.consumer_id turns)
        × ((consume_loop codec turns c).committed
              + (if commit_lost c.consumer_status.consumer_id turns then 1 else 0)
            ≡ length (consume_loop codec turns c).received_messages)
        × ((get_status assignment (consume_loop codec turns c)).0.message_count
            ≡ length (consume_loop codec turns c).received_messages)
  unfolding consume_loop stored_infos commit_lost get_status store commit
  consume_loop-commits [] assignment c all done =
      (rw append-nil refl, omega (arith, all, done), refl)
  consume_loop-commits (t ∷ turns) assignment c all done =
      let id = c.consumer_status.consumer_id in
      elim (Option-cases (received codec id t)) [
        | inl n ↦
            rw (consume_loop, stored_infos, commit_lost, n)
              (rw append-nil refl, omega (arith, all, done), refl)
        | inr (info, o) ↦ elim (Bool-cases t.commits) [
          | inl committed ↦
              let one_more : length (c.received_messages ++ info ∷ [])
                  ≡ length c.received_messages + 1 =
                length-append c.received_messages (info ∷ []) in
              let c' = commit t.assignment (store info c) in
              let (stored, lost, count) =
                consume_loop-commits turns assignment c' (omega (arith, all, one_more)) refl in
              rw (consume_loop, stored_infos, commit_lost, o, committed)
                (
                  stored ∙ append_assoc c.received_messages (info ∷ []) (stored_infos id turns),
                  lost,
                  refl,
                )
          | inr raised ↦
              rw (consume_loop, stored_infos, commit_lost, o, raised)
                (
                  refl,
                  omega (arith, all, done, length-append c.received_messages (info ∷ [])),
                  refl,
                )
        ]
      ]
