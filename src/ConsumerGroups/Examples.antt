-- ===== src/ConsumerGroups/Examples.antt =====
-- The theorems at concrete draws of `uuid4` and turns of the loop.
use fastapi_kafka_guide.Prelude.{
  ℕ, zero, suc, ◌+◌, ◌<◌, String, ◌≡◌, refl, Bool, true, false, none, some, List, [], ◌∷◌, ◌++◌,
  arith, ltb, if◌then◌else◌, length, ok, err,
}
use fastapi_kafka_guide.Prelude.Int.{pos}
use fastapi_kafka_guide.Messaging.Clients.{Sent, acked, refused}
use fastapi_kafka_guide.Python.Utf8.{text}
use fastapi_kafka_guide.Python.Json.Numbers.{FloatCodec}
use fastapi_kafka_guide.ConsumerGroups.{
  Draws, hex_digits, order_id_of, item_of, bulk_failed, Attempts, send_bulk_orders,
}
use fastapi_kafka_guide.ConsumerGroups.Consumer.{
  new_consumer, sorted, insert, Turn, Consumer, consume_loop, get_status,
}
use fastapi_kafka_guide.ConsumerGroups.Delivery.{stored_infos, commit_lost, consume_loop-commits}
use fastapi_kafka_guide.ConsumerGroups.Received.{Place, turns_of, info_at, bulk_orders_received}
use fastapi_kafka_guide.ConsumerGroups.Bulk.{
  tabulate, response_of, AreRecords, failed_bulk_keeps_orders,
}

abbrev one_float : FloatCodec (Unit {0})
one_float = record { shown = λ x. text "1.0"; read = λ s. tt }

abbrev draws : Draws
draws = record {
  id = 0x9f86d081884c4d659a2feaa0c55ad015;
  item = 0xa3bf4f1b2b0b422cb6c1d2e3f4a5b6c7;
  quantity = 123456;
}

draws_id : order_id_of draws.id ≡ text "9f86d081"
unfolding hex_digits
draws_id = refl

draws_item : item_of draws.item ≡ text "item-a3bf"
unfolding hex_digits
draws_item = refl

sorted_three : sorted (2 ∷ 0 ∷ 1 ∷ []) ≡ 0 ∷ 1 ∷ 2 ∷ []
unfolding sorted insert
sorted_three = refl

-- Three sends that are acknowledged, then one that is refused.
abbrev attempts : Attempts
attempts j = (draws, if ltb j 3 then acked 1 (40 + j) else refused)

abbrev places : ℕ → ℕ × ℕ
places j = (1, 40 + j)

three_acked : (j : ℕ) → j < 3 → (attempts j).1 ≡ acked (places j).0 (places j).1
three_acked zero h = refl
three_acked (suc zero) h = refl
three_acked (suc (suc zero)) h = refl
three_acked (suc (suc (suc j))) h = absurd (omega (arith, h))

abbrev handed : ℕ → Place
handed j = record {
  partition = 1;
  offset = 40 + j;
  timestamp = 1714554000000 + j;
  now = text "2024-05-01T09:00:00";
  assignment = 1 ∷ 0 ∷ [];
}

abbrev fresh : Consumer (Unit {0})
fresh = new_consumer "consumer-1"

bulk_orders_received_example :
    (rs : List Sent) × (send_bulk_orders one_float "orders" (some (pos 3)) attempts [] ≡ (
      ok (record {
        total_sent = 3;
        orders = tabulate 3 (λ j. response_of "orders" (attempts j).0 (places j));
      }),
      [] ++ rs,
    ))
    × ((consume_loop one_float (turns_of rs handed) fresh).received_messages
        ≡ [] ++ tabulate 3 (λ j. info_at one_float "orders" "consumer-1" (attempts j).0 (handed j)))
bulk_orders_received_example =
    bulk_orders_received one_float "orders" 3 attempts places [] handed fresh (omega arith)
      (omega arith) three_acked

failed_bulk_keeps_orders_example :
    (rs : List Sent) × AreRecords one_float "orders" 3 attempts rs
    × (send_bulk_orders one_float "orders" (some (pos 10)) attempts []
        ≡ (err bulk_failed, [] ++ rs))
failed_bulk_keeps_orders_example =
    failed_bulk_keeps_orders one_float "orders" 3 10 attempts places [] (omega arith) (omega arith)
      three_acked refl

abbrev turn : String → Bool → Turn
turn s commits = record {
  message = record { topic = "orders"; partition = 0; offset = 0; key = none; value = text s };
  timestamp = 0;
  now = text "2024-05-01T09:00:00";
  commits = commits;
  assignment = 1 ∷ 0 ∷ [];
}

-- The commit of the second fails.
abbrev turns : List Turn
turns = turn "{\"n\": 1}" true ∷ turn "{}" false ∷ turn "{}" true ∷ []

consume_loop-commits_example :
    ((consume_loop one_float turns fresh).received_messages
      ≡ [] ++ stored_infos one_float "consumer-1" turns)
    × ((consume_loop one_float turns fresh).committed
          + (if commit_lost one_float "consumer-1" turns then 1 else 0)
        ≡ length (consume_loop one_float turns fresh).received_messages)
    × ((get_status (1 ∷ []) (consume_loop one_float turns fresh)).0.message_count
        ≡ length (consume_loop one_float turns fresh).received_messages)
consume_loop-commits_example = consume_loop-commits one_float turns (1 ∷ []) fresh refl refl
