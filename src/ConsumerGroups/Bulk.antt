-- ===== src/ConsumerGroups/Bulk.antt =====
-- What a bulk request leaves in Kafka, whether it succeeds or not.
use fastapi_kafka_guide.Prelude.{
  ℕ, zero, suc, ◌+◌, ◌-◌, ◌≤◌, ◌<◌, String, ◌≡◌, refl, ap, ◌∙◌, none, some, List, [], ◌∷◌, ◌++◌,
  map, append-nil, append_assoc, arith, length, ok, err,
}
use fastapi_kafka_guide.Prelude.Int.{pos}
use fastapi_kafka_guide.Messaging.Clients.{Sent, Outcome, acked, refused}
use fastapi_kafka_guide.Python.Json.Numbers.{FloatCodec}
use fastapi_kafka_guide.ConsumerGroups.{
  OrderResponse, Draws, order_id_of, order_record, bulk_failed, count_of, to_bulk, Attempts,
  send_order, send_orders, send_bulk_orders,
}
use fastapi_kafka_guide.ConsumerGroups.Delivery.{record_exists}

abbrev pub tabulate : {A : Type 0} → ℕ → (ℕ → A) → List A
tabulate zero f = []
tabulate (suc n) f = f 0 ∷ tabulate n (λ j. f (suc j))

-- The attempts after the first ones.
abbrev pub later : ℕ → Attempts → Attempts
later zero attempts = attempts
later (suc m) attempts = later m (λ j. attempts (suc j))

abbrev pub response_of : String → Draws → ℕ × ℕ → OrderResponse
response_of topic d place = record {
  order_id = order_id_of d.id;
  topic = topic;
  partition = place.0;
  offset = place.1;
}

length-tabulate : {A : Type 0} (n : ℕ) (f : ℕ → A) → length (tabulate n f) ≡ n
length-tabulate zero f = refl
length-tabulate (suc n) f = let rest = length-tabulate n (λ j. f (suc j)) in omega (arith, rest)

later-first : (m : ℕ) (attempts : Attempts) → later m attempts 0 ≡ attempts m
later-first zero attempts = refl
later-first (suc m) attempts = later-first m (λ j. attempts (suc j))

count_of-valid : (n : ℕ) → 1 ≤ n → n ≤ 1000 → count_of (some (pos n)) ≡ some n
unfolding count_of
count_of-valid n low high = ground arith

module _ {F : Type 0} (codec : FloatCodec F) (topic : String) where
  -- The records of the first orders, one each.
  abbrev pub AreRecords : ℕ → Attempts → List Sent → Type 0
  AreRecords m attempts rs = map some rs ≡ tabulate m (λ j. order_record codec topic (attempts j).0)

  send_order-acked :
      (a : Draws × Outcome) (place : ℕ × ℕ) (r : Sent) (log : List Sent)
      → a.1 ≡ acked place.0 place.1
      → order_record codec topic a.0 ≡ some r
      → r.topic ≡ topic
      → send_order codec topic a log ≡ (some (response_of topic a.0 place), log ++ r ∷ [])
  unfolding send_order
  send_order-acked (d, outcome) place r log h e named = rw (h, e, named) refl

  send_order-refused :
      (a : Draws × Outcome) (r : Sent) (log : List Sent)
      → a.1 ≡ refused
      → order_record codec topic a.0 ≡ some r
      → send_order codec topic a log ≡ (none, log)
  unfolding send_order
  send_order-refused (d, outcome) r log h e = rw (h, e) refl

  send_orders-more :
      (n : ℕ) (attempts : Attempts) (orders : List OrderResponse) (log : List Sent)
      (o : OrderResponse) (log' : List Sent)
      → send_order codec topic (attempts 0) log ≡ (some o, log')
      → send_orders codec topic (suc n) attempts orders log
        ≡ send_orders codec topic n (λ j. attempts (suc j)) (orders ++ o ∷ []) log'
  unfolding send_orders
  send_orders-more n attempts orders log o log' e =
      let first : (send_order codec topic (attempts 0) log).0 ≡ some o = ap (λ p. p.0) e in
      let second : (send_order codec topic (attempts 0) log).1 ≡ log' = ap (λ p. p.1) e in
      rw (send_orders, first, second) refl

  send_orders-stops :
      (n : ℕ) (attempts : Attempts) (orders : List OrderResponse) (log log' : List Sent)
      → send_order codec topic (attempts 0) log ≡ (none, log')
      → send_orders codec topic (suc n) attempts orders log ≡ (none, log')
  unfolding send_orders
  send_orders-stops n attempts orders log log' e =
      let first : (send_order codec topic (attempts 0) log).0 ≡ none = ap (λ p. p.0) e in
      let second : (send_order codec topic (attempts 0) log).1 ≡ log' = ap (λ p. p.1) e in
      rw (send_orders, first, second) refl

  send_bulk_orders-valid :
      (n : ℕ) (attempts : Attempts) (log : List Sent)
      → 1 ≤ n
      → n ≤ 1000
      → send_bulk_orders codec topic (some (pos n)) attempts log
        ≡ to_bulk (send_orders codec topic n attempts [] log)
  unfolding send_bulk_orders
  send_bulk_orders-valid n attempts log low high =
      let valid = count_of-valid n low high in rw (send_bulk_orders, valid) refl

  send_orders-acked :
      (m k n : ℕ) (attempts : Attempts) (places : ℕ → ℕ × ℕ) (orders : List OrderResponse)
      (log : List Sent)
      → n ≡ m + k
      → ((j : ℕ) → j < m → (attempts j).1 ≡ acked (places j).0 (places j).1)
      → (rs : List Sent) × AreRecords m attempts rs
        × (send_orders codec topic n attempts orders log
            ≡ send_orders codec topic k
                (later m attempts)
                (orders ++ tabulate m (λ j. response_of topic (attempts j).0 (places j)))
                (log ++ rs))
  send_orders-acked zero k n attempts places orders log e h =
      let same : n ≡ k = omega (arith, e) in ([], refl, rw (same, append-nil, append-nil) refl)
  send_orders-acked (suc m) k zero attempts places orders log e h = absurd (omega (arith, e))
  send_orders-acked (suc m) k (suc n) attempts places orders log e h =
      let (r, exists, named) = record_exists codec topic (attempts 0).0 in
      let first = response_of topic (attempts 0).0 (places 0) in
      let (rs, are, rest) =
        send_orders-acked m k n (λ j. attempts (suc j)) (λ j. places (suc j)) (orders ++ first ∷ [])
          (log ++ r ∷ []) (omega (arith, e)) (λ j l. h (suc j) (omega (arith, l))) in
      (
        r ∷ rs,
        rw (exists, are) refl,
        send_orders-more n attempts orders log first (log ++ r ∷ [])
              (send_order-acked (attempts 0) (places 0) r log (h 0 (omega arith)) exists named)
            ∙ (rest
                ∙ (ap
                      (λ o.
                        send_orders codec topic k (later (suc m) attempts) o
                          ((log ++ r ∷ []) ++ rs))
                      (append_assoc orders (first ∷ []) _)
                    ∙ ap (send_orders codec topic k (later (suc m) attempts) _)
                        (append_assoc log (r ∷ []) rs))),
      )

  -- When the broker acknowledges the first `n` sends, a request for that many orders, from 1 to 1000,
  -- answers with all of them in order, each with its id and the place of its record, and has written
  -- their records, one for each order.
  pub send_bulk_orders-sends :
      (n : ℕ) (attempts : Attempts) (places : ℕ → ℕ × ℕ) (log : List Sent)
      → 1 ≤ n
      → n ≤ 1000
      → ((j : ℕ) → j < n → (attempts j).1 ≡ acked (places j).0 (places j).1)
      → (rs : List Sent) × AreRecords n attempts rs
        × (send_bulk_orders codec topic (some (pos n)) attempts log ≡ (
          ok (record {
            total_sent = n;
            orders = tabulate n (λ j. response_of topic (attempts j).0 (places j));
          }),
          log ++ rs,
        ))
  unfolding send_orders
  send_bulk_orders-sends n attempts places log low high h =
      let (rs, are, sent) = send_orders-acked n 0 n attempts places [] log (omega arith) h in
      (rs, are, send_bulk_orders-valid n attempts log low high ∙ (ap to_bulk sent ∙ answer n rs))
    where
      answer :
          (n : ℕ) (rs : List Sent)
          → to_bulk
              (some (tabulate n (λ j. response_of topic (attempts j).0 (places j))), log ++ rs)
            ≡ (
              ok (record {
                total_sent = n;
                orders = tabulate n (λ j. response_of topic (attempts j).0 (places j));
              }),
              log ++ rs,
            )
      answer n rs = rw (length-tabulate n (λ j. response_of topic (attempts j).0 (places j))) refl

  -- When the broker acknowledges the first `m` sends and refuses the next, a request for more than `m`
  -- orders, at most 1000, answers with an error although the records of those `m` orders are in Kafka.
  pub failed_bulk_keeps_orders :
      (m n : ℕ) (attempts : Attempts) (places : ℕ → ℕ × ℕ) (log : List Sent)
      → m < n
      → n ≤ 1000
      → ((j : ℕ) → j < m → (attempts j).1 ≡ acked (places j).0 (places j).1)
      → (attempts m).1 ≡ refused
      → (rs : List Sent) × AreRecords m attempts rs
        × (send_bulk_orders codec topic (some (pos n)) attempts log ≡ (err bulk_failed, log ++ rs))
  failed_bulk_keeps_orders m n attempts places log low high h fails =
      let (rs, are, sent) =
        send_orders-acked m (suc (n - m - 1)) n attempts places [] log (omega (arith, low)) h in
      let (r, exists, _) = record_exists codec topic (attempts m).0 in
      (
        rs,
        are,
        send_bulk_orders-valid n attempts log (omega (arith, low)) high
            ∙ ap to_bulk (
                sent
                ∙ send_orders-stops (n - m - 1) (later m attempts) _ (log ++ rs) (log ++ rs) (
                    ap (λ a. send_order codec topic a (log ++ rs)) (later-first m attempts)
                    ∙ send_order-refused (attempts m) r (log ++ rs) fails exists)),
      )
