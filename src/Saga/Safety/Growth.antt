-- ===== src/Saga/Safety/Growth.antt =====
-- The invariant of Safety under growth: new rows, new records, and orders written with their total.
use fastapi_kafka_guide.Prelude.{
  some_injective, String, ◌≡◌, refl, sym, ap, ◌∙◌, inl, inr, Bool, true, false, some, List, [], ◌∷◌,
  ◌++◌, Bool-cases, All, All-append, ◌==◌, eq_iff,
}
use fastapi_kafka_guide.Prelude.Dict
use fastapi_kafka_guide.Messaging.{SendOutcome, publish, acked, refused, unacked}
use fastapi_kafka_guide.Saga.Events.{
  EventType, Event, Record, OrderStatus, Order, System, payment_completed, inventory_reserved,
  inventory_failed, refund_requested, refund_completed, refund_failed, created, payment_processing,
  inventory_processing, completed, compensating, compensated, compensation_failed,
}
use fastapi_kafka_guide.Saga.Safety.{IsJustified, Backs, IsCaused, IsFiled, IsSound, Grows}

module _ {F : Type 0} where
  pub Grows-IsJustified :
      (s t : System F)
      → Grows s t
      → (st : OrderStatus) (i : String) (a : F) → IsJustified s st i a
      → IsJustified t st i a
  Grows-IsJustified s t g inventory_processing i a h = g.paid i a h
  Grows-IsJustified s t g completed i a h = (g.paid i a h.0, g.stocked i _ h.1)
  Grows-IsJustified s t g compensating i a h = (g.paid i a h.0, g.stocked i _ h.1)
  Grows-IsJustified s t g compensated i a h = (g.paid i a h.0, g.refunded i a h.1)
  Grows-IsJustified s t g compensation_failed i a h = g.paid i a h
  Grows-IsJustified s t g created i a h = tt
  Grows-IsJustified s t g payment_processing i a h = tt
  Grows-IsJustified s t g OrderStatus.payment_failed i a h = tt
  Grows-IsJustified s t g OrderStatus.failed i a h = tt

  pub Grows-Backs :
      (s t : System F)
      → Grows s t
      → (k : EventType) (e : Event F) (i : String) (a : F) → Backs s k e i a
      → Backs t k e i a
  Grows-Backs s t g EventType.order_created e i a h = h
  Grows-Backs s t g payment_completed e i a h = (h.0, g.paid i a h.1)
  Grows-Backs s t g EventType.payment_failed e i a h = tt
  Grows-Backs s t g inventory_reserved e i a h = (g.paid i a h.0, g.stocked i _ h.1)
  Grows-Backs s t g inventory_failed e i a h = (g.paid i a h.0, g.stocked i _ h.1)
  Grows-Backs s t g refund_requested e i a h = (h.0, g.paid i a h.1)
  Grows-Backs s t g refund_completed e i a h = (g.paid i a h.0, g.refunded i a h.1)
  Grows-Backs s t g refund_failed e i a h = g.paid i a h
  Grows-Backs s t g (EventType.other x) e i a h = tt

  pub Grows-IsCaused : (s t : System F) → Grows s t → (e : Event F) → IsCaused s e → IsCaused t e
  Grows-IsCaused s t g e (i, a, n, p, b) =
      (i, a, n, g.placed i a p, Grows-Backs s t g e.event_type e i a b)

  pub events_grow :
      (s t : System F)
      → Grows s t
      → (log : List (Record F)) → All (λ r. IsCaused s r.value) log
      → All (λ r. IsCaused t r.value) log
  events_grow s t g [] h = tt
  events_grow s t g (r ∷ log) h = (Grows-IsCaused s t g r.value h.0, events_grow s t g log h.1)

  -- New rows, with the same orders and the same records.
  pub grown-IsSound :
      (s t : System F)
      → Grows s t
      → t.orders_db ≡ s.orders_db
      → t.log ≡ s.log
      → IsSound s
      → IsSound t
  grown-IsSound s t g same_orders same_log h = record {
    events = rw same_log (events_grow s t g s.log h.events);
    filed = rw same_log h.filed;
    orders = λ i o e.
        Grows-IsJustified s t g o.status i o.total_price
          (h.orders i o (ap (λ db. Dict.get db i) (sym same_orders) ∙ e));
  }

  -- A record more, whose event has its cause.
  pub append-IsSound :
      (s : System F) (r : Record F)
      → IsFiled r.topic r.value.event_type
      → IsCaused s r.value
      → IsSound s
      → IsSound (record s { log = s.log ++ r ∷ [] })
  append-IsSound s r f c h =
      let t : System F = record s { log = s.log ++ r ∷ [] } in
      let g : Grows s t = record {
        placed = λ i a p. p;
        paid = λ i a p. p;
        refunded = λ i a p. p;
        stocked = λ i st p. p;
      } in
      record {
        events =
            events_grow s t g (s.log ++ r ∷ [])
              (All-append (λ (x : Record F). IsCaused s x.value) s.log (r ∷ []) h.events (c, tt));
        filed =
            All-append (λ (x : Record F). IsFiled x.topic x.value.event_type) s.log (r ∷ []) h.filed
              (f, tt);
        orders = λ i o e. Grows-IsJustified s t g o.status i o.total_price (h.orders i o e);
      }

  -- A send, however it ends.
  pub publish-IsSound :
      (s : System F) (started : Bool) (outcome : SendOutcome) (r : Record F)
      → IsFiled r.topic r.value.event_type
      → IsCaused s r.value
      → IsSound s
      → IsSound (record s { log = (publish started outcome r s.log).1 })
  unfolding publish
  publish-IsSound s false outcome r f c h = record {
    events = h.events;
    filed = h.filed;
    orders = h.orders;
  }
  publish-IsSound s true acked r f c h = append-IsSound s r f c h
  publish-IsSound s true refused r f c h = record {
    events = h.events;
    filed = h.filed;
    orders = h.orders;
  }
  publish-IsSound s true unacked r f c h = append-IsSound s r f c h

  -- An order written over one with the same total, or under a new id.
  pub put_order-Grows :
      (s : System F) (i : String) (o : Order F)
      → ((o' : Order F) → Dict.get s.orders_db i ≡ some o' → o.total_price ≡ o'.total_price)
      → Grows s (record s { orders_db = Dict.put s.orders_db i o })
  put_order-Grows s i o same = record {
    placed = λ j a p. elim (Bool-cases (i == j)) [
      | inl e ↦ (
        o,
        Dict.get-put s.orders_db i j o ∙ rw e refl,
        same p.0 (ap (λ k. Dict.get s.orders_db k) ((eq_iff i j).0 e) ∙ p.1) ∙ p.2,
      )
      | inr e ↦ (p.0, Dict.get-put s.orders_db i j o ∙ rw e (p.1), p.2)
    ];
    paid = λ j a p. p;
    refunded = λ j a p. p;
    stocked = λ j st p. p;
  }

  pub put_order-IsSound :
      (s : System F) (i : String) (o : Order F)
      → ((o' : Order F) → Dict.get s.orders_db i ≡ some o' → o.total_price ≡ o'.total_price)
      → IsJustified s o.status i o.total_price
      → IsSound s
      → IsSound (record s { orders_db = Dict.put s.orders_db i o })
  put_order-IsSound s i o same justified h =
      let t : System F = record s { orders_db = Dict.put s.orders_db i o } in
      let g : Grows s t = put_order-Grows s i o same in
      record {
        events = events_grow s t g s.log h.events;
        filed = h.filed;
        orders = λ j o' e.
            Grows-IsJustified s t g o'.status j o'.total_price (elim (Bool-cases (i == j)) [
              | inl eq ↦
                  let same_id : i ≡ j = (eq_iff i j).0 eq in
                  let same_order : o ≡ o' =
                    some_injective o o' (sym (Dict.get-put s.orders_db i j o ∙ rw eq refl) ∙ e) in
                  rw (← same_order, ← same_id) justified
              | inr ne ↦ h.orders j o' (sym (Dict.get-put s.orders_db i j o ∙ rw ne refl) ∙ e)
            ]);
      }
