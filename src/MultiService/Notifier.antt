-- ===== src/MultiService/Notifier.antt =====
-- notification-service of 11-multi-service-architecture: notifier.py, consumer.py and main.py.
use fastapi_kafka_guide.Prelude.{
  String, ◌≡◌, refl, sym, ap, ◌∙◌, Option, List, [], ◌∷◌, ◌++◌, append-nil, append_assoc, arith,
  ◌==◌, if◌then◌else◌, get_or, map, inl, inr, Bool-cases,
}
use fastapi_kafka_guide.Saga.Events.{Floats}
use fastapi_kafka_guide.MultiService.Events.{EventType, Event}
use Prim.Native.String.{◌++◌ as ◌+++◌}

pub record Notification : Type 0 where
  pub notification_id : String
  pub order_id : String
  pub user_id : Option String
  pub event_type : EventType
  pub channel : String
  pub message : String
  pub status : String
  pub sent_at : String

-- `send_notification`: the first eight characters of a UUID and the clock come from outside.
unfoldable pub send_notification :
    String
    → String
    → String
    → EventType
    → String
    → Option String
    → String
    → List Notification
    → List Notification
send_notification uuid now order_id event_type message user_id channel sent =
    sent
    ++ record {
      notification_id = uuid;
      order_id = order_id;
      user_id = user_id;
      event_type = event_type;
      channel = channel;
      message = message;
      status = "sent";
      sent_at = now;
    }
      ∷ []

module _ {F : Type 0} where
  -- `build_message`: `shown` of the floats writes an amount as `:,.0f` does.
  unfoldable pub build_message : Floats F → EventType → Event F → String
  build_message float event_type event =
      let order_id = get_or event.order_id "알 수 없음" in
      elim event_type [
        | EventType.order_created ↦
            "주문이 접수되었습니다! (주문번호: " +++ order_id +++ ") " +++ "결제 및 재고 확인 중입니다."
        | EventType.payment_completed ↦
            "결제가 완료되었습니다! (주문번호: "
            +++ order_id
            +++ ") "
            +++ "금액: "
            +++ float.shown (get_or event.amount float.zero_amount)
            +++ "원"
        | EventType.payment_failed ↦
            "결제에 실패했습니다. (주문번호: "
            +++ order_id
            +++ ") "
            +++ "사유: "
            +++ get_or event.reason "알 수 없는 오류"
        | EventType.inventory_reserved ↦
            "상품이 준비되었습니다! (주문번호: " +++ order_id +++ ") " +++ "곧 배송이 시작됩니다."
        | EventType.inventory_failed ↦
            "죄송합니다. 재고가 부족합니다. (주문번호: "
            +++ order_id
            +++ ") "
            +++ "사유: "
            +++ get_or event.reason "재고 부족"
        | _ ↦ "주문 " +++ order_id +++ "에 대한 업데이트가 있습니다."
      ]

  -- The body of the consumer's loop for one message, with the UUID and the clock of its handling.
  unfoldable pub notify :
      Floats F → String × String × Event F → List Notification → List Notification
  notify float (uuid, now, event) sent =
      send_notification uuid now (get_or event.order_id "") event.event_type
        (build_message float event.event_type event) event.user_id "console" sent

  unfoldable pub notify_all :
      Floats F → List (String × String × Event F) → List Notification → List Notification
  notify_all float [] sent = sent
  notify_all float (m ∷ messages) sent = notify_all float messages (notify float m sent)

-- `get_notifications_by_order`
unfoldable pub by_order : String → List Notification → List Notification
by_order order_id [] = []
by_order order_id (n ∷ sent) =
    let rest = by_order order_id sent in if n.order_id == order_id then n ∷ rest else rest

by_order-append :
    (i : String) (xs ys : List Notification)
    → by_order i (xs ++ ys) ≡ by_order i xs ++ by_order i ys
unfolding by_order
by_order-append i [] ys = refl
by_order-append i (n ∷ xs) ys = ground (arith, by_order-append i xs ys)

module _ {F : Type 0} (float : Floats F) where
  -- The messages about an order: a message without an order id is about the order "".
  abbrev pub about : String → List (String × String × Event F) → List (String × String × Event F)
  about i [] = []
  about i ((uuid, now, event) ∷ messages) =
      let rest = about i messages in
      if get_or event.order_id "" == i then (uuid, now, event) ∷ rest else rest

  -- What the user of an event's order is told, and when.
  abbrev pub told : String × String × Event F → Notification
  told (uuid, now, event) = record {
    notification_id = uuid;
    order_id = get_or event.order_id "";
    user_id = event.user_id;
    event_type = event.event_type;
    channel = "console";
    message = build_message float event.event_type event;
    status = "sent";
    sent_at = now;
  }

  by_order-notify :
      (i : String) (m : String × String × Event F) (sent : List Notification)
      → by_order i (notify float m sent) ≡ by_order i sent ++ map told (about i (m ∷ []))
  unfolding by_order notify send_notification
  by_order-notify i (uuid, now, event) sent =
      by_order-append i sent (told (uuid, now, event) ∷ [])
      ∙ elim (Bool-cases (get_or event.order_id "" == i)) [
        | inl here ↦ rw here refl
        | inr elsewhere ↦ rw elsewhere refl
      ]

  map-about :
      (i : String) (m : String × String × Event F) (messages : List (String × String × Event F))
      → map told (about i (m ∷ [])) ++ map told (about i messages)
        ≡ map told (about i (m ∷ messages))
  map-about i (uuid, now, event) messages = elim (Bool-cases (get_or event.order_id "" == i)) [
    | inl here ↦ rw here refl
    | inr elsewhere ↦ rw elsewhere refl
  ]

  -- After any messages, the list that `by-order` shows for an order is the one it showed before them,
  -- followed in their order by one notification for each message about the order and for no other: it
  -- names the order and the user of the event, carries the text that `build_message` gives the event, and
  -- is marked as sent on the console at the time of its handling.
  pub by_order-notify_all :
      (i : String) (messages : List (String × String × Event F)) (sent : List Notification)
      → by_order i (notify_all float messages sent) ≡ by_order i sent ++ map told (about i messages)
  unfolding notify_all
  by_order-notify_all i [] sent = sym (append-nil (by_order i sent))
  by_order-notify_all i (m ∷ messages) sent =
      by_order-notify_all i messages (notify float m sent)
      ∙ ap (λ xs. xs ++ map told (about i messages)) (by_order-notify i m sent)
      ∙ append_assoc (by_order i sent) (map told (about i (m ∷ []))) (map told (about i messages))
      ∙ ap (λ xs. by_order i sent ++ xs) (map-about i m messages)
