-- ===== src/Serialization/Queries.antt =====
-- app/main.py: the endpoints that show the consumed events and the health.
use fastapi_kafka_guide.Prelude.{
  ℕ, String, Bool, ◌&&◌, Option, none, some, List, [], ◌∷◌, leb, if◌then◌else◌, length, ◌==◌,
}
use mathlib.Core.List.{reverse}
use fastapi_kafka_guide.Prelude.Windows.{keep_last}
use fastapi_kafka_guide.Serialization.Consumer.{EventRecord}

pub record EventsPage (F : Type 0) : Type 0 where
  pub total_count : ℕ
  pub returned_count : ℕ
  pub filter_topic : Option String
  pub events : List (EventRecord F)

module _ {F : Type 0} where
  unfoldable pub with_topic : String → List (EventRecord F) → List (EventRecord F)
  with_topic t [] = []
  with_topic t (e ∷ es) = let rest = with_topic t es in if e.topic == t then e ∷ rest else rest

  -- `if topic:`, which an empty text fails.
  abbrev pub filtered : Option String → List (EventRecord F) → List (EventRecord F)
  filtered none events = events
  filtered (some t) events = if t == "" then events else with_topic t events

  -- `GET /events`; `none` is the answer 422 to a limit outside 1 to 500.
  unfoldable pub get_events : Option String → ℕ → List (EventRecord F) → Option (EventsPage F)
  get_events topic limit consumed_events =
      let events = filtered topic consumed_events in
      let recent = reverse (keep_last limit events) in
      if leb 1 limit && leb limit 500
      then some (record {
        total_count = length events;
        returned_count = length recent;
        filter_topic = topic;
        events = recent;
      })
      else none

-- `GET /health`
pub record Health : Type 0 where
  pub status : String
  pub producer_ready : Bool
  pub consumed_events_count : ℕ

unfoldable pub health_check : {F : Type 0} → Bool → List (EventRecord F) → Health
health_check producer consumed_events = record {
  status = "healthy";
  producer_ready = producer;
  consumed_events_count = length consumed_events;
}
