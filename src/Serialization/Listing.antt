-- ===== src/Serialization/Listing.antt =====
-- What `GET /events` shows.
use fastapi_kafka_guide.Prelude.{
  ℕ, ◌-◌, ◌≤◌, ◌<◌, String, ◌≡◌, refl, ◌∙◌, ◌⊎◌, inl, inr, false, ◌&&◌, Option, none, some, List,
  [], ◌∷◌, arith, leb, Bool-cases, length, length-drop, All, le→leb, ◌==◌, eq_iff,
}
use fastapi_kafka_guide.Prelude.Windows.{length-reverse, All-reverse, All-drop, keep_last}
use fastapi_kafka_guide.Python.Json.Values.{same}
use fastapi_kafka_guide.Serialization.Consumer.{EventRecord}
use mathlib.Core.List.{reverse, reverse-reverse}
use Prim.Native.Nat.{min}
use fastapi_kafka_guide.Serialization.Queries.{EventsPage, with_topic, get_events}

module _ {F : Type 0} where
  -- The event came from this topic.
  abbrev pub HasTopic : String → EventRecord F → Type 0
  HasTopic t e = e.topic ≡ t

  with_topic-HasTopic :
      (t : String) (events : List (EventRecord F)) → All (HasTopic t) (with_topic t events)
  unfolding with_topic
  with_topic-HasTopic t [] = tt
  with_topic-HasTopic t (e ∷ events) = elim (Bool-cases (e.topic == t)) [
    | inl same ↦ rw same ((eq_iff e.topic t).0 same, with_topic-HasTopic t events)
    | inr other ↦ rw other (with_topic-HasTopic t events)
  ]

  -- For a limit from 1 to 500 and a topic that is not the empty text, `GET /events` answers with events
  -- of this topic only, as many as the limit or all of them if there are fewer, and with the newest of
  -- them in reversed order.
  pub get_events-pages :
      (t : String) (limit : ℕ) (events : List (EventRecord F))
      → 1 ≤ limit
      → limit ≤ 500
      → (t == "") ≡ false
      → (page : EventsPage F) × (get_events (some t) limit events ≡ some page)
        × All (HasTopic t) page.events
        × (page.returned_count ≡ min limit page.total_count)
        × (reverse page.events ≡ keep_last limit (with_topic t events))
  unfolding get_events
  get_events-pages t limit events low high named =
      let kept = with_topic t events in
      (
        record {
          total_count = length kept;
          returned_count = length (reverse (keep_last limit kept));
          filter_topic = some t;
          events = reverse (keep_last limit kept);
        },
        rw (le→leb 1 limit low, le→leb limit 500 high, named) refl,
        All-reverse (HasTopic t) _
            (All-drop (HasTopic t) (length kept - limit) kept (with_topic-HasTopic t events)),
        length-reverse (keep_last limit kept)
            ∙ (length-drop (length kept - limit) kept ∙ omega arith),
        reverse-reverse (keep_last limit kept),
      )

  -- Any other limit is answered with 422.
  get_events-refuses :
      (topic : Option String) (limit : ℕ) (events : List (EventRecord F))
      → (limit ≡ 0) ⊎ (500 < limit)
      → get_events topic limit events ≡ none
  unfolding get_events
  get_events-refuses topic limit events (inl z) = rw z refl
  get_events-refuses topic limit events (inr over) =
      let out : (leb 1 limit && leb limit 500) ≡ false = ground arith in rw out refl
