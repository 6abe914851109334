-- ===== src/MultiService/QueryService/Listing.antt =====
-- What the filtered list of the query service shows.
use fastapi_kafka_guide.Prelude.{String, Option, List}
use fastapi_kafka_guide.Prelude.Dict
use fastapi_kafka_guide.MultiService.QueryService.{View, ReadModel}
use fastapi_kafka_guide.MultiService.QueryService.Search.{select, sort_newest, matches}

module _ {F : Type 0} where
  -- The orders that pass the filters, the newest first.
  abbrev pub found : (String → String) → Option String → Option String → ReadModel F → List (View F)
  found upper status user_id s =
      sort_newest (select (matches upper status user_id) (Dict.values s.orders_read_model))
