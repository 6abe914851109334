-- ===== src/MultiService/Gateway.antt =====
-- gateway/app/main.py of 11-multi-service-architecture: the proxy and the aggregated health check. The
-- calls of httpx are parameters, by how they end.
use fastapi_kafka_guide.Prelude.{
  ℕ, String, ◌≡◌, ◌↔◌, refl, sym, ap, ◌∙◌, inl, inr, Bool, true, false, ◌&&◌, Option, none, some,
  List, [], ◌∷◌, arith, eqb, ◌==◌, eq_iff, if◌then◌else◌, Bool-cases, All,
}
use fastapi_kafka_guide.Prelude.Dict
use fastapi_kafka_guide.Prelude.Dict.{Dict}
use Prim.Native.String.{◌++◌ as ◌+++◌}

-- How a request of httpx ends: a response, with its body if that is JSON, or an exception.
pub data Outcome (B : Type 0) : Type 0 where
  response : ℕ → Option B → Outcome B
  connect_error timeout : Outcome B
  other_error : String → Outcome B

-- The request that the proxy sends.
pub record Forwarded (B : Type 0) : Type 0 where
  pub method : String
  pub url : String
  pub body : Option B
  pub params : Option (Dict String)

-- A `JSONResponse`, or the status of an `HTTPException`.
pub data Reply (B : Type 0) : Type 0 where
  json_response : ℕ → B → Reply B
  http_exception : ℕ → Reply B

-- What becomes of the outcome: a body that is not JSON raises, as any other error does.
unfoldable pub to_reply : {B : Type 0} → Outcome B → Reply B
to_reply (response status_code (some body)) = json_response status_code body
to_reply (response status_code none) = http_exception 502
to_reply connect_error = http_exception 503
to_reply timeout = http_exception 504
to_reply (other_error e) = http_exception 502

unfoldable pub proxy_request :
    {B : Type 0}
    → (Forwarded B → Outcome B)
    → String
    → String
    → String
    → Option B
    → Option (Dict String)
    → Reply B
unfolding to_reply
proxy_request send method service_url path body params =
    to_reply
      (send (record { method = method; url = service_url +++ path; body = body; params = params }))

-- `if status`, `if user_id`: a filter that is missing or empty is not sent.
unfoldable pub with_param : String → Option String → Dict String → Dict String
with_param key none params = params
with_param key (some v) params = if v == "" then params else Dict.put params key v

-- `query_orders`
unfoldable pub query_orders :
    {B : Type 0} → (Forwarded B → Outcome B) → String → Option String → Option String → Reply B
unfolding with_param
query_orders send query_service_url status user_id =
    proxy_request send "GET" query_service_url "/orders" none
      (some (with_param "user_id" user_id (with_param "status" status [])))

-- An entry of `results`.
pub data Probe (B : Type 0) : Type 0 where
  healthy : B → Probe B
  unhealthy_status : ℕ → Probe B
  unhealthy_error : Probe B

-- `check_service`, by how its request ends
unfoldable pub check_service : {B : Type 0} → Outcome B → Probe B
check_service (response status_code body) =
    if eqb status_code 200
    then elim body [ some b ↦ healthy b | none ↦ unhealthy_error ]
    else unhealthy_status status_code
check_service connect_error = unhealthy_error
check_service timeout = unhealthy_error
check_service (other_error e) = unhealthy_error

abbrev pub is_healthy : {B : Type 0} → Probe B → Bool
is_healthy (healthy b) = true
is_healthy _ = false

abbrev pub all_healthy : {B : Type 0} → Dict (Probe B) → Bool
all_healthy [] = true
all_healthy ((name, p) ∷ results) = is_healthy p && all_healthy results

and_twice : (a b : Bool) → (a && b) ≡ (a && (a && b))
and_twice true b = refl
and_twice false b = refl

and_iff : (a b : Bool) → ((a && b) ≡ true) ↔ ((a ≡ true) × (b ≡ true))
and_iff true b = (λ e. (refl, e), λ e. e.1)
and_iff false b = (λ e. cc, λ e. cc)

module _ {B : Type 0} (get_health : String → Outcome B) where
  -- `results` once the services have answered, in the order in which they do.
  unfoldable pub gather : List String → Dict (Probe B) → Dict (Probe B)
  unfolding check_service
  gather [] results = results
  gather (name ∷ names) results =
      gather names (Dict.put results name (check_service (get_health name)))

  -- `aggregated_health`: whether the status is "healthy" rather than "degraded", and the results.
  unfoldable pub aggregated_health : List String → Bool × Dict (Probe B)
  aggregated_health answered = let results = gather answered [] in (all_healthy results, results)

  -- Each entry is what its service answered.
  abbrev pub IsAnswered : Dict (Probe B) → Type 0
  IsAnswered = All (λ e. e.1 ≡ check_service (get_health e.0))

  put-IsAnswered :
      (results : Dict (Probe B)) (name : String)
      → IsAnswered results
      → IsAnswered (Dict.put results name (check_service (get_health name)))
  unfolding Dict.put
  put-IsAnswered [] name h = (refl, tt)
  put-IsAnswered ((n, p) ∷ results) name h = elim (Bool-cases (n == name)) [
    | inl same ↦
        rw same (ap (λ x. check_service (get_health x)) (sym ((eq_iff n name).0 same)), h.1)
    | inr other ↦ rw other (h.0, put-IsAnswered results name h.1)
  ]

  all_healthy-put :
      (results : Dict (Probe B)) (name : String)
      → IsAnswered results
      → all_healthy (Dict.put results name (check_service (get_health name)))
        ≡ (is_healthy (check_service (get_health name)) && all_healthy results)
  unfolding Dict.put
  all_healthy-put [] name h = refl
  all_healthy-put ((n, p) ∷ results) name h = elim (Bool-cases (n == name)) [
    | inl same ↦
        let alike : is_healthy p ≡ is_healthy (check_service (get_health name)) =
          ap is_healthy (h.0 ∙ ap (λ x. check_service (get_health x)) ((eq_iff n name).0 same)) in
        rw (same, alike)
          (and_twice (is_healthy (check_service (get_health name))) (all_healthy results))
    | inr other ↦ rw other (ground (arith, all_healthy-put results name h.1))
  ]

  gather-all_healthy :
      (names : List String) (results : Dict (Probe B))
      → IsAnswered results
      → (all_healthy (gather names results) ≡ true) ↔ (
          All (λ n. is_healthy (check_service (get_health n)) ≡ true) names
          × (all_healthy results ≡ true))
  unfolding gather
  gather-all_healthy [] results h = (λ e. (tt, e), λ e. e.1)
  gather-all_healthy (name ∷ names) results h =
      let results' = Dict.put results name (check_service (get_health name)) in
      let rest = gather-all_healthy names results' (put-IsAnswered results name h) in
      let added = all_healthy-put results name h in
      (
        λ e.
            let (later, now) = rest.0 e in
            let (first, before) = (and_iff _ _).0 (sym added ∙ now) in ((first, later), before),
        λ e. rest.1 (e.0.1, added ∙ (and_iff _ _).1 (e.0.0, e.1)),
      )

  -- The gateway reports "healthy" exactly if every service answered with status 200 and a JSON body, in
  -- whatever order they answered.
  pub aggregated_health_iff :
      (answered : List String)
      → ((aggregated_health answered).0 ≡ true)
        ↔ All (λ n. is_healthy (check_service (get_health n)) ≡ true) answered
  unfolding aggregated_health
  aggregated_health_iff answered =
      let both = gather-all_healthy answered [] tt in (λ e. (both.0 e).0, λ h. both.1 (h, refl))
