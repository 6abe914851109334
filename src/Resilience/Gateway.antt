-- ===== src/Resilience/Gateway.antt =====
-- gateway_main.py: the mock payment gateway and its modes.
use fastapi_kafka_guide.Prelude.{
  ℕ, ◌^◌, String, ◌≡◌, Bool, true, false, ◌&&◌, ◌||◌, Option, none, arith, ltb, if◌then◌else◌, List,
  [], ◌∷◌, ◌++◌, get_or, ok, err, Exec, ◌==◌,
}
use fastapi_kafka_guide.Prelude.Int.{ℤ, pos}

-- The module variable `state`.
pub record GatewayState : Type 0 where
  pub mode : String
  pub latency_ms : ℤ

-- `ModeUpdate`
pub record ModeUpdate : Type 0 where
  pub mode : String
  pub latency_ms : Option ℤ

abbrev pub is_mode : String → Bool
is_mode m = m == "HEALTHY" || m == "SLOW" || m == "DEAD" || m == "FLAKY"

-- `POST /admin/mode`: an error is the status of the `HTTPException`
unfoldable pub set_mode : ModeUpdate → Exec GatewayState ℕ (Unit {0})
set_mode update s =
    if is_mode update.mode
    then (ok tt, record { mode = update.mode; latency_ms = get_or update.latency_ms s.latency_ms })
    else (err 400, s)

-- `ChargeRequest`; an amount is a float, which is only passed on.
pub record ChargeRequest (F : Type 0) : Type 0 where
  pub order_id : String
  pub amount : F

-- The answer with status APPROVED, with the number that `random.randint` gives its transaction and the
-- milliseconds that were slept for it.
pub record Approval (F : Type 0) : Type 0 where
  pub order_id : String
  pub amount : F
  pub transaction : ℕ
  pub slept : List ℤ

-- An approval, or the status of the `HTTPException`.
pub data Charged (F : Type 0) : Type 0 where
  approved : Approval F → Charged F
  refused : ℕ → Charged F

-- `POST /charge`: `draw` is the numerator of `random.random()` over 2 ^ 53.
unfoldable pub gateway_charge : {F : Type 0} → ℕ → ℕ → ChargeRequest F → GatewayState → Charged F
gateway_charge draw transaction req s =
    if s.mode == "DEAD"
    then refused 500
    else if s.mode == "FLAKY" && ltb draw (2 ^ 52)
    then refused 500
    else approved (record {
      order_id = req.order_id;
      amount = req.amount;
      transaction = transaction;
      slept = (if s.mode == "SLOW" then pos 5000 ∷ [] else []) ++ s.latency_ms ∷ [];
    })

-- If the mode is one of the four, it is so after any update; a rejected update answers 400 and
-- changes nothing, an accepted one sets its mode, and an update that names no latency keeps the
-- latency.
pub set_mode_lem :
    (update : ModeUpdate) (s : GatewayState)
    → (is_mode s.mode ≡ true → is_mode (set_mode update s).1.mode ≡ true)
      × (is_mode update.mode ≡ false → set_mode update s ≡ (err 400, s))
      × (is_mode update.mode ≡ true → (set_mode update s).1.mode ≡ update.mode)
      × (update.latency_ms ≡ none → (set_mode update s).1.latency_ms ≡ s.latency_ms)
unfolding set_mode
set_mode_lem update s = (λ h. ground arith, λ h. ground arith, λ h. ground arith, λ h. ground arith)
