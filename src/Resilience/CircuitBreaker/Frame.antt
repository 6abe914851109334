-- ===== src/Resilience/CircuitBreaker/Frame.antt =====
-- A call touches what lies outside the breaker only by running the awaited code, at most once.
use fastapi_kafka_guide.Prelude.{◌≡◌, refl, sym, subst, arith, Result, ok, err, Exec}
use fastapi_kafka_guide.Resilience.Errors.{Failure}
use fastapi_kafka_guide.Resilience.CircuitBreaker.{before_call, World, call, settle, proceed}

settle-outside :
    {X A : Type 0} (r : Result Failure A) (w : World X) → (settle (r, w)).1.outside ≡ w.outside
settle-outside (ok a) w = refl
settle-outside (err e) w = ground arith

module _ {X A : Type 0} (func : Exec (World X) Failure A) (P : X → Type 0) (w : World X)
    (now : P w.outside)
    (later : (w' : World X) → w'.outside ≡ w.outside → P (func w').1.outside) where
  proceed-outside :
      (passed : Result Failure (Unit {0})) (w' : World X)
      → w'.outside ≡ w.outside
      → P (proceed passed func w').1.outside
  proceed-outside (ok _) w' same = rw (settle-outside (func w').0 (func w').1) (later w' same)
  proceed-outside (err e) w' same = subst P (sym same) now

  pub call-outside : P (call func w).1.outside
  unfolding call
  call-outside =
      let (passed, b) = before_call w.clock w.breaker in
      proceed-outside passed (record w { breaker = b }) refl
