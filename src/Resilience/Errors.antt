-- ===== src/Resilience/Errors.antt =====
-- The exceptions that 13-resilience-patterns tells apart.

-- `httpx.HTTPError` and its subclasses, `CircuitBreakerOpenError`, and any other exception.
pub data Failure : Type 0 where
  http_error circuit_open unexpected : Failure
