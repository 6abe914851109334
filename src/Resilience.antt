-- ===== src/Resilience.antt =====
-- The resilience patterns of 13-resilience-patterns/app: a circuit breaker, a retry loop with
-- exponential backoff, the payment client that puts one round the other, and the mock gateway.
pub mod Examples
pub mod Errors
pub mod CircuitBreaker
pub mod Retry
pub mod GatewayClient
pub mod Gateway
