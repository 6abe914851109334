-- ===== src/Monitoring.antt =====
-- 10-monitoring-and-testing: the producer and the consumer with their counters, the health checker, and
-- the endpoints that report them.
pub mod Producer
pub mod Consumer
pub mod HealthChecker
pub mod Api
pub mod Counters
pub mod History
pub mod Lag
pub mod Metadata
mod Examples
