-- ===== src/Outbox.antt =====
-- The transactional outbox of 12-outbox-pattern/app: orders and events in one database, the relay that
-- moves events to Kafka, and the consumer that drops what it has seen.
pub mod Examples
pub mod Database
pub mod Orders
pub mod Relay
pub mod Consumer
pub mod History
pub mod EndToEnd
