-- ===== src/Saga.antt =====
-- The order system of 09-saga-pattern-order-system: an order, its payment, its stock, and the refund
-- that makes up for missing stock, as services that talk through Kafka.
pub mod Examples
pub mod Events
pub mod OrderService
pub mod PaymentService
pub mod InventoryService
pub mod Steps
pub mod Safety
