-- ===== src/MultiService.antt =====
-- The services of 11-multi-service-architecture: orders, payments, stock, notifications, and the read
-- model that follows the events of them all.
pub mod Examples
pub mod Events
pub mod OrderService
pub mod PaymentService
pub mod InventoryService
pub mod Notifier
pub mod QueryService
pub mod Gateway
