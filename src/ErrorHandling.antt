-- ===== src/ErrorHandling.antt =====
-- 07-error-handling-and-retry: payments that are retried and, when that does not help, set aside in a
-- dead letter queue.
pub mod Retry
pub mod Payments
pub mod Accounting
pub mod Examples
