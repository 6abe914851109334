-- ===== src/FirstServices.antt =====
-- The services of 02-first-producer, 03-first-consumer and 04-topics-and-partitions.
pub mod Texts
pub mod Arrival
pub mod Partitions
pub mod Topics
pub mod Examples
