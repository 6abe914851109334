-- ===== src/Serialization.antt =====
-- 06-message-serialization: the serializers of app/serializers.py, the event models of
-- shared/events.py, the consumer of app/consumer.py and the endpoints of app/main.py.
pub mod Serializers
pub mod Events
pub mod Sound
pub mod RoundTrip
pub mod Consumer
pub mod Api
pub mod Queries
pub mod Memory
pub mod Delivery
pub mod Listing
pub mod Constraints
mod Examples
