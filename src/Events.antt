-- ===== src/Events.antt =====
-- src/events: how domain events reach those who follow them.
pub mod Subscription
pub mod Bus
