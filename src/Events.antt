-- ===== src/Events.antt =====
-- src/events/: the messages that measuring points send, and what each does to its metric.
pub mod Message
pub mod Counter
pub mod Gauge
pub mod Timer
pub mod Attribute
pub mod Release
