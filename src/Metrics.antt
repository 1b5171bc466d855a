-- ===== src/Metrics.antt =====
-- src/metrics: the four kinds of metrics.
pub mod Counter
pub mod Gauge
pub mod Timer
pub mod Attribute
pub mod Plain
