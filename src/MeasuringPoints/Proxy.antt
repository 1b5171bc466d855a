-- ===== src/MeasuringPoints/Proxy.antt =====
-- The proxies of include/handystats/measuring_points: objects that keep the name of a metric.
pub mod Counter
pub mod Gauge
pub mod Timer
pub mod Attribute
