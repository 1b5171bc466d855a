-- ===== src/Chrono.antt =====
-- include/handystats/chrono.hpp and src/chrono.cpp: units, durations and time points.
pub mod Duration
pub mod TimePoint
pub mod Clock
