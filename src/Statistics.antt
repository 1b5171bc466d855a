-- ===== src/Statistics.antt =====
-- src/statistics.cpp and include/handystats/statistics.hpp.
pub mod Tag
pub mod State
pub mod Window
pub mod Histogram
pub mod Update
pub mod Access
pub mod Quantile
pub mod Interface
