-- ===== src/Config.antt =====
-- src/config.cpp and src/config: the patterns of names and the options.
pub mod Pattern
pub mod Options
pub mod Json
pub mod File
