-- ===== src/Utils.antt =====
-- src/utils
pub mod Combinations
pub mod Retries
pub mod Emitter
pub mod Options
pub mod Results
pub mod Timer
pub mod Ticker
