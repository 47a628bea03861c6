-- ===== src/Helpers.antt =====
-- src/domain/helpers
pub mod Workload
pub mod Verdict
pub mod Time
