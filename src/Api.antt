-- ===== src/Api.antt =====
-- src/api: the protocol by which the program speaks to its backend.
pub mod Stream
