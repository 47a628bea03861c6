-- ===== src/Store.antt =====
-- src/store/stores: the stores that hold what the program shows.
pub mod Links
pub mod Flows
pub mod Services
pub mod Namespaces
pub mod Controls
pub mod Frames
