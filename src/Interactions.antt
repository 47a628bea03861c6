-- ===== src/Interactions.antt =====
-- src/domain/interactions: which services are connected, and by what.
pub mod Endpoints
pub mod PartialConnections
pub mod Connections
pub mod LinkConnections
pub mod Grouped
pub mod Layer7
