-- ===== src/Placement.antt =====
-- src/ui-layer/service-map/coordinates/placement.ts: where the cards of the service map are placed.
pub mod Groups
pub mod Columns
pub mod Coordinates
