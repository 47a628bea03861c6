-- ===== src/ServiceMap.antt =====
-- src/domain/service-map: the cards of the service map.
pub mod Card
