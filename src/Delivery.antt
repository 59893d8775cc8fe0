-- ===== src/Delivery.antt =====
-- backend/internal/offlinedelivery: the delivery of offline manifests and cards.
pub mod Tracker
