-- ===== src/Location.antt =====
-- The location service: services/location-service/src.
pub mod Store
pub mod Nearby
pub mod Handlers
mod Tests
