-- ===== src/Authority.antt =====
-- The authority service: services/authority-service/src.
pub mod Tiers
pub mod Verify
pub mod Admin
pub mod Login
pub mod Session
pub mod Steps
mod Tests
