-- ===== src/Servers.antt =====
-- src/internal/servers.
pub mod Select
pub mod Rotation
