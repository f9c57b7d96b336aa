-- ===== src/Keys.antt =====
-- src/internal/keys.
pub mod State
pub mod Lifecycle
pub mod Rollback
pub mod Rotation
