-- ===== src/Auth.antt =====
-- src/internal/auth: the sessions of the administrator.
pub mod Sessions
pub mod Bound
pub mod Lifetime
