-- ===== src/RemotePolicy.antt =====
-- src/internal/remotepolicy: settings from a provider, below those of the user.
pub mod Settings
pub mod Keys
pub mod Document
pub mod Manager
pub mod Precedence
pub mod Assigning
