-- ===== src/Connection.antt =====
-- src/internal/connection: from a profile to a running xray.
pub mod Candidates
pub mod Order
pub mod Pushes
pub mod Complete
pub mod Errors
pub mod Files
pub mod Generation
pub mod Service
pub mod Control
pub mod Status
pub mod Restore
pub mod Connected
pub mod Ends
pub mod Reported
