-- ===== src/Supervisor.antt =====
-- src/internal/supervisor: the Xray child state machine.
pub mod States
pub mod Policy
pub mod Record
pub mod Regions
pub mod Recovery
pub mod Interleaving
pub mod Invariant
pub mod Storm
pub mod Backoff
pub mod Trust
pub mod Races
pub mod Sequential
pub mod Paths
