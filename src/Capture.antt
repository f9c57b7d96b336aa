-- ===== src/Capture.antt =====
-- src/internal/routing: the traffic capture engine.
pub mod Commands
pub mod Engine
pub mod Probes
pub mod Preflight
pub mod Lifecycle
pub mod Owned
pub mod Safety
pub mod Outcomes
pub mod Refusal
pub mod Clear
pub mod Pids
pub mod Verified
