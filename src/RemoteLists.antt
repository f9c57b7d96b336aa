-- ===== src/RemoteLists.antt =====
-- src/internal/remotelists: the limits of remote lists and the parser of their bodies.
pub mod Limits
pub mod Domain
pub mod Parse
pub mod Bounded
