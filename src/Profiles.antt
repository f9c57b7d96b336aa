-- ===== src/Profiles.antt =====
-- src/internal/profiles: profiles with their keys and servers, and the file that keeps them.
pub mod State
pub mod Store
pub mod Service
pub mod Entities
pub mod Operations
pub mod Transactions
pub mod Invariant
pub mod Roundtrip
pub mod EntryKept
pub mod EntryMade
pub mod MemoryKept
pub mod Loading
pub mod EachOperation
pub mod Durable
