-- ===== src/Routing.antt =====
-- src/internal/routing: rules, plans and the capture engine.
pub mod Mode
pub mod Match
pub mod Rule
pub mod Builtin
pub mod Plan
pub mod Order
pub mod Fresh
pub mod Build
pub mod Decisions
