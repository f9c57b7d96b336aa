-- ===== src/Dns.antt =====
-- src/internal/dns: the DNS policy and plan.
pub mod Plan
pub mod Agreement
