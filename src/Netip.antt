-- ===== src/Netip.antt =====
-- Go's package net/netip, as far as routing uses it.
pub mod Addr
pub mod Parse
pub mod Format
