-- ===== src/Examples.antt =====
-- Tests, and the theorems at concrete inputs.
mod Addresses
mod ChildLifecycle
mod Plans
mod Capturing
mod Choices
mod Logins
mod Attempts
mod Policies
mod Stored
mod Refused
mod Listed
mod Connections
