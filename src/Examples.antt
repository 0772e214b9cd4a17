-- ===== src/Examples.antt =====
-- Runs on concrete inputs, at which the theorems apply.
pub mod Floats
pub mod Breaker
pub mod Pools
pub mod Limits
pub mod Routes
pub mod Leases
pub mod Circuits
pub mod Configuration
pub mod Outage
pub mod Texts
pub mod Responses
