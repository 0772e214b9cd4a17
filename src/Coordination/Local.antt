-- ===== src/Coordination/Local.antt =====
-- internal/coordination/local: the coordinators of a single replica.
pub mod ExpiryQueue
pub mod Ledger
pub mod Rates
pub mod Decisions
pub mod Admission
pub mod Attempts
pub mod Reconciliation
pub mod Probes
pub mod Circuit
