-- ===== src/Admission.antt =====
-- internal/admission: how much of a client's concurrency a pool state admits, and the limiter that
-- counts requests in flight.
pub mod Policy
pub mod Limiter
