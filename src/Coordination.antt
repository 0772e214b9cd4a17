-- ===== src/Coordination.antt =====
-- internal/coordination: admission while the durable coordinator is out, recovery from an outage,
-- and the local coordinators.
pub mod Types
pub mod Emergency
pub mod Recovery
pub mod Local
