-- ===== src/Harness.antt =====
-- internal/harness: the deterministic network, scheduler and clock that tests of replicas run on.
pub mod Scheduler
pub mod Network
pub mod Clock
