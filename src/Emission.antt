-- ===== src/Emission.antt =====
-- internal/emission: durable emissions to subscribers, from the outbox to the acknowledgment.
pub mod Types
pub mod Metrics
pub mod Outbox
pub mod Manager
pub mod Rebind
pub mod Notifier
pub mod Raft
pub mod Applier
pub mod Commands
pub mod Shard
pub mod Samples
