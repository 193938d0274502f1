-- ===== src/Raft.antt =====
-- internal/raft/types.go: the node of a shard, as far as it applies what the raft library commits.
pub mod Validator
pub mod Types
pub mod Apply
pub mod Shadow
mod Tests
