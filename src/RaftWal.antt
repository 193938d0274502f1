-- ===== src/RaftWal.antt =====
-- internal/raftwal: the write-ahead log of raft envelopes.
pub mod Frame
mod Tests
pub mod Writer
pub mod Append
pub mod Content
pub mod Runs
pub mod Open
pub mod Calls
pub mod Strict
pub mod Replay
pub mod Sorted
pub mod Durable
pub mod Restarts
pub mod Tail
pub mod Prune
mod Samples
