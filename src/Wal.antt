-- ===== src/Wal.antt =====
-- internal/wal: the write-ahead log of commands.
pub mod Replay
mod Samples
pub mod Segment
pub mod Unified
