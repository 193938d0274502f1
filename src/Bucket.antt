-- ===== src/Bucket.antt =====
-- internal/bucket: the log of one file for each bucket, and the loop that applies its entries.
pub mod Frame
pub mod FileLog
pub mod Runtime
mod Samples
