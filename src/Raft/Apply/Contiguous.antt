-- ===== src/Raft/Apply/Contiguous.antt =====
-- The commit indices of a bucket have no gaps.
use seven_db.Common.{List}
use seven_db.Common.Comparable.{string_key}
