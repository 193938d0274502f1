-- ===== src/RaftWal/Prune.antt =====
-- internal/raftwal/writer.go, PruneThrough: the segments before the active one whose indices are all
-- below a bound are deleted. Appends do not come between its steps.
pub mod Keeps
pub mod Deletes
use seven_db.Common.{
  ℕ, zero, suc, Bool, true, false, Option, none, some, List, [], ◌∷◌, ◌++◌, if◌then◌else◌, nat_beq,
  ltb,
}
use seven_db.Common.Comparable.{nat_key}
use seven_db.Common.GoMap.{GoMap, remove}
use seven_db.Common.Lists.{length}
use seven_db.RaftWal.Frame.{Envelope, EnvelopeProto, WalError, max_index_in_segment}
use seven_db.RaftWal.Writer.{Writer}
use seven_db.RaftWal.Replay.{sorted_segments}

pub data PruneError : Type 0 where
  writer_closed : PruneError
  scan_failed : WalError → PruneError

module _ {Fits : Envelope → Type 0} (proto : EnvelopeProto Fits) where
  -- the segments that the loop over the files deletes, and the error that ends it
  unfoldable pub doomed : ℕ → ℕ → GoMap ℕ (List ℕ) → List ℕ × Option PruneError
  doomed active bound [] = ([], none)
  doomed active bound ((n, bytes) ∷ files) =
      let rest = doomed active bound files in
      let found = max_index_in_segment proto bytes in
      if nat_beq n active then rest else elim found.1 [
        | some err ↦ ([], some (scan_failed err))
        | none ↦ if ltb found.0 bound then (n ∷ rest.0, rest.1) else rest
      ]

-- deleteSegmentFiles
unfoldable pub delete_segment_files : ℕ → Writer → Writer
delete_segment_files n w = record {
  config = w.config;
  disk = remove w.disk n;
  sidecars = remove w.sidecars n;
  seg_idx = w.seg_idx;
  buf = w.buf;
  is_closed = w.is_closed;
  last_index = w.last_index;
  entries = w.entries;
  entries_since_flush = w.entries_since_flush;
  append_count = w.append_count;
}

unfoldable pub delete_segments : List ℕ → Writer → Writer
unfolding delete_segment_files
delete_segments [] w = w
delete_segments (n ∷ ns) w = delete_segments ns (delete_segment_files n w)

module _ {Fits : Envelope → Type 0} (proto : EnvelopeProto Fits) where
  -- PruneThrough: the number of segments removed, the error, and the writer
  unfoldable pub prune_through : ℕ → Writer → (ℕ × Option PruneError) × Writer
  unfolding doomed delete_segments sorted_segments
  prune_through bound w =
      let found = doomed proto w.seg_idx bound (sorted_segments w.disk) in
      if nat_beq bound 0
      then ((0, none), w)
      else if w.is_closed
      then ((0, some writer_closed), w)
      else ((length found.0, found.1), delete_segments found.0 w)
