-- ===== src/RaftWal/Append.antt =====
-- internal/raftwal/writer.go: the two kinds of append, with what follows a frame that is written, and
-- the calls that end a writer's work.

use seven_db.Common.{
  ℕ, suc, ◌+◌, ◌%◌, ◌^◌, ◌&&◌, Bool, true, false, not, List, if◌then◌else◌, nat_beq, ltb, leb,
}
use seven_db.Common.Lists.{length}
use seven_db.RaftWal.Frame.{frame}
use seven_db.RaftWal.Writer.{
  Writer, write, flush_buf, current_offset, write_sidecar, rotate, rotate_for_conflict, note_entry,
  set_last_index, count_append,
}

unfoldable pub is_sidecar_due : Writer → Bool
is_sidecar_due w = leb w.config.sidecar_flush_every w.entries_since_flush

unfoldable pub sidecar_if_due : Writer → Writer
unfolding is_sidecar_due
sidecar_if_due w = if is_sidecar_due w then write_sidecar w else w

-- the flush of strict mode, or the sidecar; and the sidecar again
unfoldable pub settle : Writer → Writer
unfolding sidecar_if_due
settle w = sidecar_if_due (if w.config.strict_sync then flush_buf w else sidecar_if_due w)

-- the rotation by size, after a frame that ends at `end`
unfoldable pub rotate_full : ℕ → Writer → Writer
rotate_full end w =
    if ltb 0 w.config.segment_max_bytes && leb w.config.segment_max_bytes end then rotate w else w

-- appendCount % forceRotateEvery
unfoldable pub rotate_counted : Writer → Writer
rotate_counted w = if nat_beq (w.append_count % w.config.force_rotate_every) 0 then rotate w else w

-- the rotation that tests force
unfoldable pub rotate_forced : Writer → Writer
unfolding rotate_counted
rotate_forced w = if ltb 0 w.config.force_rotate_every then rotate_counted (count_append w) else w

-- what both appends do with the payload
unfoldable pub append_frame : ℕ → List ℕ → Writer → Writer
unfolding settle rotate_full rotate_forced
append_frame index b w =
    let end = current_offset w + (8 + length b) in
    rotate_forced (
      rotate_full end
        (settle (note_entry index (current_offset w) (8 + length b) (write (frame b) w))))

-- the check of the sequence of indices, and lastIndex
unfoldable pub follow : ℕ → Writer → Writer
unfolding set_last_index rotate_for_conflict
follow raft_index w = set_last_index raft_index (
    if not (nat_beq w.last_index 0) && not (nat_beq raft_index (suc w.last_index % 2 ^ 64))
    then rotate_for_conflict w
    else w)

-- true for no error
unfoldable pub append_envelope : ℕ → List ℕ → Writer → Bool × Writer
append_envelope raft_index b w =
    if w.is_closed then (false, w) else (true, append_frame raft_index b (follow raft_index w))

unfoldable pub append_hard_state : ℕ → List ℕ → Writer → Bool × Writer
append_hard_state commit_index b w =
    if w.is_closed then (false, w) else (true, append_frame commit_index b w)

-- Flush, and Sync, which syncs the file as well
unfoldable pub flush : Writer → Writer
flush w = if w.is_closed then w else flush_buf w

unfoldable pub set_closed : Writer → Writer
set_closed w = record {
  config = w.config;
  disk = w.disk;
  sidecars = w.sidecars;
  seg_idx = w.seg_idx;
  buf = w.buf;
  is_closed = true;
  last_index = w.last_index;
  entries = w.entries;
  entries_since_flush = w.entries_since_flush;
  append_count = w.append_count;
}

unfoldable pub close : Writer → Writer
unfolding set_closed
close w = if w.is_closed then w else set_closed (write_sidecar (flush_buf w))
