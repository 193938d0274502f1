-- ===== src/RaftWal/Tests.antt =====
-- Runs of the log, and its theorems at concrete calls.
use seven_db.Common.{
  ◌≡◌, ◌<◌, refl, subst, sym, false, true, none, some, List, [], ◌∷◌, ◌++◌, arith,
}
use seven_db.Common.GoMap.{get, put}
use seven_db.Common.Strconv.{format_digits, digit}
use seven_db.Bucket.Frame.{checksum, read_full}
use seven_db.Common.Lists.{All, length}
use seven_db.RaftWal.Frame.{
  max_index_in_segment, max_index_loop, Envelope, entry_normal, entry_hard_state, short_payload,
  next_envelope, replay_loop, replay_segment, frame,
}
use seven_db.RaftWal.Frame.Scan.{Storable}
use seven_db.RaftWal.Frame.Folds.{run_callback}
use seven_db.RaftWal.Writer.{
  Writer, new_writer, complete, highest, take, passed_on, extend_file, note_entry, write,
  current_offset, flush_buf, count_append, rotate,
}
use seven_db.RaftWal.Append.{
  append_envelope, append_hard_state, append_frame, follow, settle, flush, close,
}
use seven_db.RaftWal.Content.{Logs}
use seven_db.RaftWal.Runs.{step, run, accepted}
use seven_db.RaftWal.Restarts.{ran, logged, replay-restarts, replay-close}
use seven_db.RaftWal.Replay.{replay, sorted_segments, string_leb, segment_name}
use seven_db.RaftWal.Prune.{prune_through, doomed}
use seven_db.RaftWal.Prune.Keeps.{victims, from_bound}
use seven_db.RaftWal.Prune.Deletes.{prune_through-Logs}
use seven_db.RaftWal.Calls.{calls-Logs, empty-Logs}
use seven_db.RaftWal.Samples.{proto, sample, sample-Storable, config, traffic, calls_only, collect}

abbrev two : List Envelope
two = sample entry_normal 1 (7 ∷ []) ∷ sample entry_normal 5 (4 ∷ []) ∷ []

traffic_is : logged proto (config true) traffic ≡ two
unfolding accepted step append_envelope append_hard_state flush append_frame follow new_writer
    note_entry write current_offset flush_buf count_append rotate get put highest complete take
    passed_on extend_file settle frame
traffic_is = refl

two-Storable : All (Storable proto) two
two-Storable = (sample-Storable entry_normal 1 7, (sample-Storable entry_normal 5 4, tt))

traffic_segments : (ran proto (config true) traffic).seg_idx ≡ 0
unfolding run step close append_envelope append_hard_state flush append_frame follow new_writer
    note_entry write current_offset flush_buf count_append rotate get put highest complete take
    passed_on extend_file settle frame
traffic_segments = refl

replay-restarts_example :
    replay proto collect (ran proto (config true) traffic).disk []
    ≡ run_callback collect (logged proto (config true) traffic) none []
replay-restarts_example =
    replay-restarts proto collect [] (config true) traffic refl (tt, (refl, (tt, tt)))
      (subst (All (Storable proto)) (sym traffic_is) two-Storable)
      (subst (λ n. n < 10) (sym traffic_segments) (omega arith))

abbrev calls_logged : List Envelope
calls_logged =
    sample entry_normal 1 (7 ∷ [])
    ∷ sample entry_normal 3 (8 ∷ [])
    ∷ sample entry_hard_state 3 (9 ∷ [])
    ∷ []

calls_is : logged proto (config false) calls_only ≡ calls_logged
unfolding accepted step append_envelope append_hard_state flush append_frame follow new_writer
    note_entry write current_offset flush_buf count_append rotate get put highest complete take
    passed_on extend_file settle frame
calls_is = refl

calls_segments : (close (ran proto (config false) calls_only)).seg_idx ≡ 2
unfolding run step close append_envelope append_hard_state flush append_frame follow new_writer
    note_entry write current_offset flush_buf count_append rotate get put highest complete take
    passed_on extend_file settle frame
calls_segments = refl

calls_open : (ran proto (config false) calls_only).is_closed ≡ false
unfolding run step close append_envelope append_hard_state flush append_frame follow new_writer
    note_entry write current_offset flush_buf count_append rotate get put highest complete take
    passed_on extend_file settle frame
calls_open = refl

replay-close_example :
    replay proto collect (close (ran proto (config false) calls_only)).disk []
    ≡ run_callback collect (logged proto (config false) calls_only) none []
replay-close_example =
    replay-close proto collect [] (config false) calls_only (tt, (tt, (tt, (tt, tt))))
      (subst (All (Storable proto)) (sym calls_is) (
        sample-Storable entry_normal 1 7,
        (sample-Storable entry_normal 3 8, (sample-Storable entry_hard_state 3 9, tt)),
      ))
      calls_open (subst (λ n. n < 10) (sym calls_segments) (omega arith))

calls_last : (ran proto (config false) calls_only).seg_idx ≡ 2
unfolding run step close append_envelope append_hard_state flush append_frame follow new_writer
    note_entry write current_offset flush_buf count_append rotate get put highest complete take
    passed_on extend_file settle frame
calls_last = refl

abbrev calls_writer : Writer
calls_writer = ran proto (config false) calls_only

calls_Logs : Logs proto calls_writer (logged proto (config false) calls_only)
calls_Logs =
    calls-Logs proto calls_only (new_writer (config false) [] []) [] (tt, (tt, (tt, (tt, tt))))
      (empty-Logs proto (config false))

prune_through-Logs_example :
    ((prune_through proto 3 calls_writer).0 ≡ (length (victims 3 calls_Logs.old), none))
    × ((ds : List Envelope) × Logs proto (prune_through proto 3 calls_writer).1 ds
        × (from_bound 3 ds ≡ from_bound 3 (logged proto (config false) calls_only)))
prune_through-Logs_example =
    prune_through-Logs proto 3 calls_writer (logged proto (config false) calls_only) calls_Logs
      calls_open refl (subst (λ n. n < 10) (sym calls_last) (omega arith))
      (subst (All (Storable proto)) (sym calls_is) (
        sample-Storable entry_normal 1 7,
        (sample-Storable entry_normal 3 8, (sample-Storable entry_hard_state 3 9, tt)),
      ))

-- the only hard state stands in a segment that is deleted
hard_state_lost :
    doomed proto 1 5 ((0, frame (2 ∷ 1 ∷ 3 ∷ 5 ∷ 0 ∷ 0 ∷ 2 ∷ 9 ∷ [])) ∷ (1, []) ∷ [])
    ≡ (0 ∷ [], none)
unfolding doomed frame next_envelope read_full checksum max_index_in_segment max_index_loop
hard_state_lost = refl

-- the eleventh segment is read before the third
late_segment :
    sorted_segments ((1, []) ∷ (2, []) ∷ (10, []) ∷ []) ≡ (1, []) ∷ (10, []) ∷ (2, []) ∷ []
unfolding sorted_segments string_leb segment_name format_digits digit
late_segment = refl

-- a segment that ends in a part of a payload is an error, after the envelopes before it
torn_segment :
    replay_segment proto collect
      (frame (1 ∷ 1 ∷ 0 ∷ 5 ∷ 0 ∷ 0 ∷ 1 ∷ 7 ∷ []) ++ (1 ∷ 2 ∷ 3 ∷ 4 ∷ 9 ∷ 0 ∷ 0 ∷ 0 ∷ 5 ∷ []))
      []
    ≡ (sample entry_normal 1 (7 ∷ []) ∷ [], some short_payload)
unfolding replay_segment frame next_envelope replay_loop read_full checksum
torn_segment = refl
