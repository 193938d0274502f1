-- ===== src/RaftWal/Restarts.antt =====
-- What a log gives back after its calls, and after the ends of its processes.
use seven_db.Common.{◌≡◌, ◌<◌, refl, Bool, true, false, none, List, [], if◌then◌else◌, arith}
use seven_db.Common.Lists.{All}
use seven_db.RaftWal.Frame.{Envelope, EnvelopeProto}
use seven_db.RaftWal.Frame.Scan.{Storable}
use seven_db.RaftWal.Frame.Folds.{run_callback}
use seven_db.RaftWal.Writer.{Config, Writer, new_writer, complete, flush_buf, write_sidecar}
use seven_db.RaftWal.Append.{close, set_closed}
use seven_db.RaftWal.Runs.{Op, run, accepted, write_sidecar-buf}
use seven_db.RaftWal.Open.{IsFlushed}
use seven_db.RaftWal.Calls.{IsCall, calls-Logs, empty-Logs, close-Logs}
use seven_db.RaftWal.Strict.{IsStrict, synced-Logs}
use seven_db.RaftWal.Replay.{replay}
use seven_db.RaftWal.Durable.{replay-Logs}

module _ {Fits : Envelope → Type 0} (proto : EnvelopeProto Fits) where
  -- a directory after calls from an empty one
  abbrev pub ran : Config → List Op → Writer
  ran cfg ops = run proto ops (new_writer cfg [] [])

  -- the envelopes that they accepted
  abbrev pub logged : Config → List Op → List Envelope
  logged cfg ops = accepted proto ops (new_writer cfg [] [])

  unchosen-IsFlushed :
      (b : Bool) (v w : Writer) → b ≡ false → IsFlushed w → IsFlushed (if b then v else w)
  unchosen-IsFlushed false v w h k = k
  unchosen-IsFlushed true v w h k = absurd (ground (arith, h))

  close-IsFlushed : (w : Writer) → w.is_closed ≡ false → IsFlushed (close w)
  unfolding close set_closed flush_buf
  close-IsFlushed w h =
      unchosen-IsFlushed w.is_closed w (set_closed (write_sidecar (flush_buf w))) h
        (write_sidecar-buf proto (flush_buf w))

  -- In strict mode, what Replay calls back with from the directory that a process leaves are the
  -- envelopes whose appends reported no error, in their order, also where processes end between their
  -- calls and others open the log. The conditions are that no process ends inside a call, as inside an
  -- append that has written its frame in whole or in part and not reported it; that all of the processes
  -- are in strict mode; that protobuf reads the envelopes back; that their encodings are not empty and
  -- shorter than 2 ^ 32 bytes; and that the log has at most ten segments.
  pub replay-restarts :
      {S : Type 0} (cb : Envelope → S → S × Bool) (s : S) (cfg : Config) (ops : List Op)
      → cfg.strict_sync ≡ true
      → All (IsStrict proto) ops
      → All (Storable proto) (logged cfg ops)
      → (ran cfg ops).seg_idx < 10
      → replay proto cb (ran cfg ops).disk s ≡ run_callback cb (logged cfg ops) none s
  unfolding new_writer complete
  replay-restarts cb s cfg ops t strict good few =
      let h =
        synced-Logs proto ops (new_writer cfg [] []) [] strict (t, refl) (empty-Logs proto cfg) in
      replay-Logs proto cb (ran cfg ops) (logged cfg ops) s h.0 h.1 few good

  -- After Close of a writer that is open, Replay calls back with the envelopes whose appends reported no
  -- error, in their order, whether the mode is strict or not, provided that no process ended before,
  -- that protobuf reads the envelopes back, that their encodings are not empty and shorter than 2 ^ 32
  -- bytes, and that the log has at most ten segments.
  pub replay-close :
      {S : Type 0} (cb : Envelope → S → S × Bool) (s : S) (cfg : Config) (ops : List Op)
      → All (IsCall proto) ops
      → All (Storable proto) (logged cfg ops)
      → (ran cfg ops).is_closed ≡ false
      → (close (ran cfg ops)).seg_idx < 10
      → replay proto cb (close (ran cfg ops)).disk s ≡ run_callback cb (logged cfg ops) none s
  replay-close cb s cfg ops calls good opened few =
      replay-Logs proto cb (close (ran cfg ops)) (logged cfg ops) s
        (close-Logs proto (ran cfg ops) (logged cfg ops)
          (calls-Logs proto ops (new_writer cfg [] []) [] calls (empty-Logs proto cfg)))
        (close-IsFlushed (ran cfg ops) opened) few good
