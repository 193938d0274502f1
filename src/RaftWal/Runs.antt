-- ===== src/RaftWal/Runs.antt =====
-- Runs of a writer: its calls, and restarts of the process on what is on disk.
use seven_db.Common.{
  ℕ, suc, ◌+◌, ◌≡◌, refl, Bool, true, List, [], ◌∷◌, ◌++◌, arith, nat_beq, if_keeps, if◌then◌else◌,
  ltb, leb, ◌&&◌, not, ◌%◌, ◌^◌,
}
use seven_db.Common.Comparable.{nat_key}
use seven_db.Common.Lists.{length}
use seven_db.RaftWal.Frame.{Envelope, EnvelopeProto, frame}
use seven_db.RaftWal.Writer.{
  Config, Writer, write, flush_buf, current_offset, write_sidecar, rotate, rotate_for_conflict,
  note_entry, set_last_index, count_append, new_writer,
}
use seven_db.RaftWal.Append.{
  is_sidecar_due, sidecar_if_due, settle, rotate_full, rotate_counted, rotate_forced, append_frame,
  follow, append_envelope, append_hard_state, flush, close,
}
use seven_db.RaftWal.Content.{Logs, Logs-same, write-Logs, flush_buf-Logs, open_next-Logs}

pub data Op : Type 0 where
  append_op hard_state_op : Envelope → Op
  flush_op close_op : Op
  -- the process ends between two calls, with the loss of what is buffered, and a new one opens the log
  restart_op : Config → Op

module _ {Fits : Envelope → Type 0} (proto : EnvelopeProto Fits) where
  -- a call, with whether it reports no error
  unfoldable pub step : Op → Writer → Bool × Writer
  step (append_op e) w = append_envelope e.raft_index (proto.marshal e) w
  step (hard_state_op e) w = append_hard_state e.raft_index (proto.marshal e) w
  step flush_op w = (true, flush w)
  step close_op w = (true, close w)
  step (restart_op cfg) w = (true, new_writer cfg w.disk w.sidecars)

  unfoldable pub run : List Op → Writer → Writer
  unfolding step
  run [] w = w
  run (op ∷ ops) w = run ops (step op w).1

-- the envelopes of a call that reports no error
abbrev pub envelopes_of : Op → Bool → List Envelope
envelopes_of (append_op e) true = e ∷ []
envelopes_of (hard_state_op e) true = e ∷ []
envelopes_of _ _ = []

module _ {Fits : Envelope → Type 0} (proto : EnvelopeProto Fits) where
  -- the envelopes whose appends report no error, in the order of the calls
  unfoldable pub accepted : List Op → Writer → List Envelope
  accepted [] w = []
  accepted (op ∷ ops) w = envelopes_of op (step proto op w).0 ++ accepted ops (step proto op w).1

  if-Logs :
      {es : List Envelope} (b : Bool) (v w : Writer)
      → Logs proto v es
      → Logs proto w es
      → Logs proto (if b then v else w) es
  if-Logs {es} = if_keeps (λ v. Logs proto v es)

  pub write_sidecar-Logs :
      {es : List Envelope} (w : Writer) → Logs proto w es → Logs proto (write_sidecar w) es
  unfolding write_sidecar
  write_sidecar-Logs w h =
      Logs-same proto h (write_sidecar w) (ground arith) (ground arith) (ground arith)

  pub write_sidecar-buf : (w : Writer) → (write_sidecar w).buf ≡ w.buf
  unfolding write_sidecar
  write_sidecar-buf w = ground arith

  rotate-Logs : {es : List Envelope} (w : Writer) → Logs proto w es → Logs proto (rotate w) es
  unfolding rotate flush_buf
  rotate-Logs w h =
      open_next-Logs proto (write_sidecar-Logs (flush_buf w) (flush_buf-Logs proto h))
        (write_sidecar-buf (flush_buf w))

  sidecar_if_due-Logs :
      {es : List Envelope} (w : Writer) → Logs proto w es → Logs proto (sidecar_if_due w) es
  unfolding sidecar_if_due
  sidecar_if_due-Logs w h =
      if-Logs (is_sidecar_due w) (write_sidecar w) w (write_sidecar-Logs w h) h

  settle-Logs : {es : List Envelope} (w : Writer) → Logs proto w es → Logs proto (settle w) es
  unfolding settle
  settle-Logs w h =
      sidecar_if_due-Logs (if w.config.strict_sync then flush_buf w else sidecar_if_due w) (
        if-Logs w.config.strict_sync (flush_buf w) (sidecar_if_due w) (flush_buf-Logs proto h)
          (sidecar_if_due-Logs w h))

  rotate_full-Logs :
      {es : List Envelope} (end : ℕ) (w : Writer)
      → Logs proto w es
      → Logs proto (rotate_full end w) es
  unfolding rotate_full
  rotate_full-Logs end w h =
      if-Logs (ltb 0 w.config.segment_max_bytes && leb w.config.segment_max_bytes end) (rotate w) w
        (rotate-Logs w h) h

  rotate_counted-Logs :
      {es : List Envelope} (w : Writer) → Logs proto w es → Logs proto (rotate_counted w) es
  unfolding rotate_counted
  rotate_counted-Logs w h =
      if-Logs (nat_beq (w.append_count % w.config.force_rotate_every) 0) (rotate w) w
        (rotate-Logs w h) h

  rotate_forced-Logs :
      {es : List Envelope} (w : Writer) → Logs proto w es → Logs proto (rotate_forced w) es
  unfolding rotate_forced count_append
  rotate_forced-Logs w h =
      if-Logs (ltb 0 w.config.force_rotate_every) (rotate_counted (count_append w)) w
        (rotate_counted-Logs (count_append w) (Logs-same proto h (count_append w) refl refl refl)) h

  pub append_frame-Logs :
      {es : List Envelope} (index : ℕ) (e : Envelope) (w : Writer)
      → Logs proto w es
      → Logs proto (append_frame index (proto.marshal e) w) (es ++ (e ∷ []))
  unfolding append_frame note_entry
  append_frame-Logs index e w h =
      let len = 8 + length (proto.marshal e) in
      let noted = note_entry index (current_offset w) len (write (frame (proto.marshal e)) w) in
      rotate_forced-Logs (rotate_full (current_offset w + len) (settle noted)) (
        rotate_full-Logs (current_offset w + len) (settle noted)
          (settle-Logs noted (Logs-same proto (write-Logs proto h e) noted refl refl refl)))

  pub follow-Logs :
      {es : List Envelope} (i : ℕ) (w : Writer) → Logs proto w es → Logs proto (follow i w) es
  unfolding follow set_last_index rotate_for_conflict
  follow-Logs i w h =
      let is_gap = not (nat_beq w.last_index 0) && not (nat_beq i (suc w.last_index % 2 ^ 64)) in
      Logs-same proto
        (if-Logs is_gap (rotate_for_conflict w) w
          (if-Logs (nat_beq w.last_index 0) w (rotate w) h (rotate-Logs w h)) h)
        (follow i w) refl refl refl
