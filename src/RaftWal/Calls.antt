-- ===== src/RaftWal/Calls.antt =====
-- The log after calls and restarts.
use mathlib.Core.List.{append-nil, append_assoc}
use seven_db.Common.{
  ℕ, ◌≡◌, ◌≤◌, refl, sym, ap, subst, ◌∙◌, Bool, true, false, List, [], ◌∷◌, ◌++◌, arith, inl, inr,
  Bool-cases, if_keeps, if◌then◌else◌, ltb,
}
use seven_db.Common.Comparable.{nat_key}
use seven_db.Common.GoMap.{get, put}
use seven_db.Common.GoMap.Ends.{put-append}
use seven_db.Common.Lists.{All}
use seven_db.RaftWal.Frame.{Envelope, EnvelopeProto}
use seven_db.RaftWal.Frame.Scan.{frames}
use seven_db.RaftWal.Writer.{Config, Writer, flush_buf, file_of, write_sidecar, highest, new_writer}
use seven_db.RaftWal.Append.{
  append_frame, follow, append_envelope, append_hard_state, flush, close, set_closed,
}
use seven_db.RaftWal.Content.{
  Segments, first_or, Ascends, Logs, stored, has-stored, Logs-same, flush_buf-Logs, file_of_active,
}
use seven_db.RaftWal.Runs.{
  Op, append_op, hard_state_op, flush_op, close_op, restart_op, step, run, accepted, envelopes_of,
  append_frame-Logs, follow-Logs, write_sidecar-Logs,
}
use seven_db.RaftWal.Open.{IsFlushed}

module _ {Fits : Envelope → Type 0} (proto : EnvelopeProto Fits) where
  highest_last :
      (old : Segments) (m n : ℕ) (bytes : List ℕ)
      → m ≤ first_or old n
      → Ascends old n
      → highest m (stored proto old ++ ((n, bytes) ∷ [])) ≡ n
  unfolding highest
  highest_last [] m n bytes l h = ground arith
  highest_last ((i, es) ∷ old) m n bytes l h = elim (Bool-cases (ltb m i)) [
    | inl less ↦ rw (highest, less) (highest_last old i n bytes (omega (arith, h.0)) h.1)
    | inr same ↦ rw (highest, same) (highest_last old m n bytes (ground (arith, h.0)) h.1)
  ]

  pub new_writer-seg_idx :
      (cfg : Config) (w : Writer) (es : List Envelope)
      → Logs proto w es
      → (new_writer cfg w.disk w.sidecars).seg_idx ≡ w.seg_idx
  unfolding new_writer
  new_writer-seg_idx cfg w es h =
      ap (highest 0) h.disk_is ∙ highest_last h.old 0 w.seg_idx h.on_disk (omega arith) h.ascends

  -- A new process finds what the log holds, where nothing was buffered.
  pub new_writer-Logs :
      (cfg : Config) (w : Writer) (es : List Envelope)
      → IsFlushed w
      → Logs proto w es
      → Logs proto (new_writer cfg w.disk w.sidecars) es
  unfolding new_writer
  new_writer-Logs cfg w es empty h =
      Logs-same proto h (new_writer cfg w.disk w.sidecars) same_disk same_segment (sym empty)
    where
      same_segment : highest 0 w.disk ≡ w.seg_idx
      same_segment = new_writer-seg_idx cfg w es h

      same_disk : put w.disk (highest 0 w.disk) (file_of w.disk (highest 0 w.disk)) ≡ w.disk
      same_disk =
          ap (λ i. put w.disk i (file_of w.disk i)) same_segment
          ∙ ap (λ bs. put w.disk w.seg_idx bs) (file_of_active proto h)
          ∙ ap (λ d. put d w.seg_idx h.on_disk) h.disk_is
          ∙ put-append (stored proto h.old) w.seg_idx h.on_disk h.on_disk
              (has-stored proto h.old w.seg_idx w.seg_idx h.ascends (omega arith))
          ∙ sym h.disk_is

  pub empty-Logs : (cfg : Config) → Logs proto (new_writer cfg [] []) []
  unfolding new_writer highest put get frames
  empty-Logs cfg = record {
    old = [];
    current = [];
    on_disk = [];
    disk_is = refl;
    active_is = refl;
    ascends = tt;
    all_is = refl;
  }

  -- a restart comes where nothing is buffered
  abbrev pub Survives : Op → Writer → Type 0
  Survives (restart_op cfg) w = IsFlushed w
  Survives _ w = Unit

  pub close-Logs : (w : Writer) (es : List Envelope) → Logs proto w es → Logs proto (close w) es
  unfolding close set_closed
  close-Logs w es h =
      let saved = write_sidecar (flush_buf w) in
      if_keeps (λ v. Logs proto v es) w.is_closed w (set_closed saved) h
        (Logs-same proto (write_sidecar-Logs proto (flush_buf w) (flush_buf-Logs proto h))
          (set_closed saved) refl refl refl)

  pub nothing_more : (w : Writer) (es : List Envelope) → Logs proto w es → Logs proto w (es ++ [])
  nothing_more w es h = subst (λ ds. Logs proto w ds) (sym (append-nil es)) h

  -- the two answers of an append
  answered :
      (closed : Bool) (op : Op) (w v : Writer) (es : List Envelope)
      → Logs proto w (es ++ envelopes_of op false)
      → Logs proto v (es ++ envelopes_of op true)
      → Logs proto
          (if◌then◌else◌ {A = Bool × Writer} closed (false, w) (true, v)).1
          (es ++ envelopes_of op (if◌then◌else◌ {A = Bool × Writer} closed (false, w) (true, v)).0)
  answered true op w v es h k = h
  answered false op w v es h k = k

  -- A call adds the envelope that it accepts, and nothing else.
  pub step-Logs :
      (op : Op) (w : Writer) (es : List Envelope)
      → Survives op w
      → Logs proto w es
      → Logs proto (step proto op w).1 (es ++ envelopes_of op (step proto op w).0)
  unfolding step append_envelope append_hard_state flush
  step-Logs (append_op e) w es s h =
      answered w.is_closed (append_op e) w
        (append_frame e.raft_index (proto.marshal e) (follow e.raft_index w)) es
        (nothing_more w es h)
        (append_frame-Logs proto e.raft_index e (follow e.raft_index w)
          (follow-Logs proto e.raft_index w h))
  step-Logs (hard_state_op e) w es s h =
      answered w.is_closed (hard_state_op e) w (append_frame e.raft_index (proto.marshal e) w) es
        (nothing_more w es h) (append_frame-Logs proto e.raft_index e w h)
  step-Logs flush_op w es s h =
      nothing_more (flush w) es
        (if_keeps (λ v. Logs proto v es) w.is_closed w (flush_buf w) h (flush_buf-Logs proto h))
  step-Logs close_op w es s h = nothing_more (close w) es (close-Logs w es h)
  step-Logs (restart_op cfg) w es s h =
      nothing_more (new_writer cfg w.disk w.sidecars) es (new_writer-Logs cfg w es s h)

  -- calls without restarts
  abbrev pub IsCall : Op → Type 0
  IsCall (restart_op cfg) = ⊥
  IsCall _ = Unit

  call-Survives : (op : Op) (w : Writer) → IsCall op → Survives op w
  call-Survives (append_op e) w h = tt
  call-Survives (hard_state_op e) w h = tt
  call-Survives flush_op w h = tt
  call-Survives close_op w h = tt
  call-Survives (restart_op cfg) w h = absurd h

  pub calls-Logs :
      (ops : List Op) (w : Writer) (es : List Envelope)
      → All IsCall ops
      → Logs proto w es
      → Logs proto (run proto ops w) (es ++ accepted proto ops w)
  unfolding run accepted
  calls-Logs [] w es c h = nothing_more w es h
  calls-Logs (op ∷ ops) w es c h =
      let added = envelopes_of op (step proto op w).0 in
      subst (λ ds. Logs proto (run proto ops (step proto op w).1) ds)
        (append_assoc es added (accepted proto ops (step proto op w).1))
        (calls-Logs ops (step proto op w).1 (es ++ added) c.1
          (step-Logs op w es (call-Survives op w c.0) h))
