-- ===== src/RaftWal/Strict.antt =====
-- The log after calls and restarts in strict mode.
use mathlib.Core.List.{append_assoc}
use seven_db.Common.{
  ℕ, ◌≡◌, refl, ap, subst, ◌∙◌, Bool, true, false, List, [], ◌∷◌, ◌++◌, arith, if_keeps,
}
use seven_db.Common.Comparable.{nat_key}
use seven_db.Common.Lists.{All}
use seven_db.RaftWal.Frame.{Envelope, EnvelopeProto}
use seven_db.RaftWal.Writer.{Writer, flush_buf, write_sidecar, new_writer, complete}
use seven_db.RaftWal.Append.{
  append_frame, follow, append_envelope, append_hard_state, flush, close, set_closed,
}
use seven_db.RaftWal.Content.{Logs}
use seven_db.RaftWal.Runs.{
  Op, append_op, hard_state_op, flush_op, close_op, restart_op, step, run, accepted, envelopes_of,
}
use seven_db.RaftWal.Open.{IsFlushed, append_frame-IsLike, follow-IsLike, append_frame-IsFlushed}
use seven_db.RaftWal.Calls.{Survives, step-Logs, nothing_more}

module _ {Fits : Envelope → Type 0} (proto : EnvelopeProto Fits) where
  -- every process of the run is in strict mode
  abbrev pub IsStrict : Op → Type 0
  IsStrict (restart_op cfg) = cfg.strict_sync ≡ true
  IsStrict _ = Unit

  -- a writer in strict mode, with nothing buffered
  abbrev IsSynced : Writer → Type 0
  IsSynced w = (w.config.strict_sync ≡ true) × IsFlushed w

  append_frame-IsSynced :
      (i : ℕ) (p : List ℕ) (v w : Writer)
      → v.config ≡ w.config
      → w.config.strict_sync ≡ true
      → IsSynced (append_frame i p v)
  append_frame-IsSynced i p v w same s = (
    ap (λ cfg. cfg.strict_sync) ((append_frame-IsLike w.config v.is_closed i p v (same, refl)).0)
        ∙ s,
    append_frame-IsFlushed i p v (ap (λ cfg. cfg.strict_sync) same ∙ s),
  )

  close-IsSynced : (w : Writer) → IsSynced w → IsSynced (close w)
  unfolding close set_closed write_sidecar flush_buf
  close-IsSynced w s = ground (arith, s)

  step-IsSynced : (op : Op) (w : Writer) → IsStrict op → IsSynced w → IsSynced (step proto op w).1
  unfolding step append_envelope append_hard_state flush flush_buf new_writer complete
  step-IsSynced (append_op e) w t s =
      if_keeps {A = Bool × Writer} (λ r. IsSynced r.1) w.is_closed (false, w)
        (true, append_frame e.raft_index (proto.marshal e) (follow e.raft_index w)) s
        (append_frame-IsSynced e.raft_index (proto.marshal e) (follow e.raft_index w) w
          (follow-IsLike w.config w.is_closed e.raft_index w (refl, refl)).0 s.0)
  step-IsSynced (hard_state_op e) w t s =
      if_keeps {A = Bool × Writer} (λ r. IsSynced r.1) w.is_closed (false, w)
        (true, append_frame e.raft_index (proto.marshal e) w) s
        (append_frame-IsSynced e.raft_index (proto.marshal e) w w refl s.0)
  step-IsSynced flush_op w t s = if_keeps IsSynced w.is_closed w (flush_buf w) s (s.0, refl)
  step-IsSynced close_op w t s = close-IsSynced w s
  step-IsSynced (restart_op cfg) w t s = (t, refl)

  synced-Survives : (op : Op) (w : Writer) → IsSynced w → Survives proto op w
  synced-Survives (append_op e) w s = tt
  synced-Survives (hard_state_op e) w s = tt
  synced-Survives flush_op w s = tt
  synced-Survives close_op w s = tt
  synced-Survives (restart_op cfg) w s = s.1

  pub synced-Logs :
      (ops : List Op) (w : Writer) (es : List Envelope)
      → All IsStrict ops
      → IsSynced w
      → Logs proto w es
      → Logs proto (run proto ops w) (es ++ accepted proto ops w) × IsFlushed (run proto ops w)
  unfolding run accepted
  synced-Logs [] w es t s h = (nothing_more proto w es h, s.1)
  synced-Logs (op ∷ ops) w es t s h =
      let added = envelopes_of op (step proto op w).0 in
      subst
        (λ ds.
          Logs proto (run proto ops (step proto op w).1) ds
          × IsFlushed (run proto ops (step proto op w).1))
        (append_assoc es added (accepted proto ops (step proto op w).1))
        (synced-Logs ops (step proto op w).1 (es ++ added) t.1 (step-IsSynced op w t.0 s)
          (step-Logs proto op w es (synced-Survives op w s) h))
