-- ===== src/RaftWal/Tail.antt =====
-- The tails of a log, and its last hard state.
use mathlib.Core.List.{append_assoc}
use seven_db.Common.{
  ℕ, suc, ◌≡◌, ◌<◌, refl, sym, ap, subst, ◌∙◌, false, none, List, [], ◌∷◌, ◌++◌, nat_beq,
}
use seven_db.Common.Lists.{length, All}
use seven_db.RaftWal.Frame.{Envelope, EnvelopeProto, collect_segment_tuples_all, hard_state_loop}
use seven_db.RaftWal.Frame.Scan.{Storable, frames, scan}
use seven_db.RaftWal.Frame.Folds.{normals, last_hard_state, collect_loop-scan, hard_state_loop-scan}
use seven_db.RaftWal.Writer.{Writer}
use seven_db.RaftWal.Content.{Segments, Logs, stored, flat}
use seven_db.RaftWal.Open.{IsFlushed}
use seven_db.RaftWal.Replay.{
  collect_files, tail_logical_tuples, last_n, hard_state_files, replay_last_hard_state,
}
use seven_db.RaftWal.Durable.{
  scan_all, disk_of_flushed, normals-append, last_hard_state-append, All-split,
}

-- the index and the logical checksum
abbrev pub tuple_of : Envelope → ℕ × ℕ
tuple_of e = (e.raft_index, e.app_crc)

module _ {Fits : Envelope → Type 0} (proto : EnvelopeProto Fits) where
  collect-frames :
      (es : List Envelope)
      → All (Storable proto) es
      → collect_segment_tuples_all proto (frames proto es) ≡ (normals tuple_of es, none)
  unfolding collect_segment_tuples_all scan
  collect-frames es h =
      collect_loop-scan proto tuple_of (suc (length (frames proto es))) (frames proto es)
      ∙ ap (λ r. (normals tuple_of r.0, r.1)) (scan_all proto es h)

  collect_files-stored :
      (old : Segments) (n : ℕ) (es : List Envelope) (all : List (ℕ × ℕ))
      → All (Storable proto) (flat old ++ es)
      → collect_files proto
          (collect_segment_tuples_all proto)
          (stored proto old ++ ((n, frames proto es) ∷ []))
          all
        ≡ (all ++ normals tuple_of (flat old ++ es), none)
  unfolding collect_files
  collect_files-stored [] n es all h =
      rw (collect_files, collect-frames es h, collect-frames es h) refl
  collect_files-stored ((i, ds) ∷ old) n es all h =
      let parts =
        All-split (Storable proto) ds (flat old ++ es)
          (subst (All (Storable proto)) (append_assoc ds (flat old) es) h) in
      rw (collect_files, collect-frames ds parts.0, collect-frames ds parts.0)
        (collect_files-stored old n es (all ++ normals tuple_of ds) parts.1
          ∙ ap (λ xs. (xs, none))
              (append_assoc all (normals tuple_of ds) (normals tuple_of (flat old ++ es))
                ∙ ap (λ xs. all ++ xs)
                    (sym (normals-append tuple_of ds (flat old ++ es))
                      ∙ ap (normals tuple_of) (sym (append_assoc ds (flat old) es)))))

  hard_state-frames :
      (hs : List ℕ) (es : List Envelope)
      → All (Storable proto) es
      → hard_state_loop proto (suc (length (frames proto es))) hs (frames proto es)
        ≡ (last_hard_state hs es, none)
  unfolding scan
  hard_state-frames hs es h =
      hard_state_loop-scan proto (suc (length (frames proto es))) hs (frames proto es)
      ∙ ap (λ r. (last_hard_state hs r.0, r.1)) (scan_all proto es h)

  hard_state_files-stored :
      (old : Segments) (n : ℕ) (es : List Envelope) (hs : List ℕ)
      → All (Storable proto) (flat old ++ es)
      → hard_state_files proto (stored proto old ++ ((n, frames proto es) ∷ [])) hs
        ≡ (last_hard_state hs (flat old ++ es), none)
  unfolding hard_state_files
  hard_state_files-stored [] n es hs h =
      rw (hard_state_files, hard_state-frames hs es h, hard_state-frames hs es h) refl
  hard_state_files-stored ((i, ds) ∷ old) n es hs h =
      let parts =
        All-split (Storable proto) ds (flat old ++ es)
          (subst (All (Storable proto)) (append_assoc ds (flat old) es) h) in
      rw (hard_state_files, hard_state-frames hs ds parts.0, hard_state-frames hs ds parts.0)
        (hard_state_files-stored old n es (last_hard_state hs ds) parts.1
          ∙ ap (λ b. (b, none))
              (sym (last_hard_state-append hs ds (flat old ++ es))
                ∙ ap (last_hard_state hs) (sym (append_assoc ds (flat old) es))))

  -- The tail of the tuples is the tail of those of the normal entries that the log holds.
  pub tail_logical_tuples-Logs :
      (w : Writer) (es : List Envelope) (limit : ℕ)
      → Logs proto w es
      → IsFlushed w
      → w.seg_idx < 10
      → All (Storable proto) es
      → nat_beq limit 0 ≡ false
      → tail_logical_tuples proto w.disk limit ≡ (last_n limit (normals tuple_of es), none)
  unfolding tail_logical_tuples
  tail_logical_tuples-Logs w es limit h empty few good some_limit =
      rw
        (
          some_limit,
          disk_of_flushed proto w es h empty few,
          collect_files-stored h.old w.seg_idx h.current []
              (subst (All (Storable proto)) (sym h.all_is) good),
          h.all_is,
        )
        refl

  -- The last hard state is that of the last such envelope that the log holds, or none.
  pub replay_last_hard_state-Logs :
      (w : Writer) (es : List Envelope)
      → Logs proto w es
      → IsFlushed w
      → w.seg_idx < 10
      → All (Storable proto) es
      → replay_last_hard_state proto w.disk ≡ (last_hard_state [] es, none)
  unfolding replay_last_hard_state
  replay_last_hard_state-Logs w es h empty few good =
      ap (λ files. hard_state_files proto files []) (disk_of_flushed proto w es h empty few)
      ∙ hard_state_files-stored h.old w.seg_idx h.current []
          (subst (All (Storable proto)) (sym h.all_is) good)
      ∙ ap (λ ds. (last_hard_state [] ds, none)) h.all_is
