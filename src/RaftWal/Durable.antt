-- ===== src/RaftWal/Durable.antt =====
-- What is read back of a log: by Replay, by the tails and by ReplayLastHardState.
use mathlib.Core.List.{append-nil, append_assoc}
use seven_db.Common.{
  ℕ, suc, ◌≡◌, ◌<◌, refl, sym, ap, subst, ◌∙◌, Bool, Option, none, some, List, [], ◌∷◌, ◌++◌, arith,
  Bool-cases, inl, inr,
}
use seven_db.Common.GoMap.{GoMap}
use seven_db.Common.Lists.{length, All}
use seven_db.RaftWal.Frame.{
  Envelope, EnvelopeProto, WalError, replay_segment, next_envelope, keep_normal, hard_state_or,
}
use seven_db.RaftWal.Frame.Scan.{Storable, frames, scan, scan_loop, scan-frames}
use seven_db.RaftWal.Frame.Folds.{run_callback, normals, last_hard_state, replay_loop-scan}
use seven_db.RaftWal.Writer.{Writer}
use seven_db.RaftWal.Content.{Segments, Logs, stored, flat}
use seven_db.RaftWal.Open.{IsFlushed}
use seven_db.RaftWal.Replay.{replay, replay_files, sorted_segments}
use seven_db.RaftWal.Sorted.{sorted_segments-stored}

-- a callback goes on where it does not fail
abbrev continue_with :
    {S : Type 0}
    → (Envelope → S → S × Bool)
    → List Envelope
    → S × Option WalError
    → S × Option WalError
continue_with cb es (s, none) = run_callback cb es none s
continue_with cb es (s, some err) = (s, some err)

run_callback-append :
    {S : Type 0} (cb : Envelope → S → S × Bool) (es ds : List Envelope) (s : S)
    → run_callback cb (es ++ ds) none s ≡ continue_with cb ds (run_callback cb es none s)
unfolding run_callback
run_callback-append cb [] ds s = refl
run_callback-append cb (e ∷ es) ds s = elim (Bool-cases (cb e s).1) [
  | inl good ↦ rw (run_callback, good) (run_callback-append cb es ds (cb e s).0)
  | inr bad ↦ rw (run_callback, bad) refl
]

pub normals-append :
    {A : Type 0} (f : Envelope → A) (es ds : List Envelope)
    → normals f (es ++ ds) ≡ normals f es ++ normals f ds
unfolding normals keep_normal
normals-append f [] ds = refl
normals-append f (e ∷ es) ds = ground (arith, normals-append f es ds)

pub last_hard_state-append :
    (hs : List ℕ) (es ds : List Envelope)
    → last_hard_state hs (es ++ ds) ≡ last_hard_state (last_hard_state hs es) ds
unfolding last_hard_state
last_hard_state-append hs [] ds = refl
last_hard_state-append hs (e ∷ es) ds =
    last_hard_state-append (hard_state_or e.kind e.app_bytes hs) es ds

pub All-split :
    (P : Envelope → Type 0) (es ds : List Envelope) → All P (es ++ ds) → All P es × All P ds
All-split P [] ds h = (tt, h)
All-split P (e ∷ es) ds h = let rest = All-split P es ds h.1 in ((h.0, rest.0), rest.1)

module _ {Fits : Envelope → Type 0} (proto : EnvelopeProto Fits) where
  pub scan_all :
      (es : List Envelope) → All (Storable proto) es → scan proto (frames proto es) ≡ (es, none)
  unfolding scan scan_loop next_envelope
  scan_all es h =
      ap (scan proto) (sym (append-nil (frames proto es)))
      ∙ scan-frames proto es [] h
      ∙ ap (λ ds. (ds, none)) (append-nil es)

  replay_segment-frames :
      {S : Type 0} (cb : Envelope → S → S × Bool) (es : List Envelope) (s : S)
      → All (Storable proto) es
      → replay_segment proto cb (frames proto es) s ≡ run_callback cb es none s
  unfolding replay_segment scan
  replay_segment-frames cb es s h =
      replay_loop-scan proto cb (suc (length (frames proto es))) (frames proto es) s
      ∙ ap (λ r. run_callback cb r.0 r.1 s) (scan_all es h)

  -- the loop of Replay after a segment
  abbrev replay_on :
      {S : Type 0}
      → (Envelope → S → S × Bool)
      → GoMap ℕ (List ℕ)
      → S × Option WalError
      → S × Option WalError
  replay_on cb files (s, none) = replay_files proto cb files s
  replay_on cb files (s, some err) = (s, some err)

  replay_files_cons :
      {S : Type 0} (cb : Envelope → S → S × Bool) (n : ℕ) (bytes : List ℕ)
      (files : GoMap ℕ (List ℕ)) (s : S)
      → replay_files proto cb ((n, bytes) ∷ files) s
        ≡ replay_on cb files (replay_segment proto cb bytes s)
  unfolding replay_files
  replay_files_cons {S} cb n bytes files s = go (replay_segment proto cb bytes s)
    where
      go :
          (r : S × Option WalError)
          → (elim r.1 as (λ x. S × Option WalError) [
            | none ↦ replay_files proto cb files r.0
            | some err ↦ (r.0, some err)
          ])
            ≡ replay_on cb files r
      go (t, none) = refl
      go (t, some err) = refl

  replay_on-continue_with :
      {S : Type 0} (cb : Envelope → S → S × Bool) (files : GoMap ℕ (List ℕ)) (es : List Envelope)
      → ((s : S) → replay_files proto cb files s ≡ run_callback cb es none s)
      → (r : S × Option WalError) → replay_on cb files r ≡ continue_with cb es r
  replay_on-continue_with cb files es h (s, none) = h s
  replay_on-continue_with cb files es h (s, some err) = refl

  replay_files-stored :
      {S : Type 0} (cb : Envelope → S → S × Bool) (old : Segments) (n : ℕ) (es : List Envelope)
      → All (Storable proto) (flat old ++ es)
      → (s : S)
      → replay_files proto cb (stored proto old ++ ((n, frames proto es) ∷ [])) s
        ≡ run_callback cb (flat old ++ es) none s
  unfolding replay_files run_callback
  replay_files-stored cb [] n es h s =
      replay_files_cons cb n (frames proto es) [] s
      ∙ ap (replay_on cb []) (replay_segment-frames cb es s h)
      ∙ replay_on-continue_with cb [] [] (λ t. refl) (run_callback cb es none s)
      ∙ sym (run_callback-append cb es [] s)
      ∙ ap (λ ds. run_callback cb ds none s) (append-nil es)
  replay_files-stored cb ((i, ds) ∷ old) n es h s =
      let files = stored proto old ++ ((n, frames proto es) ∷ []) in
      let parts =
        All-split (Storable proto) ds (flat old ++ es)
          (subst (All (Storable proto)) (append_assoc ds (flat old) es) h) in
      replay_files_cons cb i (frames proto ds) files s
      ∙ ap (replay_on cb files) (replay_segment-frames cb ds s parts.0)
      ∙ replay_on-continue_with cb files (flat old ++ es) (replay_files-stored cb old n es parts.1)
          (run_callback cb ds none s)
      ∙ sym (run_callback-append cb ds (flat old ++ es) s)
      ∙ ap (λ cs. run_callback cb cs none s) (sym (append_assoc ds (flat old) es))

  -- the segments on disk, where nothing is buffered
  pub disk_of_flushed :
      (w : Writer) (es : List Envelope) (h : Logs proto w es)
      → IsFlushed w
      → w.seg_idx < 10
      → sorted_segments w.disk ≡ stored proto h.old ++ ((w.seg_idx, frames proto h.current) ∷ [])
  disk_of_flushed w es h empty few =
      ap sorted_segments h.disk_is
      ∙ sorted_segments-stored proto h.old w.seg_idx h.on_disk h.ascends few
      ∙ ap (λ bs. stored proto h.old ++ ((w.seg_idx, bs) ∷ []))
          (sym (append-nil h.on_disk) ∙ ap (λ bs. h.on_disk ++ bs) (sym empty) ∙ h.active_is)

  pub replay-Logs :
      {S : Type 0} (cb : Envelope → S → S × Bool) (w : Writer) (es : List Envelope) (s : S)
      → Logs proto w es
      → IsFlushed w
      → w.seg_idx < 10
      → All (Storable proto) es
      → replay proto cb w.disk s ≡ run_callback cb es none s
  unfolding replay
  replay-Logs cb w es s h empty few good =
      ap (λ files. replay_files proto cb files s) (disk_of_flushed w es h empty few)
      ∙ replay_files-stored cb h.old w.seg_idx h.current
          (subst (All (Storable proto)) (sym h.all_is) good) s
      ∙ ap (λ ds. run_callback cb ds none s) h.all_is
