-- ===== src/RaftWal/Prune/Deletes.antt =====
-- The segments that PruneThrough deletes, and what is on disk after it.
use seven_db.Common.{
  ℕ, suc, ◌≡◌, ◌<◌, refl, sym, ap, subst, ◌∙◌, false, Option, none, some, List, [], ◌∷◌, ◌++◌,
  arith, nat_beq, ltb, if-false, if◌then◌else◌, Bool-cases, inl, inr,
}
use seven_db.Common.Comparable.{nat_key}
use seven_db.Common.GoMap.{GoMap, has, remove}
use seven_db.Common.GoMap.Keys.{remove_absent}
use seven_db.Common.Lists.{length, All}
use seven_db.RaftWal.Frame.{Envelope, EnvelopeProto, max_index_in_segment}
use seven_db.RaftWal.Frame.Scan.{Storable, frames, scan}
use seven_db.RaftWal.Frame.Folds.{max_index, max_index_loop-scan}
use seven_db.RaftWal.Writer.{Writer}
use seven_db.RaftWal.Content.{Segments, first_or, Ascends, Ascends-below, Logs, stored, flat}
use seven_db.RaftWal.Replay.{sorted_segments}
use seven_db.RaftWal.Sorted.{sorted_segments-stored}
use seven_db.RaftWal.Durable.{scan_all, All-split}
use seven_db.RaftWal.Prune.{
  PruneError, doomed, delete_segment_files, delete_segments, prune_through, writer_closed,
}
use seven_db.RaftWal.Prune.Keeps.{
  survivors, victims, from_bound, survivors-Ascends, survivors-from_bound, from_bound-append,
}

-- the directory after deletions
unfoldable remove_all : List ℕ → GoMap ℕ (List ℕ) → GoMap ℕ (List ℕ)
remove_all [] m = m
remove_all (n ∷ ns) m = remove_all ns (remove m n)

remove_all_above :
    (i : ℕ) (bytes : List ℕ) (ns : List ℕ) (m : GoMap ℕ (List ℕ))
    → All (λ n. i < n) ns
    → remove_all ns ((i, bytes) ∷ m) ≡ (i, bytes) ∷ remove_all ns m
unfolding remove_all remove
remove_all_above i bytes [] m h = refl
remove_all_above i bytes (n ∷ ns) m h =
    ap (remove_all ns) (ground (arith, h.0)) ∙ remove_all_above i bytes ns (remove m n) h.1

victims_above :
    (i bound n : ℕ) (old : Segments)
    → i < first_or old n
    → Ascends old n
    → All (λ k. i < k) (victims bound old)
unfolding victims
victims_above i bound n [] l h = tt
victims_above i bound n ((j, es) ∷ old) l h = elim (Bool-cases (ltb (max_index 0 es) bound)) [
  | inl low ↦ rw (victims, low) ((l, victims_above i bound n old (omega (arith, l, h.0)) h.1))
  | inr high ↦ rw (victims, high) (victims_above i bound n old (omega (arith, l, h.0)) h.1)
]

delete_segments-disk :
    (ns : List ℕ) (w : Writer) → (delete_segments ns w).disk ≡ remove_all ns w.disk
unfolding delete_segments delete_segment_files remove_all
delete_segments-disk [] w = refl
delete_segments-disk (n ∷ ns) w = delete_segments-disk ns (delete_segment_files n w)

delete_segments_same :
    (ns : List ℕ) (w : Writer)
    → ((delete_segments ns w).seg_idx ≡ w.seg_idx) × ((delete_segments ns w).buf ≡ w.buf)
unfolding delete_segments delete_segment_files
delete_segments_same [] w = (refl, refl)
delete_segments_same (n ∷ ns) w = delete_segments_same ns (delete_segment_files n w)

module _ {Fits : Envelope → Type 0} (proto : EnvelopeProto Fits) where
  has_below :
      (old : Segments) (n i : ℕ) (bytes : List ℕ)
      → i < first_or old n
      → Ascends old n
      → has (stored proto old ++ ((n, bytes) ∷ [])) i ≡ false
  unfolding has
  has_below [] n i bytes l h = ground (arith, l)
  has_below ((j, es) ∷ old) n i bytes l h =
      ground (arith, l, has_below old n i bytes (omega (arith, l, h.0)) h.1)

  remove_all-stored :
      (bound n : ℕ) (old : Segments) (bytes : List ℕ)
      → Ascends old n
      → remove_all (victims bound old) (stored proto old ++ ((n, bytes) ∷ []))
        ≡ stored proto (survivors bound old) ++ ((n, bytes) ∷ [])
  unfolding victims survivors remove_all remove
  remove_all-stored bound n [] bytes h = refl
  remove_all-stored bound n ((i, es) ∷ old) bytes h =
      let files = stored proto old ++ ((n, bytes) ∷ []) in
      elim (Bool-cases (ltb (max_index 0 es) bound)) [
        | inl low ↦
            rw (victims, survivors, low)
              (ap (remove_all (victims bound old))
                  (ground (arith, remove_absent files i (has_below old n i bytes h.0 h.1)))
                ∙ remove_all-stored bound n old bytes h.1)
        | inr high ↦
            rw (victims, survivors, high)
              (remove_all_above i (frames proto es) (victims bound old) files
                  (victims_above i bound n old h.0 h.1)
                ∙ ap (λ m. (i, frames proto es) ∷ m) (remove_all-stored bound n old bytes h.1))
      ]

  max_index-frames :
      (es : List Envelope)
      → All (Storable proto) es
      → max_index_in_segment proto (frames proto es) ≡ (max_index 0 es, none)
  unfolding max_index_in_segment scan
  max_index-frames es h =
      max_index_loop-scan proto (suc (length (frames proto es))) 0 (frames proto es)
      ∙ ap (λ r. (max_index 0 r.0, r.1)) (scan_all proto es h)

  doomed-stored :
      (bound n : ℕ) (old : Segments) (bytes : List ℕ)
      → Ascends old n
      → All (Storable proto) (flat old)
      → doomed proto n bound (stored proto old ++ ((n, bytes) ∷ [])) ≡ (victims bound old, none)
  unfolding doomed victims
  doomed-stored bound n [] bytes h good = ground arith
  doomed-stored bound n ((i, es) ∷ old) bytes h good =
      let parts = All-split (Storable proto) es (flat old) good in
      ground (
        arith,
        h.0,
        Ascends-below old n h.1,
        max_index-frames es parts.0,
        doomed-stored bound n old bytes h.1 parts.1,
      )

  prune_through-victims :
      (bound : ℕ) (w : Writer) (es : List Envelope) (h : Logs proto w es)
      → w.is_closed ≡ false
      → nat_beq bound 0 ≡ false
      → w.seg_idx < 10
      → All (Storable proto) es
      → prune_through proto bound w
        ≡ ((length (victims bound h.old), none), delete_segments (victims bound h.old) w)
  unfolding prune_through
  prune_through-victims bound w es h opened some_bound few good =
      let found = doomed proto w.seg_idx bound (sorted_segments w.disk) in
      let done : (ℕ × Option PruneError) × Writer =
        ((length found.0, found.1), delete_segments found.0 w) in
      if-false (nat_beq bound 0) ((0, none), w)
        (if w.is_closed then ((0, some writer_closed), w) else done) some_bound
      ∙ if-false w.is_closed ((0, some writer_closed), w) done opened
      ∙ ap (λ r. ((length r.0, r.1), delete_segments r.0 w))
          (ap (doomed proto w.seg_idx bound) (
              ap sorted_segments h.disk_is
              ∙ sorted_segments-stored proto h.old w.seg_idx h.on_disk h.ascends few)
            ∙ doomed-stored bound w.seg_idx h.old h.on_disk h.ascends
                (All-split (Storable proto) (flat h.old) h.current
                  (subst (All (Storable proto)) (sym h.all_is) good)).0)

  victims-Logs :
      (bound : ℕ) (w : Writer) (es : List Envelope) (h : Logs proto w es)
      → Logs proto
          (delete_segments (victims bound h.old) w)
          (flat (survivors bound h.old) ++ h.current)
  victims-Logs bound w es h =
      let ns = victims bound h.old in
      record {
        old = survivors bound h.old;
        current = h.current;
        on_disk = h.on_disk;
        disk_is =
            delete_segments-disk ns w
            ∙ ap (remove_all ns) h.disk_is
            ∙ remove_all-stored bound w.seg_idx h.old h.on_disk h.ascends
            ∙ ap (λ i. stored proto (survivors bound h.old) ++ ((i, h.on_disk) ∷ []))
                (sym (delete_segments_same ns w).0);
        active_is = ap (λ bs. h.on_disk ++ bs) (delete_segments_same ns w).1 ∙ h.active_is;
        ascends =
            subst (Ascends (survivors bound h.old)) (sym (delete_segments_same ns w).0)
              (survivors-Ascends bound h.old w.seg_idx h.ascends);
        all_is = refl;
      }

  -- Of a log of at most ten segments, PruneThrough loses no envelope whose index is the bound or more:
  -- what is left is a log whose envelopes from the bound on are those of before, in their order. It
  -- reports the number of the segments before the active one whose indices are all below the bound, and
  -- no error. The conditions are that the writer is open, that the bound is not 0 and that protobuf reads
  -- the envelopes back, with encodings that are not empty and shorter than 2 ^ 32 bytes.
  pub prune_through-Logs :
      (bound : ℕ) (w : Writer) (es : List Envelope) (h : Logs proto w es)
      → w.is_closed ≡ false
      → nat_beq bound 0 ≡ false
      → w.seg_idx < 10
      → All (Storable proto) es
      → ((prune_through proto bound w).0 ≡ (length (victims bound h.old), none))
        × ((ds : List Envelope) × Logs proto (prune_through proto bound w).1 ds
            × (from_bound bound ds ≡ from_bound bound es))
  unfolding prune_through
  prune_through-Logs bound w es h opened some_bound few good =
      let pruned = prune_through-victims bound w es h opened some_bound few good in
      (
        ap (λ r. r.0) pruned,
        (
          flat (survivors bound h.old) ++ h.current,
          subst (λ v. Logs proto v (flat (survivors bound h.old) ++ h.current))
              (sym (ap (λ r. r.1) pruned)) (victims-Logs bound w es h),
          from_bound-append bound (flat (survivors bound h.old)) h.current
              ∙ ap (λ xs. xs ++ from_bound bound h.current) (survivors-from_bound bound h.old)
              ∙ sym (from_bound-append bound (flat h.old) h.current)
              ∙ ap (from_bound bound) h.all_is,
        ),
      )
