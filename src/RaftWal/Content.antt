-- ===== src/RaftWal/Content.antt =====
-- The envelopes that a writer's segments stand for, and what each of its operations does to them.
use mathlib.Core.List.{append_assoc, append-nil}
use seven_db.Common.{
  ℕ, zero, suc, ◌*◌, ◌≡◌, ◌<◌, ◌≤◌, refl, sym, ap, ◌∙◌, false, List, [], ◌∷◌, ◌++◌, arith,
}
use seven_db.Common.Comparable.{nat_key}
use seven_db.Common.GoMap.{GoMap, has, put, or_zero}
use seven_db.Common.GoMap.Ends.{get-absent, put-absent, get-append, put-append}
use seven_db.Common.Lists.{length, drop}
use seven_db.RaftWal.Frame.{Envelope, EnvelopeProto}
use seven_db.RaftWal.Frame.Scan.{frame_of, frames, frames-append}
use seven_db.RaftWal.Writer.{
  Writer, write, take, passed_on, extend_file, flush_buf, file_of, open_next,
}

-- segments as the envelopes that they hold
abbrev pub Segments : Type 0
Segments = List (ℕ × List Envelope)

-- the first number of the segments, or `n`
abbrev pub first_or : Segments → ℕ → ℕ
first_or [] n = n
first_or ((i, es) ∷ old) n = i

-- their numbers rise, and stay below `n`
abbrev pub Ascends : Segments → ℕ → Type 0
Ascends [] n = Unit
Ascends ((i, es) ∷ old) n = (i < first_or old n) × Ascends old n

pub Ascends-below : (old : Segments) (n : ℕ) → Ascends old n → first_or old n ≤ n
Ascends-below [] n h = omega arith
Ascends-below ((i, es) ∷ old) n h = omega (arith, h.0, Ascends-below old n h.1)

pub Ascends-append :
    (old : Segments) (n : ℕ) (es : List Envelope)
    → Ascends old n
    → Ascends (old ++ ((n, es) ∷ [])) (suc n)
Ascends-append [] n es h = (omega arith, tt)
Ascends-append ((i, ds) ∷ []) n es h = (h.0, (omega arith, tt))
Ascends-append ((i, ds) ∷ (j, cs) ∷ old) n es h = (h.0, Ascends-append ((j, cs) ∷ old) n es h.1)

-- the envelopes of all segments
abbrev pub flat : Segments → List Envelope
flat [] = []
flat ((i, es) ∷ old) = es ++ flat old

pub flat-append :
    (old : Segments) (n : ℕ) (es : List Envelope) → flat (old ++ ((n, es) ∷ [])) ≡ flat old ++ es
flat-append [] n es = append-nil es
flat-append ((i, ds) ∷ old) n es =
    ap (λ xs. ds ++ xs) (flat-append old n es) ∙ sym (append_assoc ds (flat old) es)

take-drop : (n : ℕ) (bs : List ℕ) → take n bs ++ drop n bs ≡ bs
unfolding take
take-drop zero bs = refl
take-drop (suc n) [] = refl
take-drop (suc n) (b ∷ bs) = ap (λ xs. b ∷ xs) (take-drop n bs)

module _ {Fits : Envelope → Type 0} (proto : EnvelopeProto Fits) where
  -- the files of the segments
  abbrev pub stored : Segments → GoMap ℕ (List ℕ)
  stored [] = []
  stored ((i, es) ∷ old) = (i, frames proto es) ∷ stored old

  stored-append :
      (old : Segments) (n : ℕ) (es : List Envelope)
      → stored (old ++ ((n, es) ∷ [])) ≡ stored old ++ ((n, frames proto es) ∷ [])
  stored-append [] n es = refl
  stored-append ((i, ds) ∷ old) n es = ap (λ m. (i, frames proto ds) ∷ m) (stored-append old n es)

  pub has-stored : (old : Segments) (n k : ℕ) → Ascends old n → n ≤ k → has (stored old) k ≡ false
  unfolding has
  has-stored [] n k h l = refl
  has-stored ((i, es) ∷ old) n k h l =
      ground (arith, has-stored old n k h.1 l, Ascends-below old n h.1, h.0)

  frames-snoc :
      (es : List Envelope) (e : Envelope)
      → frames proto es ++ frame_of proto e ≡ frames proto (es ++ (e ∷ []))
  unfolding frames
  frames-snoc es e =
      ap (λ bs. frames proto es ++ bs) (sym (append-nil (frame_of proto e)))
      ∙ sym (frames-append proto es (e ∷ []))

  -- the segments on disk and the buffered bytes hold the envelopes, in their order
  pub record Logs (w : Writer) (es : List Envelope) : Type 0 where
    -- the segments before the active one, what the active one holds, and its bytes on disk
    pub old : Segments
    pub current : List Envelope
    pub on_disk : List ℕ
    pub disk_is : w.disk ≡ stored old ++ ((w.seg_idx, on_disk) ∷ [])
    pub active_is : on_disk ++ w.buf ≡ frames proto current
    pub ascends : Ascends old w.seg_idx
    pub all_is : flat old ++ current ≡ es

  module _ {w : Writer} {es : List Envelope} (h : Logs w es) where
    pub file_of_active : file_of w.disk w.seg_idx ≡ h.on_disk
    file_of_active =
        ap (λ d. file_of d w.seg_idx) h.disk_is
        ∙ ap (or_zero []) (
            get-append (stored h.old) w.seg_idx h.on_disk
              (has-stored h.old w.seg_idx w.seg_idx h.ascends (omega arith)))

    extend_file_active :
        (bytes : List ℕ)
        → extend_file bytes w ≡ stored h.old ++ ((w.seg_idx, h.on_disk ++ bytes) ∷ [])
    unfolding extend_file
    extend_file_active bytes =
        ap (λ d. put d w.seg_idx (file_of w.disk w.seg_idx ++ bytes)) h.disk_is
        ∙ put-append (stored h.old) w.seg_idx h.on_disk (file_of w.disk w.seg_idx ++ bytes)
            (has-stored h.old w.seg_idx w.seg_idx h.ascends (omega arith))
        ∙ ap (λ bs. stored h.old ++ ((w.seg_idx, bs ++ bytes) ∷ [])) file_of_active

    -- only the disk, the active segment and the buffer count
    pub Logs-same :
        (v : Writer) → v.disk ≡ w.disk → v.seg_idx ≡ w.seg_idx → v.buf ≡ w.buf → Logs v es
    Logs-same v d s b = record {
      old = h.old;
      current = h.current;
      on_disk = h.on_disk;
      disk_is = rw (d, s) h.disk_is;
      active_is = rw b h.active_is;
      ascends = rw s h.ascends;
      all_is = h.all_is;
    }

    pub write-Logs : (e : Envelope) → Logs (write (frame_of proto e) w) (es ++ (e ∷ []))
    unfolding write
    write-Logs e =
        let n = passed_on (w.config.buf_mb * 1048576) (length w.buf) (length (frame_of proto e)) in
        record {
          old = h.old;
          current = h.current ++ (e ∷ []);
          on_disk = h.on_disk ++ take n (w.buf ++ frame_of proto e);
          disk_is = extend_file_active (take n (w.buf ++ frame_of proto e));
          active_is =
              append_assoc h.on_disk (take n (w.buf ++ frame_of proto e))
                (drop n (w.buf ++ frame_of proto e))
              ∙ ap (λ bs. h.on_disk ++ bs) (take-drop n (w.buf ++ frame_of proto e))
              ∙ sym (append_assoc h.on_disk w.buf (frame_of proto e))
              ∙ ap (λ bs. bs ++ frame_of proto e) h.active_is
              ∙ frames-snoc h.current e;
          ascends = h.ascends;
          all_is =
              sym (append_assoc (flat h.old) h.current (e ∷ []))
              ∙ ap (λ xs. xs ++ (e ∷ [])) h.all_is;
        }

    pub flush_buf-Logs : Logs (flush_buf w) es
    unfolding flush_buf
    flush_buf-Logs = record {
      old = h.old;
      current = h.current;
      on_disk = h.on_disk ++ w.buf;
      disk_is = extend_file_active w.buf;
      active_is = append-nil (h.on_disk ++ w.buf) ∙ h.active_is;
      ascends = h.ascends;
      all_is = h.all_is;
    }

    open_next-disk :
        w.buf ≡ []
        → (open_next w).disk
          ≡ stored (h.old ++ ((w.seg_idx, h.current) ∷ [])) ++ ((suc w.seg_idx, []) ∷ [])
    unfolding open_next
    open_next-disk empty =
        ap (λ d. put d (suc w.seg_idx) (file_of d (suc w.seg_idx))) whole
        ∙ ap (λ o. put disk' (suc w.seg_idx) (or_zero [] o))
            (get-absent disk' (suc w.seg_idx) absent)
        ∙ put-absent disk' (suc w.seg_idx) [] absent
      where
        disk' : GoMap ℕ (List ℕ)
        disk' = stored (h.old ++ ((w.seg_idx, h.current) ∷ []))

        absent : has disk' (suc w.seg_idx) ≡ false
        absent =
            has-stored (h.old ++ ((w.seg_idx, h.current) ∷ [])) (suc w.seg_idx) (suc w.seg_idx)
              (Ascends-append h.old w.seg_idx h.current h.ascends) (omega arith)

        whole : w.disk ≡ disk'
        whole =
            h.disk_is
            ∙ ap (λ bs. stored h.old ++ ((w.seg_idx, bs) ∷ []))
                (sym (append-nil h.on_disk) ∙ ap (λ bs. h.on_disk ++ bs) (sym empty) ∙ h.active_is)
            ∙ sym (stored-append h.old w.seg_idx h.current)

    pub open_next-Logs : w.buf ≡ [] → Logs (open_next w) es
    unfolding open_next frames
    open_next-Logs empty = record {
      old = h.old ++ ((w.seg_idx, h.current) ∷ []);
      current = [];
      on_disk = [];
      disk_is = open_next-disk empty;
      active_is = refl;
      ascends = Ascends-append h.old w.seg_idx h.current h.ascends;
      all_is =
          append-nil (flat (h.old ++ ((w.seg_idx, h.current) ∷ [])))
          ∙ flat-append h.old w.seg_idx h.current
          ∙ h.all_is;
    }
