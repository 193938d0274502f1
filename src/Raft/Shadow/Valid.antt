-- ===== src/Raft/Shadow/Valid.antt =====
-- ValidateShadowTail finds no difference.
use mathlib.Core.List.{append-nil}
use seven_db.Common.{
  ℕ, ◌≡◌, ◌<◌, refl, sym, ap, subst, ◌∙◌, Bool, false, Option, none, some, List, [], ◌∷◌, ◌++◌,
  if-false, if_keeps, nat_beq, arith,
}
use seven_db.Common.Comparable.{string_key, nat_key}
use seven_db.Common.Lists.{length, All}
use seven_db.Emission.Raft.{CommittedRecord, RaftLogRecord}
use seven_db.RaftWal.Frame.{Envelope, EnvelopeProto}
use seven_db.RaftWal.Frame.Scan.{Storable}
use seven_db.RaftWal.Frame.Folds.{normals}
use seven_db.RaftWal.Writer.{Config, Writer, new_writer, flush_buf}
use seven_db.RaftWal.Append.{flush}
use seven_db.RaftWal.Content.{Logs, flush_buf-Logs}
use seven_db.RaftWal.Open.{IsFlushed}
use seven_db.RaftWal.Calls.{new_writer-Logs, new_writer-seg_idx}
use seven_db.RaftWal.Replay.{last_n}
use seven_db.RaftWal.Tail.{tuple_of, tail_logical_tuples-Logs}
use seven_db.RaftWal.Durable.{All-split}
use seven_db.Raft.Validator.{snapshot, seed_tuples, new_wal_validator}
use seven_db.Raft.Validator.Seeded.{
  last_n-append, seed_tuples-IsRing, snapshot-seed_tuples, empty_ring,
}
use seven_db.Raft.Types.{Entry, WireRecord, Node}
use seven_db.Raft.Apply.{set_shadow, apply_entries}
use seven_db.Raft.Shadow.{seeded, validate_shadow_tail, seed_from, start_shadow}
use seven_db.Raft.Shadow.Agrees.{Shadows, compare_ring_same, same_last}
use seven_db.Raft.Shadow.Entries.{all_envelopes, apply_entries-Shadows}

-- the active segment of the shadow log
abbrev pub shadow_segment : Option Writer → ℕ
shadow_segment none = 0
shadow_segment (some w) = w.seg_idx

flush-IsFlushed :
    (w : Writer) → w.is_closed ≡ false → IsFlushed (flush w) × ((flush w).seg_idx ≡ w.seg_idx)
unfolding flush flush_buf
flush-IsFlushed w h = ground (arith, h)

capacity-seed_tuples : (ts : List (ℕ × ℕ)) (n : ℕ) → (seed_tuples ts (empty_ring n)).capacity ≡ n
unfolding seed_tuples
capacity-seed_tuples [] n = refl
capacity-seed_tuples (t ∷ ts) n = refl

twice : (n : ℕ) (xs : List (ℕ × ℕ)) → last_n n (last_n n xs) ≡ last_n n xs
twice n xs =
    ap (last_n n) (sym (append-nil (last_n n xs)))
    ∙ last_n-append n xs []
    ∙ ap (last_n n) (append-nil xs)

module _ {Fits : Envelope → Type 0} (proto : EnvelopeProto Fits) where
  flush-Logs : (w : Writer) (es : List Envelope) → Logs proto w es → Logs proto (flush w) es
  unfolding flush
  flush-Logs w es h =
      if_keeps (λ v. Logs proto v es) w.is_closed w (flush_buf w) h (flush_buf-Logs proto h)

module _ {W : Type 0} {Fits : Envelope → Type 0} (proto : EnvelopeProto Fits) where
  validate-Shadows :
      (s : Node W) (es : List Envelope)
      → Shadows proto s.wal_shadow s.wal_validator es
      → shadow_segment s.wal_shadow < 10
      → All (Storable proto) es
      → (validate_shadow_tail proto s).0 ≡ none
  unfolding validate_shadow_tail
  validate-Shadows s es h few good =
      let w = h.writer in
      let flushed = flush-IsFlushed w h.is_open in
      rw (h.validator_is, h.wal_is)
        (compare_ring_same proto (snapshot h.ring) (flush w).disk (λ some_tuples.
          tail_logical_tuples-Logs proto (flush w) es (length (snapshot h.ring))
            (flush-Logs proto w es h.logs) flushed.0
            (subst (λ n. n < 10) (sym (flushed.1 ∙ sym (ap shadow_segment h.wal_is))) few) good
            some_tuples
          ∙ ap (λ ts. (ts, none))
              (same_last h.ring.capacity (normals tuple_of es) (snapshot h.ring) h.shows)))

  -- a node that starts on what a process left
  start_shadow-Shadows :
      (cfg : Config) (n : ℕ) (w : Writer) (es : List Envelope) (s : Node W)
      → 0 < n
      → Logs proto w es
      → IsFlushed w
      → w.seg_idx < 10
      → All (Storable proto) es
      → Shadows proto
          (start_shadow proto cfg n w.disk w.sidecars s).wal_shadow
          (start_shadow proto cfg n w.disk w.sidecars s).wal_validator
          es
  unfolding start_shadow set_shadow new_wal_validator seeded seed_from new_writer
  start_shadow-Shadows cfg n w es s pos h empty few good =
      let v = new_writer cfg w.disk w.sidecars in
      let logs = new_writer-Logs proto cfg w es empty h in
      let tuples = last_n n (normals tuple_of es) in
      record {
        writer = v;
        ring = seed_tuples tuples (empty_ring n);
        wal_is = refl;
        validator_is =
            ap (seeded proto v.disk)
              (if-false (nat_beq n 0) none (some (empty_ring n)) (ground (arith, pos)))
            ∙ ap (λ r. some (seed_from r (empty_ring n)))
                (tail_logical_tuples-Logs proto v es n logs refl
                  (subst (λ i. i < 10) (sym (new_writer-seg_idx proto cfg w es h)) few) good
                  (ground (arith, pos)));
        is_open = refl;
        logs = logs;
        is_ring = seed_tuples-IsRing n tuples pos;
        shows =
            snapshot-seed_tuples n tuples pos
            ∙ twice n (normals tuple_of es)
            ∙ ap (λ c. last_n c (normals tuple_of es)) (sym (capacity-seed_tuples tuples n));
      }

module _ {W : Type 0} {Fits : Envelope → Type 0} (proto : EnvelopeProto Fits)
    (handle : RaftLogRecord ℕ → W → W × Bool) (taken : CommittedRecord ℕ → Bool)
    (unmarshal : List ℕ → Option WireRecord) where
  -- the node that starts on a writer's directory, after committed entries
  abbrev pub started : Config → ℕ → Writer → Node W → List Entry → Node W
  started cfg n w s ents =
      apply_entries proto handle taken unmarshal ents (start_shadow proto cfg n w.disk w.sidecars s)

  -- ValidateShadowTail reports no error after any committed entries, on a node that starts on the
  -- directory of a log with nothing buffered and seeds its validator from it. Entries that cannot be
  -- decoded are in neither the log nor the validator. The conditions are that the validator has room,
  -- that the log has at most ten segments before and after, and that protobuf reads its envelopes back,
  -- with encodings that are not empty and shorter than 2 ^ 32 bytes.
  pub validate_shadow_tail-apply_entries :
      (cfg : Config) (n : ℕ) (w : Writer) (es : List Envelope) (s : Node W) (ents : List Entry)
      → 0 < n
      → Logs proto w es
      → IsFlushed w
      → w.seg_idx < 10
      → shadow_segment (started cfg n w s ents).wal_shadow < 10
      → All (Storable proto) (es ++ all_envelopes unmarshal ents)
      → (validate_shadow_tail proto (started cfg n w s ents)).0 ≡ none
  validate_shadow_tail-apply_entries cfg n w es s ents pos h empty few still good =
      validate-Shadows proto (started cfg n w s ents) (es ++ all_envelopes unmarshal ents)
        (apply_entries-Shadows proto handle taken unmarshal ents
          (start_shadow proto cfg n w.disk w.sidecars s) es
          (start_shadow-Shadows proto cfg n w es s pos h empty few
            (All-split (Storable proto) es (all_envelopes unmarshal ents) good).0))
        still good
