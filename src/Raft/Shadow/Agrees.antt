-- ===== src/Raft/Shadow/Agrees.antt =====
-- The validator and the shadow log agree.
use mathlib.Core.List.{append-nil}
use seven_db.Common.{
  ℕ, suc, ◌-◌, ◌≡◌, refl, sym, ap, subst, ◌∙◌, Bool, true, false, Option, none, some, List, [], ◌∷◌,
  ◌++◌, if-false, nat_beq, arith,
}
use seven_db.Common.Comparable.{string_key, nat_key}
use seven_db.Common.GoMap.{GoMap}
use seven_db.Common.Lists.{length, drop}
use seven_db.RaftWal.Frame.{Envelope, EnvelopeProto}
use seven_db.RaftWal.Frame.Folds.{normals}
use seven_db.RaftWal.Writer.{Writer}
use seven_db.RaftWal.Append.{append_envelope, append_frame, follow}
use seven_db.RaftWal.Content.{Logs}
use seven_db.RaftWal.Runs.{append_frame-Logs, follow-Logs}
use seven_db.RaftWal.Open.{append_frame-IsLike, follow-IsLike}
use seven_db.RaftWal.Replay.{last_n, tail_logical_tuples}
use seven_db.RaftWal.Tail.{tuple_of}
use seven_db.RaftWal.Durable.{normals-append}
use seven_db.Raft.Validator.{WalValidator, add_checked, snapshot}
use seven_db.Raft.Validator.Window.{IsRing, add_checked-IsRing}
use seven_db.Raft.Validator.Recent.{snapshot-add_checked}
use seven_db.Raft.Validator.Seeded.{last_n-append, length-drop}
use seven_db.Raft.Shadow.{compare_tuples, compare_tail, compare_ring}

module _ {Fits : Envelope → Type 0} (proto : EnvelopeProto Fits) where
  -- an open shadow log with the envelopes, and a validator with the tail of their tuples
  pub record Shadows (wal : Option Writer) (validator : Option WalValidator) (es : List Envelope)
      : Type 0 where
    pub writer : Writer
    pub ring : WalValidator
    pub wal_is : wal ≡ some writer
    pub validator_is : validator ≡ some ring
    pub is_open : writer.is_closed ≡ false
    pub logs : Logs proto writer es
    pub is_ring : IsRing ring
    pub shows : snapshot ring ≡ last_n ring.capacity (normals tuple_of es)

  -- an envelope appended, and its tuple added
  pub one_more :
      (es : List Envelope) (wal : Option Writer) (validator : Option WalValidator) (e : Envelope)
      (h : Shadows wal validator es)
      → normals tuple_of (e ∷ []) ≡ tuple_of e ∷ []
      → Shadows
          (some (append_envelope e.raft_index (proto.marshal e) h.writer).1)
          (some (add_checked (tuple_of e) h.ring))
          (es ++ (e ∷ []))
  unfolding append_envelope add_checked
  one_more es wal validator e h kept =
      let w = h.writer in
      let next = append_frame e.raft_index (proto.marshal e) (follow e.raft_index w) in
      let done : Bool × Writer = (true, next) in
      let followed = follow-IsLike w.config false e.raft_index w (refl, h.is_open) in
      record {
        writer = next;
        ring = add_checked (tuple_of e) h.ring;
        wal_is = ap (λ r. some r.1) (if-false w.is_closed (false, w) done h.is_open);
        validator_is = refl;
        is_open =
            (append_frame-IsLike w.config false e.raft_index (proto.marshal e)
              (follow e.raft_index w) followed).1;
        logs =
            append_frame-Logs proto e.raft_index e (follow e.raft_index w)
              (follow-Logs proto e.raft_index w h.logs);
        is_ring = add_checked-IsRing (tuple_of e) h.ring h.is_ring;
        shows =
            snapshot-add_checked (tuple_of e) h.ring h.is_ring
            ∙ ap (λ ts. last_n h.ring.capacity (ts ++ (tuple_of e ∷ []))) h.shows
            ∙ last_n-append h.ring.capacity (normals tuple_of es) (tuple_of e ∷ [])
            ∙ ap (λ ts. last_n h.ring.capacity (normals tuple_of es ++ ts)) (sym kept)
            ∙ ap (last_n h.ring.capacity) (sym (normals-append tuple_of es (e ∷ [])));
      }

  pub nothing_more :
      (wal : Option Writer) (validator : Option WalValidator) (es : List Envelope)
      → Shadows wal validator es
      → Shadows wal validator (es ++ [])
  nothing_more wal validator es h = subst (λ ds. Shadows wal validator ds) (sym (append-nil es)) h

  compare_tuples_same : (i : ℕ) (ts : List (ℕ × ℕ)) → compare_tuples i ts ts ≡ none
  unfolding compare_tuples
  compare_tuples_same i [] = refl
  compare_tuples_same i (t ∷ ts) = ground (arith, compare_tuples_same (suc i) ts)

  pub compare_ring_same :
      (ring : List (ℕ × ℕ)) (disk : GoMap ℕ (List ℕ))
      → (nat_beq (length ring) 0 ≡ false
          → tail_logical_tuples proto disk (length ring) ≡ (ring, none))
      → compare_ring proto ring disk ≡ none
  unfolding compare_ring compare_tail
  compare_ring_same [] disk h = refl
  compare_ring_same (r ∷ ring) disk h =
      ap (compare_tail (r ∷ ring)) (h (ground arith))
      ∙ ground (arith, compare_tuples_same 0 (r ∷ ring))

pub same_last :
    (n : ℕ) (xs ring : List (ℕ × ℕ)) → ring ≡ last_n n xs → last_n (length ring) xs ≡ ring
unfolding last_n
same_last n xs ring e =
    ap (λ k. drop k xs) {x = length xs - length ring} {y = length xs - n}
      (omega (arith, ap length e, length-drop (length xs - n) xs))
    ∙ sym e
