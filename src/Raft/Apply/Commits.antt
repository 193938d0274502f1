-- ===== src/Raft/Apply/Commits.antt =====
-- The commit indices that the committed records of a bucket get.
use mathlib.Core.List.{append-nil}
use seven_db.Common.{
  ℕ, suc, ◌+◌, ◌%◌, ◌^◌, ◌≡◌, ◌<◌, refl, sym, ap, subst, ◌∙◌, String, Bool, true, false, Option,
  none, some, [], ◌∷◌, ◌++◌, if◌then◌else◌, if-false, arith, Bool-cases, Option-cases, if-true, inl,
  inr,
}
use native.Mathlib.Nat.{mod-eq_of_lt}
use seven_db.Common.Comparable.{◌==◌, string_key, nat_key}
use seven_db.Common.GoMap.{get, put, or_zero}
use seven_db.Common.GoMap.Laws.{get-put}
use seven_db.Emission.Raft.{RaftLogRecord, CommittedRecord}
use seven_db.RaftWal.Frame.{Envelope, EnvelopeProto}
use seven_db.Raft.Types.{Entry, WireRecord, Node, aborted, applied}
use seven_db.Raft.Apply.{
  set_shadow, assign, finish, next_commit, shadow_normal, deliver, apply_record, apply_decoded,
  answer, record_of,
}
use text.Mathlib.TextEquality.{eq_iff}
use seven_db.Raft.Apply.Counts.{
  commit_of, commits_of, commits_of-append, after, decoded_count, Adds,
}

module _ {W : Type 0} {Fits : Envelope → Type 0} (proto : EnvelopeProto Fits)
    (handle : RaftLogRecord ℕ → W → W × Bool) (taken : CommittedRecord ℕ → Bool) where
  pub nothing :
      (b : String) (s t : Node W)
      → t.per_bucket_commit ≡ s.per_bucket_commit
      → t.sent ≡ s.sent
      → Adds b 0 s t
  unfolding commit_of after
  nothing b s t same sent = (
    ap (λ m. or_zero 0 (get m b)) same ∙ omega arith,
    ap (commits_of b) sent ∙ sym (append-nil (commits_of b s.sent)),
  )

  -- the shadow log is apart from the commit indices
  shadow_normal_same :
      (ent : Entry) (wr : WireRecord) (s : Node W)
      → ((shadow_normal proto ent wr s).per_bucket_commit ≡ s.per_bucket_commit)
        × ((shadow_normal proto ent wr s).sent ≡ s.sent)
        × ((shadow_normal proto ent wr s).world ≡ s.world)
  unfolding shadow_normal set_shadow
  shadow_normal_same ent wr s = elim (Option-cases s.wal_shadow) [
    | inl unset ↦ rw (shadow_normal, unset) (refl, refl, refl)
    | inr (w, set) ↦ rw (shadow_normal, set) (refl, refl, refl)
  ]

  -- the node under the mutex
  abbrev assigned : Entry → WireRecord → Node W → Node W
  assigned ent wr s = assign ent wr (shadow_normal proto ent wr s)

  abbrev waiter_of : WireRecord → Node W → Option ℕ
  waiter_of wr s = get s.waiters_seq wr.seq

  -- an entry without a bucket
  apply_record_unnamed :
      (ent : Entry) (wr : WireRecord) (s : Node W)
      → (wr.log_record.bucket_id == "") ≡ true
      → apply_record proto handle taken ent wr s
        ≡ finish [] (answer (waiter_of wr s) (applied 0 ent.index)) s.world (assigned ent wr s)
  unfolding apply_record
  apply_record_unnamed ent wr s h =
      if-true (wr.log_record.bucket_id == "")
        (finish [] (answer (waiter_of wr s) (applied 0 ent.index)) s.world (assigned ent wr s))
        (deliver handle taken ent wr (waiter_of wr s) (next_commit wr.log_record.bucket_id s)
          (assigned ent wr s))
        h

  -- an entry of a bucket that the handler does not abort
  apply_record_named :
      (ent : Entry) (wr : WireRecord) (s : Node W)
      → (wr.log_record.bucket_id == "") ≡ false
      → ((w : W) → (handle wr.log_record w).1 ≡ false)
      → ((cr : CommittedRecord ℕ) → taken cr ≡ true)
      → apply_record proto handle taken ent wr s
        ≡ finish
            (record_of ent wr (next_commit wr.log_record.bucket_id s) ∷ [])
            (answer (waiter_of wr s) (applied (next_commit wr.log_record.bucket_id s) ent.index))
            (handle wr.log_record (assigned ent wr s).world).0
            (assigned ent wr s)
  unfolding apply_record deliver
  apply_record_named ent wr s named good keeps_up =
      let n = next_commit wr.log_record.bucket_id s in
      let t = assigned ent wr s in
      let answered = handle wr.log_record t.world in
      if-false (wr.log_record.bucket_id == "")
        (finish [] (answer (waiter_of wr s) (applied 0 ent.index)) s.world t)
        (deliver handle taken ent wr (waiter_of wr s) n t) named
      ∙ if-false answered.1 (finish [] (answer (waiter_of wr s) aborted) answered.0 t)
          (finish (if taken (record_of ent wr n) then record_of ent wr n ∷ [] else [])
            (answer (waiter_of wr s) (applied n ent.index)) answered.0 t)
          (good t.world)
      ∙ ap (λ crs. finish crs (answer (waiter_of wr s) (applied n ent.index)) answered.0 t)
          (if-true (taken (record_of ent wr n)) (record_of ent wr n ∷ []) []
            (keeps_up (record_of ent wr n)))

  assigned-per_bucket_commit :
      (ent : Entry) (wr : WireRecord) (s : Node W)
      → (assigned ent wr s).per_bucket_commit ≡ (
          if wr.log_record.bucket_id == ""
          then s.per_bucket_commit
          else put s.per_bucket_commit wr.log_record.bucket_id
              (next_commit wr.log_record.bucket_id s))
  unfolding assign next_commit
  assigned-per_bucket_commit ent wr s =
      ap
        (λ m.
          if wr.log_record.bucket_id == ""
          then m
          else put m wr.log_record.bucket_id
              (suc (or_zero 0 (get m wr.log_record.bucket_id)) % 2 ^ 64))
        (shadow_normal_same ent wr s).0

  assigned-sent : (ent : Entry) (wr : WireRecord) (s : Node W) → (assigned ent wr s).sent ≡ s.sent
  unfolding assign
  assigned-sent ent wr s = (shadow_normal_same ent wr s).1

  unnamed-Adds :
      (b : String) (ent : Entry) (wr : WireRecord) (s : Node W)
      → (wr.log_record.bucket_id == "") ≡ true
      → Adds b 0 s (apply_record proto handle taken ent wr s)
  unfolding finish
  unnamed-Adds b ent wr s h =
      let done = apply_record_unnamed ent wr s h in
      nothing b s (apply_record proto handle taken ent wr s)
        (ap (λ t. t.per_bucket_commit) done
          ∙ assigned-per_bucket_commit ent wr s
          ∙ if-true (wr.log_record.bucket_id == "") s.per_bucket_commit
              (put s.per_bucket_commit wr.log_record.bucket_id
                (next_commit wr.log_record.bucket_id s))
              h)
        (ap (λ t. t.sent) done ∙ append-nil (assigned ent wr s).sent ∙ assigned-sent ent wr s)

  next_is :
      (b c : String) (s : Node W)
      → (c == b) ≡ true
      → commit_of b s + 1 < 2 ^ 64
      → next_commit c s ≡ suc (commit_of b s)
  unfolding commit_of next_commit
  next_is b c s same fits =
      ap (λ k. suc (or_zero 0 (get s.per_bucket_commit k)) % 2 ^ 64) ((eq_iff c b).0 same)
      ∙ mod-eq_of_lt (omega (arith, fits))

  named-Adds :
      (b : String) (ent : Entry) (wr : WireRecord) (s : Node W)
      → (wr.log_record.bucket_id == "") ≡ false
      → ((w : W) → (handle wr.log_record w).1 ≡ false)
      → ((cr : CommittedRecord ℕ) → taken cr ≡ true)
      → commit_of b s + 1 < 2 ^ 64
      → Adds b (decoded_count b (some wr)) s (apply_record proto handle taken ent wr s)
  unfolding finish commit_of next_commit commits_of after
  named-Adds b ent wr s h good keeps_up fits =
      let c = wr.log_record.bucket_id in
      let n = next_commit c s in
      let done = apply_record_named ent wr s h good keeps_up in
      let table =
        ap (λ t. t.per_bucket_commit) done
        ∙ assigned-per_bucket_commit ent wr s
        ∙ if-false (c == "") s.per_bucket_commit (put s.per_bucket_commit c n) h in
      let sent =
        ap (λ t. t.sent) done
        ∙ ap (λ xs. xs ++ (record_of ent wr n ∷ [])) (assigned-sent ent wr s) in
      (
        ap (λ m. or_zero 0 (get m b)) table
            ∙ ap (or_zero 0) (get-put s.per_bucket_commit c n b)
            ∙ elim (Bool-cases (c == b)) [
              | inl same ↦ rw same (next_is b c s same fits ∙ omega arith)
              | inr other ↦ rw other (omega arith)
            ],
        ap (commits_of b) sent
            ∙ commits_of-append b s.sent (record_of ent wr n ∷ [])
            ∙ ap (λ xs. commits_of b s.sent ++ xs)
                (elim (Bool-cases (c == b)) [
                  | inl same ↦ rw same (ap (λ k. k ∷ []) (next_is b c s same fits))
                  | inr other ↦ rw other refl
                ]),
      )

  -- an entry without a bucket is not one of `b`
  unnamed_count :
      (b : String) (wr : WireRecord)
      → (b == "") ≡ false
      → (wr.log_record.bucket_id == "") ≡ true
      → decoded_count b (some wr) ≡ 0
  unnamed_count b wr named h =
      ground
        (arith, eq_iff wr.log_record.bucket_id "", eq_iff wr.log_record.bucket_id b, eq_iff b "")

  pub decoded-Adds :
      (b : String) (ent : Entry) (wr : Option WireRecord) (s : Node W)
      → (b == "") ≡ false
      → ((r : RaftLogRecord ℕ) (w : W) → (handle r w).1 ≡ false)
      → ((cr : CommittedRecord ℕ) → taken cr ≡ true)
      → commit_of b s + 1 < 2 ^ 64
      → Adds b (decoded_count b wr) s (apply_decoded proto handle taken ent wr s)
  unfolding apply_decoded
  decoded-Adds b ent none s named good keeps_up fits = nothing b s s refl refl
  decoded-Adds b ent (some wr) s named good keeps_up fits =
      elim (Bool-cases (wr.log_record.bucket_id == "")) [
        | inl unnamed ↦
            subst (λ n. Adds b n s (apply_record proto handle taken ent wr s))
              (sym (unnamed_count b wr named unnamed)) (unnamed-Adds b ent wr s unnamed)
        | inr other ↦ named-Adds b ent wr s other (good wr.log_record) keeps_up fits
      ]
