-- ===== src/Bucket/Runtime/Replay.antt =====
-- The loop applies each entry of the log once, in the order of the log.
use mathlib.Core.List.{append-nil, append_assoc}
use seven_db.Common.{
  ℕ, suc, ◌+◌, ◌%◌, ◌^◌, ◌≡◌, ◌<◌, ◌≤◌, refl, sym, ap, subst, ◌∙◌, List, [], ◌∷◌, ◌++◌, arith, none,
  some, Bool-cases, inl, inr, ltb,
}
use seven_db.Common.Comparable.{Comparable, ◌==◌}
use seven_db.Common.Lists.{length, length-append, drop, All}
use seven_db.Bucket.Frame.{WalEntry, EntryJson}
use seven_db.Bucket.FileLog.{
  FileBucketLog, Call, append_call, read_call, restart, read, new_file_bucket_log,
}
use seven_db.Bucket.FileLog.Content.{Numbered, Holds, read-Holds, open_bucket-Holds, next_entry}
use seven_db.Bucket.FileLog.Calls.{
  KeepsCall, log_call, extend, call-Holds, length-log_call, new-Holds,
}
use seven_db.Bucket.Runtime.{Bucket, new_bucket, drain, Step, round, other, run_round, step, steps}

drop-append {ℓ} : {A : Type ℓ} (xs ys : List A) → drop (length xs) (xs ++ ys) ≡ ys
drop-append [] ys = refl
drop-append (x ∷ xs) ys = drop-append xs ys

Numbered-rest :
    {B : Type 0} (n : ℕ) (xs ys : List (WalEntry B))
    → Numbered n (xs ++ ys)
    → Numbered (n + length xs) ys
Numbered-rest n [] ys h = subst (λ k. Numbered k ys) (omega arith) h
Numbered-rest n (x ∷ xs) ys h =
    subst (λ k. Numbered k ys) (omega arith) (Numbered-rest (suc n) xs ys h.1)

drain-applied :
    {B : Type 0} (es : List (WalEntry B)) (b : Bucket B) → (drain es b).applied ≡ b.applied ++ es
unfolding drain
drain-applied [] b = sym (append-nil b.applied)
drain-applied (e ∷ es) b =
    drain-applied es
      (record { id = b.id; last_applied = e.commit_index; applied = b.applied ++ (e ∷ []) })
    ∙ append_assoc b.applied (e ∷ []) es

drain-id : {B : Type 0} (es : List (WalEntry B)) (b : Bucket B) → (drain es b).id ≡ b.id
unfolding drain
drain-id [] b = refl
drain-id (e ∷ es) b =
    drain-id es
      (record { id = b.id; last_applied = e.commit_index; applied = b.applied ++ (e ∷ []) })

drain-last_applied :
    {B : Type 0} (n : ℕ) (es : List (WalEntry B)) (b : Bucket B)
    → Numbered n es
    → b.last_applied ≡ n
    → (drain es b).last_applied ≡ n + length es
unfolding drain
drain-last_applied n [] b h l = omega (arith, l)
drain-last_applied n (e ∷ es) b h l = ground (
  arith,
  drain-last_applied (suc n) es
      (record { id = b.id; last_applied = e.commit_index; applied = b.applied ++ (e ∷ []) }) h.1
      h.0,
)

-- JSON keeps the buckets of the calls
abbrev pub KeepsStep : {B : Type 0} → (B → Type 0) → Step B → Type 0
KeepsStep Keeps round = Unit
KeepsStep Keeps (other c) = KeepsCall Keeps c

-- what was applied is the beginning of the log
pub record IsInStep {B : Type 0} (b : Bucket B) (es : List (WalEntry B)) : Type 0 where
  pub rest : List (WalEntry B)
  pub is_prefix : es ≡ b.applied ++ rest
  pub is_counted : b.last_applied ≡ length b.applied

module _ {B : Type 0} ⦃key : Comparable B⦄ {Keeps : B → Type 0} (json : EntryJson B Keeps) where
  read_rest :
      (b : Bucket B) (f : FileBucketLog B) (es : List (WalEntry B))
      → length es + 1 < 2 ^ 64
      → Holds json f b.id es
      → (s : IsInStep b es) → (read json b.id (suc b.last_applied % 2 ^ 64) f).0 ≡ s.rest
  read_rest b f es short h s =
      ap (λ i. (read json b.id i f).0)
        (omega (arith, short, s.is_counted, ap length s.is_prefix, length-append b.applied s.rest))
      ∙ read-Holds json f b.id (length b.applied) es h
      ∙ ap (drop (length b.applied)) s.is_prefix
      ∙ drop-append b.applied s.rest

  pub run_round_applied :
      (b : Bucket B) (f : FileBucketLog B) (es : List (WalEntry B))
      → length es + 1 < 2 ^ 64
      → Holds json f b.id es
      → IsInStep b es
      → ((run_round json b f).0.applied ≡ es) × ((run_round json b f).0.last_applied ≡ length es)
  unfolding run_round
  run_round_applied b f es short h s = rw (read_rest b f es short h s) (
    drain-applied s.rest b ∙ sym s.is_prefix,
    ground (
      arith,
      drain-last_applied (length b.applied) s.rest b
          (subst (λ k. Numbered k s.rest) (omega arith)
            (Numbered-rest 0 b.applied s.rest (subst (Numbered 0) s.is_prefix h.are_numbered)))
          s.is_counted,
      ap length s.is_prefix,
      length-append b.applied s.rest,
    ),
  )

  -- the entries of the bucket, as the calls of the steps extend them
  unfoldable pub log_step : B → Step B → List (WalEntry B) → List (WalEntry B)
  log_step b round es = es
  log_step b (other c) es = log_call json b c es

  unfoldable pub log_steps : B → List (Step B) → List (WalEntry B) → List (WalEntry B)
  unfolding log_step
  log_steps b [] es = es
  log_steps b (s ∷ ss) es = log_steps b ss (log_step b s es)

  -- the bucket's file holds the log of which the bucket applied a beginning
  abbrev IsRunning : B → Bucket B × FileBucketLog B → List (WalEntry B) → Type 0
  IsRunning i (b, f) es = (b.id ≡ i) × Holds json f i es × IsInStep b es

  log_call_grows :
      (b : B) (c : Call B) (es : List (WalEntry B))
      → (more : List (WalEntry B)) × (log_call json b c es ≡ es ++ more)
  unfolding log_call extend
  log_call_grows b (append_call now none) es = ([], sym (append-nil es))
  log_call_grows b (append_call now (some e)) es = elim (Bool-cases (e.bucket_id == b)) [
    | inl own ↦
        elim (Bool-cases (ltb 2147483647 (length (json.marshal (next_entry json now e es))))) [
          | inl large ↦ rw (own, large) ([], sym (append-nil es))
          | inr fits ↦ rw (own, fits) (next_entry json now e es ∷ [], refl)
        ]
    | inr foreign ↦ rw foreign ([], sym (append-nil es))
  ]
  log_call_grows b (read_call c from) es = ([], sym (append-nil es))
  log_call_grows b restart es = ([], sym (append-nil es))

  call-IsInStep :
      (c : Call B) (b : Bucket B) (i : B) (es : List (WalEntry B))
      → IsInStep b es
      → IsInStep b (log_call json i c es)
  call-IsInStep c b i es s = record {
    rest = s.rest ++ (log_call_grows i c es).0;
    is_prefix =
        (log_call_grows i c es).1
        ∙ ap (λ xs. xs ++ (log_call_grows i c es).0) s.is_prefix
        ∙ append_assoc b.applied s.rest (log_call_grows i c es).0;
    is_counted = s.is_counted;
  }

  new-IsInStep : (i : B) (es : List (WalEntry B)) → IsInStep (new_bucket i) es
  unfolding new_bucket
  new-IsInStep i es = record { rest = es; is_prefix = refl; is_counted = refl }

  new_bucket-id : (i : B) → (new_bucket i).id ≡ i
  unfolding new_bucket
  new_bucket-id i = refl

  step-IsRunning :
      (s : Step B) (i : B) (b : Bucket B) (f : FileBucketLog B) (es : List (WalEntry B))
      → KeepsStep Keeps s
      → length es + 1 < 2 ^ 64
      → IsRunning i (b, f) es
      → IsRunning i (step json s b f) (log_step i s es)
  unfolding step log_step run_round read new_bucket
  step-IsRunning round i b f es k short h =
      let done =
        run_round_applied b f es short (subst (λ j. Holds json f j es) (sym h.0) h.1) h.2 in
      (
        drain-id (read json b.id (suc b.last_applied % 2 ^ 64) f).0 b ∙ h.0,
        open_bucket-Holds json f i b.id es h.1,
        record {
          rest = [];
          is_prefix = sym done.0 ∙ sym (append-nil _);
          is_counted = done.1 ∙ ap length (sym done.0);
        },
      )
  step-IsRunning (other (append_call now o)) i b f es k short h = (
    h.0,
    call-Holds json (append_call now o) f i es k short h.1,
    call-IsInStep (append_call now o) b i es h.2,
  )
  step-IsRunning (other (read_call c from)) i b f es k short h = (
    h.0,
    call-Holds json (read_call c from) f i es k short h.1,
    call-IsInStep (read_call c from) b i es h.2,
  )
  step-IsRunning (other restart) i b f es k short h = (
    h.0,
    call-Holds json restart f i es k short h.1,
    call-IsInStep restart (new_bucket b.id) i es (new-IsInStep b.id es),
  )

  length-log_step :
      (b : B) (s : Step B) (es : List (WalEntry B)) → length (log_step b s es) ≤ length es + 1
  unfolding log_step
  length-log_step b round es = omega arith
  length-log_step b (other c) es = length-log_call json b c es

  pub steps-IsRunning :
      (ss : List (Step B)) (i : B) (b : Bucket B) (f : FileBucketLog B) (es : List (WalEntry B))
      → All (KeepsStep Keeps) ss
      → length es + length ss < 2 ^ 64
      → IsRunning i (b, f) es
      → IsRunning i (steps json ss b f) (log_steps i ss es)
  unfolding steps log_steps
  steps-IsRunning [] i b f es k short h = h
  steps-IsRunning (s ∷ ss) i b f es k short h =
      steps-IsRunning ss i (step json s b f).0 (step json s b f).1 (log_step i s es) k.1
        (omega (arith, short, length-log_step i s es))
        (step-IsRunning s i b f es k.0 (omega (arith, short)) h)

  length-log_steps :
      (b : B) (ss : List (Step B)) (es : List (WalEntry B))
      → length (log_steps b ss es) ≤ length es + length ss
  unfolding log_steps
  length-log_steps b [] es = omega arith
  length-log_steps b (s ∷ ss) es =
      omega (arith, length-log_step b s es, length-log_steps b ss (log_step b s es))

  -- On an empty disk, whatever appends, reads, restarts and rounds of Run came before, fewer than 2^64 - 1 of them and for
  -- buckets whose ids JSON keeps, after one more round the callback has had every entry of the bucket's log once, in the
  -- log's order, since the last restart.
  pub run_applies :
      (ss : List (Step B)) (i : B)
      → All (KeepsStep Keeps) ss
      → length ss + 1 < 2 ^ 64
      → (let reached = steps json ss (new_bucket i) (new_file_bucket_log []) in
          (run_round json reached.0 reached.1).0.applied)
        ≡ log_steps i ss []
  run_applies ss i k short =
      let reached = steps json ss (new_bucket i) (new_file_bucket_log []) in
      let running =
        steps-IsRunning ss i (new_bucket i) (new_file_bucket_log []) [] k (omega (arith, short))
          (new_bucket-id i, new-Holds json i, new-IsInStep i []) in
      (run_round_applied reached.0 reached.1 (log_steps i ss [])
        (omega (arith, short, length-log_steps i ss []))
        (subst (λ j. Holds json reached.1 j (log_steps i ss [])) (sym running.0) running.1)
        running.2).0
