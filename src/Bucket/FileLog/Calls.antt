-- ===== src/Bucket/FileLog/Calls.antt =====
-- Sequences of calls and restarts against a list of entries that only grows.
use seven_db.Common.{
  ℕ, suc, ◌+◌, ◌^◌, ◌≡◌, ◌<◌, ◌≤◌, refl, sym, ap, subst, ◌∙◌, ◌⊎◌, inl, inr, false, Option, none,
  some, List, [], ◌∷◌, ◌++◌, if◌then◌else◌, ltb, arith, Bool-cases,
}
use mathlib.Core.List.{append-nil}
use seven_db.Common.Comparable.{Comparable, ◌==◌}
use seven_db.Common.GoMap.{get, or_zero}
use seven_db.Common.GoMap.Laws.{get-put_same, get-put_other}
use seven_db.Common.Lists.{length, length-append, drop, All, All-append}
use seven_db.Bucket.Frame.{WalEntry, EntryJson, frame}
use seven_db.Bucket.Frame.Scan.{Storable, frames, frames-append}
use seven_db.Bucket.FileLog.{
  FileBucketLog, AppendError, too_large, stamp, file_of, open_bucket, write_entry, stamped, append,
  read, Call, append_call, read_call, restart, call, calls, new_file_bucket_log,
}
use seven_db.Bucket.FileLog.Content.{
  Numbered-append, Holds, open_bucket-Holds, read-Holds, next_entry, stamped-next_entry,
}

-- JSON keeps the bucket of the call
abbrev pub KeepsCall : {B : Type 0} → (B → Type 0) → Call B → Type 0
KeepsCall Keeps (append_call now none) = Unit
KeepsCall Keeps (append_call now (some e)) = Keeps e.bucket_id
KeepsCall Keeps (read_call b from) = Unit
KeepsCall Keeps restart = Unit

module _ {B : Type 0} ⦃key : Comparable B⦄ {Keeps : B → Type 0} (json : EntryJson B Keeps) where
  -- the list with one entry more, unless its encoding is too large
  unfoldable pub extend : WalEntry B → List (WalEntry B) → List (WalEntry B)
  extend e es = if ltb 2147483647 (length (json.marshal e)) then es else es ++ (e ∷ [])

  -- what a call does to the list of a bucket
  unfoldable pub log_call : B → Call B → List (WalEntry B) → List (WalEntry B)
  unfolding extend
  log_call b (append_call now none) es = es
  log_call b (append_call now (some e)) es =
      if e.bucket_id == b then extend (next_entry json now e es) es else es
  log_call b (read_call c from) es = es
  log_call b restart es = es

  unfoldable pub log_calls : B → List (Call B) → List (WalEntry B) → List (WalEntry B)
  unfolding log_call
  log_calls b [] es = es
  log_calls b (c ∷ cs) es = log_calls b cs (log_call b c es)

  extend-Holds :
      (f : FileBucketLog B) (e : WalEntry B) (es : List (WalEntry B))
      → Keeps e.bucket_id
      → Keeps e.epoch.bucket
      → e.commit_index ≡ suc (length es)
      → Holds json f e.bucket_id es
      → Holds json (write_entry json e f).1 e.bucket_id (extend e es)
  unfolding write_entry extend frames
  extend-Holds f e es k l i h = elim (Bool-cases (ltb 2147483647 (length (json.marshal e)))) [
    | inl large ↦ rw large h
    | inr fits ↦ rw fits (record {
      in_file =
          ap (or_zero [])
            (get-put_same f.disk e.bucket_id (file_of json f e.bucket_id ++ frame (json.marshal e)))
          ∙ ap (λ bs. bs ++ frame (json.marshal e)) h.in_file
          ∙ ap (λ bs. frames json es ++ bs) (sym (append-nil (frame (json.marshal e))))
          ∙ sym (frames-append json es (e ∷ []));
      are_storable = All-append (Storable json) es h.are_storable (k, l, ground arith);
      are_numbered = Numbered-append 0 es e h.are_numbered (ground (arith, i));
      has_no_epoch = h.has_no_epoch;
      is_counted = inr (
          get-put_same f.commit_idx e.bucket_id e.commit_index
          ∙ ap some (ground (arith, i, length-append es (e ∷ []))));
    })
  ]

  write_entry_other :
      (f : FileBucketLog B) (e : WalEntry B) (b : B) (es : List (WalEntry B))
      → (e.bucket_id == b) ≡ false
      → Holds json f b es
      → Holds json (write_entry json e f).1 b es
  unfolding write_entry
  write_entry_other f e b es other h =
      elim (Bool-cases (ltb 2147483647 (length (json.marshal e)))) [
        | inl large ↦ rw large h
        | inr fits ↦ rw fits (record {
          in_file =
              ap (or_zero []) (
                get-put_other f.disk e.bucket_id b
                  (file_of json f e.bucket_id ++ frame (json.marshal e)) other)
              ∙ h.in_file;
          are_storable = h.are_storable;
          are_numbered = h.are_numbered;
          has_no_epoch = h.has_no_epoch;
          is_counted =
              subst (λ o. (o ≡ none) ⊎ (o ≡ some (length es)))
                (sym (get-put_other f.commit_idx e.bucket_id b e.commit_index other)) h.is_counted;
        })
      ]

  append_own :
      (now : ℕ) (e : WalEntry B) (f : FileBucketLog B) (es : List (WalEntry B))
      → Keeps e.bucket_id
      → length es + 1 < 2 ^ 64
      → Holds json f e.bucket_id es
      → Holds json (append json now (some e) f).1 e.bucket_id (extend (next_entry json now e es) es)
  unfolding append stamp
  append_own now e f es k short h =
      subst
        (λ d.
          Holds json (write_entry json d (open_bucket json e.bucket_id f)).1 e.bucket_id
            (extend (next_entry json now e es) es))
        (sym (stamped-next_entry json f now e es short h))
        (extend-Holds (open_bucket json e.bucket_id f) (next_entry json now e es) es k k refl
          (open_bucket-Holds json f e.bucket_id e.bucket_id es h))

  append-Holds :
      (now : ℕ) (e : WalEntry B) (f : FileBucketLog B) (b : B) (es : List (WalEntry B))
      → Keeps e.bucket_id
      → length es + 1 < 2 ^ 64
      → Holds json f b es
      → Holds json (append json now (some e) f).1 b (log_call b (append_call now (some e)) es)
  unfolding append log_call stamp stamped
  append-Holds now e f b es k short h = elim (Bool-cases (e.bucket_id == b)) [
    | inl same ↦ rw same (
        subst
          (λ c. Holds json (append json now (some e) f).1 c (extend (next_entry json now e es) es))
          ((key.equal_iff e.bucket_id b).0 same)
          (append_own now e f es k short
            (subst (λ c. Holds json f c es) (sym ((key.equal_iff e.bucket_id b).0 same)) h)))
    | inr other ↦ rw other (
        write_entry_other (open_bucket json e.bucket_id f)
          (stamped json now e (open_bucket json e.bucket_id f)) b es other
          (open_bucket-Holds json f b e.bucket_id es h))
  ]

  pub call-Holds :
      (c : Call B) (f : FileBucketLog B) (b : B) (es : List (WalEntry B))
      → KeepsCall Keeps c
      → length es + 1 < 2 ^ 64
      → Holds json f b es
      → Holds json (call json c f) b (log_call b c es)
  unfolding call log_call append read new_file_bucket_log get
  call-Holds (append_call now none) f b es k short h = h
  call-Holds (append_call now (some e)) f b es k short h = append-Holds now e f b es k short h
  call-Holds (read_call c from) f b es k short h = open_bucket-Holds json f b c es h
  call-Holds restart f b es k short h = record {
    in_file = h.in_file;
    are_storable = h.are_storable;
    are_numbered = h.are_numbered;
    has_no_epoch = refl;
    is_counted = inl refl;
  }

  pub length-log_call :
      (b : B) (c : Call B) (es : List (WalEntry B)) → length (log_call b c es) ≤ length es + 1
  unfolding log_call extend
  length-log_call b (append_call now none) es = omega arith
  length-log_call b (append_call now (some e)) es =
      ground (arith, length-append es (next_entry json now e es ∷ []))
  length-log_call b (read_call c from) es = omega arith
  length-log_call b restart es = omega arith

  pub calls-Holds :
      (cs : List (Call B)) (f : FileBucketLog B) (b : B) (es : List (WalEntry B))
      → All (KeepsCall Keeps) cs
      → length es + length cs < 2 ^ 64
      → Holds json f b es
      → Holds json (calls json cs f) b (log_calls b cs es)
  unfolding calls log_calls
  calls-Holds [] f b es k short h = h
  calls-Holds (c ∷ cs) f b es k short h =
      calls-Holds cs (call json c f) b (log_call b c es) k.1
        (omega (arith, short, length-log_call b c es))
        (call-Holds c f b es k.0 (omega (arith, short)) h)

  pub new-Holds : (b : B) → Holds json (new_file_bucket_log []) b []
  unfolding new_file_bucket_log get frames
  new-Holds b = record {
    in_file = refl;
    are_storable = tt;
    are_numbered = tt;
    has_no_epoch = refl;
    is_counted = inl refl;
  }

  -- On an empty disk, after fewer than 2^64 appends, reads and restarts in any order, for buckets whose ids JSON keeps,
  -- Read of a bucket from the index i + 1 delivers the bucket's log without its first i entries. The log has one entry for
  -- each append of an entry of the bucket whose encoding has at most 2^31 - 1 bytes, with the number of the entry as its
  -- commit index and the length of what is before it as its offset.
  pub read-calls :
      (cs : List (Call B)) (b : B) (i : ℕ)
      → All (KeepsCall Keeps) cs
      → length cs < 2 ^ 64
      → (read json b (suc i) (calls json cs (new_file_bucket_log []))).0
        ≡ drop i (log_calls b cs [])
  read-calls cs b i k short =
      read-Holds json (calls json cs (new_file_bucket_log [])) b i (log_calls b cs [])
        (calls-Holds cs (new_file_bucket_log []) b [] k (omega (arith, short)) (new-Holds b))

  -- Where the file of its bucket holds a log, Append of an entry returns the number of the next entry and the length of the
  -- file, or the error for an encoding that is too large.
  pub append-answer :
      (now : ℕ) (e : WalEntry B) (f : FileBucketLog B) (es : List (WalEntry B))
      → length es + 1 < 2 ^ 64
      → Holds json f e.bucket_id es
      → (append json now (some e) f).0 ≡ (
          if ltb 2147483647 (length (json.marshal (next_entry json now e es)))
          then inl (too_large (length (json.marshal (next_entry json now e es))))
          else inr (suc (length es), length (frames json es)))
  unfolding append write_entry stamp
  append-answer now e f es short h = rw (stamped-next_entry json f now e es short h) (ground arith)

  -- Where Append fails, the bucket's file holds what it held.
  pub append_fails :
      (now : ℕ) (o : Option (WalEntry B)) (err : AppendError) (f : FileBucketLog B) (b : B)
      (es : List (WalEntry B))
      → (append json now o f).0 ≡ inl err
      → Holds json f b es
      → Holds json (append json now o f).1 b es
  unfolding append write_entry
  append_fails now none err f b es fails h = h
  append_fails now (some e) err f b es fails h =
      elim (Bool-cases (
        ltb 2147483647
          (length (json.marshal (stamped json now e (open_bucket json e.bucket_id f)))))) [
            | inl large ↦ rw large (open_bucket-Holds json f b e.bucket_id es h)
            | inr fits ↦ absurd (ground arith)
          ]
