-- ===== src/Bucket/Runtime.antt =====
-- internal/bucket/runtime.go, over the log of internal/bucket/file_bucket_log.go. The callback
-- onApply collects the entries that it is called with. One round of the loop reads to the end of the
-- stream; the end by the context is the end of the sequence of rounds.
pub mod Replay
mod Tests
use seven_db.Common.{ℕ, suc, ◌%◌, ◌^◌, List, [], ◌∷◌, ◌++◌}
use seven_db.Common.Comparable.{Comparable}
use seven_db.Bucket.Frame.{WalEntry, EntryJson}
use seven_db.Bucket.FileLog.{
  FileBucketLog, Call, append_call, read_call, restart, call, read, new_file_bucket_log,
}

-- Bucket, with the entries given to onApply in their order
pub record Bucket (B : Type 0) : Type 0 where
  pub id : B
  pub last_applied : ℕ
  pub applied : List (WalEntry B)

unfoldable pub new_bucket : {B : Type 0} → B → Bucket B
new_bucket b = record { id = b; last_applied = 0; applied = [] }

-- the loop over the channel
unfoldable pub drain : {B : Type 0} → List (WalEntry B) → Bucket B → Bucket B
drain [] b = b
drain (e ∷ es) b =
    drain es (record { id = b.id; last_applied = e.commit_index; applied = b.applied ++ (e ∷ []) })

-- a round of Run, or something else that happens to the log; a restart starts Run anew
pub data Step (B : Type 0) : Type 0 where
  round : Step B
  other : Call B → Step B

module _ {B : Type 0} ⦃key : Comparable B⦄ {Keeps : B → Type 0} (json : EntryJson B Keeps) where
  unfoldable pub run_round : Bucket B → FileBucketLog B → Bucket B × FileBucketLog B
  run_round b f =
      let delivered = read json b.id (suc b.last_applied % 2 ^ 64) f in
      (drain delivered.0 b, delivered.1)

  unfoldable pub step : Step B → Bucket B → FileBucketLog B → Bucket B × FileBucketLog B
  unfolding run_round
  step round b f = run_round b f
  step (other restart) b f = (new_bucket b.id, call json restart f)
  step (other (append_call now e)) b f = (b, call json (append_call now e) f)
  step (other (read_call c from)) b f = (b, call json (read_call c from) f)

  unfoldable pub steps : List (Step B) → Bucket B → FileBucketLog B → Bucket B × FileBucketLog B
  unfolding step
  steps [] b f = (b, f)
  steps (s ∷ ss) b f = let (c, g) = step s b f in steps ss c g
