-- ===== src/Bucket/FileLog.antt =====
-- internal/bucket/file_bucket_log.go. The disk is a map from bucket ids to the bytes of their files,
-- and a bucket is open when it has a commit index. Every call of the file system succeeds; a crash
-- is what it leaves on disk. The clock is an argument.
pub mod Content
pub mod Calls
pub mod Torn
mod Tests
use seven_db.Common.{
  ℕ, suc, ◌+◌, ◌%◌, ◌^◌, ◌⊎◌, inl, inr, Bool, true, false, Option, none, some, List, [], ◌∷◌, ◌++◌,
  if◌then◌else◌, ltb,
}
use seven_db.Common.Comparable.{Comparable}
use seven_db.Common.GoMap.{GoMap, get, has, put, or_zero}
use seven_db.Common.Lists.{length}
use seven_db.Bucket.Frame.{Epoch, WalEntry, EntryJson, frame, read_records}

pub record FileBucketLog (B : Type 0) : Type 0 where
  pub disk : GoMap B (List ℕ)
  pub commit_idx : GoMap B ℕ
  pub epoch_count : GoMap B ℕ

-- the errors of Append
pub data AppendError : Type 0 where
  nil_entry : AppendError
  too_large : ℕ → AppendError

-- NewFileBucketLog on a disk
unfoldable pub new_file_bucket_log : {B : Type 0} → GoMap B (List ℕ) → FileBucketLog B
new_file_bucket_log disk = record { disk = disk; commit_idx = []; epoch_count = [] }

-- the greatest commit index that the scan has seen
unfoldable pub last_index : {B : Type 0} → ℕ → List (WalEntry B) → ℕ
last_index last [] = last
last_index last (e ∷ es) = last_index (if ltb last e.commit_index then e.commit_index else last) es

-- the entries that Read does not skip
unfoldable pub from_index : {B : Type 0} → ℕ → List (WalEntry B) → List (WalEntry B)
from_index from [] = []
from_index from (e ∷ es) =
    let rest = from_index from es in if ltb e.commit_index from then rest else e ∷ rest

-- the entry as Append fills it in
unfoldable pub stamp : {B : Type 0} → ℕ → ℕ → ℕ → ℕ → WalEntry B → WalEntry B
stamp now index counter offset e = record {
  file_offset = offset;
  timestamp = now;
  bucket_id = e.bucket_id;
  epoch = record { bucket = e.bucket_id; counter = counter };
  commit_index = index;
  entry_type = e.entry_type;
  payload = e.payload;
}

module _ {B : Type 0} ⦃key : Comparable B⦄ {Keeps : B → Type 0} (json : EntryJson B Keeps) where
  -- the bytes of a bucket's file
  abbrev pub file_of : FileBucketLog B → B → List ℕ
  file_of f b = or_zero [] (get f.disk b)

  unfoldable pub open_bucket : B → FileBucketLog B → FileBucketLog B
  open_bucket b f = if has f.commit_idx b then f else record {
    disk = put f.disk b (file_of f b);
    commit_idx = put f.commit_idx b (last_index 0 (read_records json true (file_of f b)));
    epoch_count = f.epoch_count;
  }

  -- Append from the encoding of the entry on
  unfoldable pub write_entry :
      WalEntry B → FileBucketLog B → (AppendError ⊎ (ℕ × ℕ)) × FileBucketLog B
  write_entry e f =
      let payload = json.marshal e in
      if ltb 2147483647 (length payload) then (inl (too_large (length payload)), f) else (
        inr (e.commit_index, e.file_offset),
        record {
          disk = put f.disk e.bucket_id (file_of f e.bucket_id ++ frame payload);
          commit_idx = put f.commit_idx e.bucket_id e.commit_index;
          epoch_count = f.epoch_count;
        },
      )

  -- the entry that Append encodes, on an open bucket
  unfoldable pub stamped : ℕ → WalEntry B → FileBucketLog B → WalEntry B
  stamped now e f =
      stamp now (suc (or_zero 0 (get f.commit_idx e.bucket_id)) % 2 ^ 64)
        (or_zero 0 (get f.epoch_count e.bucket_id)) (length (file_of f e.bucket_id)) e

  unfoldable pub append :
      ℕ → Option (WalEntry B) → FileBucketLog B → (AppendError ⊎ (ℕ × ℕ)) × FileBucketLog B
  append now none f = (inl nil_entry, f)
  append now (some e) f =
      let opened = open_bucket e.bucket_id f in write_entry (stamped now e opened) opened

  -- Read, with what the channel delivers
  unfoldable pub read : B → ℕ → FileBucketLog B → List (WalEntry B) × FileBucketLog B
  read b from f =
      let opened = open_bucket b f in
      (from_index from (read_records json false (file_of opened b)), opened)

-- a call, or a new process on the same disk
pub data Call (B : Type 0) : Type 0 where
  append_call : ℕ → Option (WalEntry B) → Call B
  read_call : B → ℕ → Call B
  restart : Call B

module _ {B : Type 0} ⦃key : Comparable B⦄ {Keeps : B → Type 0} (json : EntryJson B Keeps) where
  unfoldable pub call : Call B → FileBucketLog B → FileBucketLog B
  call (append_call now e) f = (append json now e f).1
  call (read_call b from) f = (read json b from f).1
  call restart f = new_file_bucket_log f.disk

  -- calls from the first to the last
  unfoldable pub calls : List (Call B) → FileBucketLog B → FileBucketLog B
  calls [] f = f
  calls (c ∷ cs) f = calls cs (call c f)
