-- ===== src/Bucket/FileLog/Torn.antt =====
-- A crash in the middle of a write: what a new process reads, and where it appends.
use seven_db.Common.{
  ℕ, suc, ◌+◌, ◌^◌, ◌≡◌, ◌<◌, ◌≤◌, refl, ap, ◌∙◌, inl, inr, true, false, some, List, [], ◌++◌, ltb,
  arith, Bool-cases,
}
use mathlib.Core.List.{append_assoc}
use seven_db.Common.Comparable.{Comparable}
use seven_db.Common.GoMap.{get, has, put, or_zero}
use seven_db.Common.GoMap.Laws.{get-put_same}
use seven_db.Common.Lists.{length, drop}
use seven_db.Bucket.Frame.{WalEntry, EntryJson, frame, read_records, put_u32, checksum}
use seven_db.Bucket.Frame.Scan.{Storable, frame_of, frames}
use seven_db.Bucket.Frame.Tear.{read_records_torn, read_records_mixed, IsMixed}
use seven_db.Bucket.FileLog.{
  FileBucketLog, stamp, from_index, last_index, file_of, open_bucket, write_entry, stamped, append,
  read, new_file_bucket_log,
}
use seven_db.Bucket.FileLog.Content.{
  Numbered, Holds, open_bucket-epoch_count, from_index-drop, open_bucket-file_of,
  last_index-Numbered,
}

-- the header of a payload, and a part of it
abbrev pub torn : List ℕ → List ℕ → List ℕ
torn p part = put_u32 (length p) (put_u32 (checksum p) part)

module _ {B : Type 0} ⦃key : Comparable B⦄ {Keeps : B → Type 0} (json : EntryJson B Keeps) where
  -- a new process after the bucket's file got these bytes
  unfoldable pub crashed : B → List ℕ → FileBucketLog B → FileBucketLog B
  unfolding new_file_bucket_log
  crashed b bs f = new_file_bucket_log (put f.disk b (file_of json f b ++ bs))

  -- reading from a file with these entries in it
  read_decoded :
      (f : FileBucketLog B) (b : B) (i : ℕ) (es : List (WalEntry B))
      → read_records json false (file_of json f b) ≡ es
      → Numbered 0 es
      → (read json b (suc i) f).0 ≡ drop i es
  unfolding read
  read_decoded f b i es h n =
      ap (λ bs. from_index (suc i) (read_records json false bs)) (open_bucket-file_of json f b b)
      ∙ ap (from_index (suc i)) h
      ∙ ground (arith, from_index-drop 0 i es n)

  crashed-file_of :
      (f : FileBucketLog B) (b : B) (bs : List ℕ) (es : List (WalEntry B))
      → Holds json f b es
      → file_of json (crashed b bs f) b ≡ frames json es ++ bs
  unfolding crashed new_file_bucket_log
  crashed-file_of f b bs es h =
      ap (or_zero []) (get-put_same f.disk b (file_of json f b ++ bs))
      ∙ ap (λ xs. xs ++ bs) h.in_file

  -- Where the file of a bucket held a log when a crash left a part of one more frame behind it, a new process reads the
  -- log: Read from the index i + 1 delivers it without its first i entries, and the scan at opening finds its last commit
  -- index.
  pub read-crashed :
      (f : FileBucketLog B) (b : B) (i : ℕ) (es : List (WalEntry B)) (e : WalEntry B)
      (bs cut : List ℕ)
      → Holds json f b es
      → Storable json e
      → bs ++ cut ≡ frame_of json e
      → 0 < length cut
      → ((read json b (suc i) (crashed b bs f)).0 ≡ drop i es)
        × (get (open_bucket json b (crashed b bs f)).commit_idx b ≡ some (length es))
  unfolding crashed new_file_bucket_log open_bucket has
  read-crashed f b i es e bs cut h s t l = (
    read_decoded (crashed b bs f) b i es
        (ap (read_records json false) (crashed-file_of f b bs es h)
          ∙ read_records_torn json false es e bs cut h.are_storable s t l)
        h.are_numbered,
    get-put_same [] b (last_index 0 (read_records json true (file_of json (crashed b bs f) b)))
        ∙ ap (λ xs. some (last_index 0 (read_records json true xs))) (crashed-file_of f b bs es h)
        ∙ ap (λ xs. some (last_index 0 xs))
            (read_records_torn json true es e bs cut h.are_storable s t l)
        ∙ ground (arith, last_index-Numbered 0 es h.are_numbered),
  )

  -- the entry that Append writes behind a torn frame
  abbrev pub late_entry : ℕ → WalEntry B → List (WalEntry B) → List ℕ → WalEntry B
  late_entry now d es bs = stamp now (suc (length es)) 0 (length (frames json es ++ bs)) d

  crashed_stamps :
      (f : FileBucketLog B) (es : List (WalEntry B)) (e d : WalEntry B) (now : ℕ) (bs cut : List ℕ)
      → Holds json f d.bucket_id es
      → Storable json e
      → bs ++ cut ≡ frame_of json e
      → 0 < length cut
      → length es + 1 < 2 ^ 64
      → stamped json now d (open_bucket json d.bucket_id (crashed d.bucket_id bs f))
        ≡ late_entry now d es bs
  unfolding stamped crashed new_file_bucket_log get
  crashed_stamps f es e d now bs cut h s t l short =
      rw
        (
          (read-crashed f d.bucket_id 0 es e bs cut h s t l).1,
          open_bucket-epoch_count json (crashed d.bucket_id bs f) d.bucket_id,
          open_bucket-file_of json (crashed d.bucket_id bs f) d.bucket_id d.bucket_id
              ∙ crashed-file_of f d.bucket_id bs es h,
        )
        (ap (λ i. stamp now i 0 (length (frames json es ++ bs)) d) (omega (arith, short)))

  write_entry-file_of :
      (d : WalEntry B) (f : FileBucketLog B)
      → length (json.marshal d) ≤ 2147483647
      → ((write_entry json d f).0 ≡ inr (d.commit_index, d.file_offset))
        × (file_of json (write_entry json d f).1 d.bucket_id
            ≡ file_of json f d.bucket_id ++ frame (json.marshal d))
  unfolding write_entry
  write_entry-file_of d f fits = elim (Bool-cases (ltb 2147483647 (length (json.marshal d)))) [
    | inl large ↦ absurd (ground arith)
    | inr small ↦ rw small (
      refl,
      ap (or_zero [])
          (get-put_same f.disk d.bucket_id (file_of json f d.bucket_id ++ frame (json.marshal d))),
    )
  ]

  late_write :
      (f : FileBucketLog B) (es : List (WalEntry B)) (e d : WalEntry B) (now : ℕ) (bs cut : List ℕ)
      → Holds json f d.bucket_id es
      → Storable json e
      → bs ++ cut ≡ frame_of json e
      → 0 < length cut
      → length es + 1 < 2 ^ 64
      → length (json.marshal (late_entry now d es bs)) ≤ 2147483647
      → ((append json now (some d) (crashed d.bucket_id bs f)).0
          ≡ inr (suc (length es), length (frames json es ++ bs)))
        × (file_of json (append json now (some d) (crashed d.bucket_id bs f)).1 d.bucket_id
            ≡ (frames json es ++ bs) ++ frame_of json (late_entry now d es bs))
  unfolding append stamp
  late_write f es e d now bs cut h s t l short fits =
      rw (crashed_stamps f es e d now bs cut h s t l short) (
        (write_entry-file_of (late_entry now d es bs)
            (open_bucket json d.bucket_id (crashed d.bucket_id bs f)) fits).0,
        (write_entry-file_of (late_entry now d es bs)
              (open_bucket json d.bucket_id (crashed d.bucket_id bs f)) fits).1
            ∙ ap (λ xs. xs ++ frame_of json (late_entry now d es bs))
                (open_bucket-file_of json (crashed d.bucket_id bs f) d.bucket_id d.bucket_id
                  ∙ crashed-file_of f d.bucket_id bs es h),
      )

  -- Where a crash left the header and a strict part of the payload of one more frame behind a log, and the first bytes of
  -- that part and the next frame do not have the checksum in the header, Append of an entry succeeds with the next commit
  -- index, and Read still delivers the log without the entry.
  pub append_lost :
      (f : FileBucketLog B) (i : ℕ) (es : List (WalEntry B)) (e d : WalEntry B) (now : ℕ)
      (part cut : List ℕ)
      → Holds json f d.bucket_id es
      → Storable json e
      → part ++ cut ≡ json.marshal e
      → 0 < length cut
      → length es + 1 < 2 ^ 64
      → length (json.marshal (late_entry now d es (torn (json.marshal e) part))) ≤ 2147483647
      → IsMixed
          (json.marshal e)
          (part ++ frame_of json (late_entry now d es (torn (json.marshal e) part)))
      → ((append json now (some d) (crashed d.bucket_id (torn (json.marshal e) part) f)).0
          ≡ inr (suc (length es), length (frames json es ++ torn (json.marshal e) part)))
        × ((read json d.bucket_id
              (suc i)
              (append json now (some d) (crashed d.bucket_id (torn (json.marshal e) part) f)).1).0
            ≡ drop i es)
  unfolding frame
  append_lost f i es e d now part cut h s t l short fits mixed =
      let written =
        late_write f es e d now (torn (json.marshal e) part) cut h s (ap (torn (json.marshal e)) t)
          l short fits in
      (
        written.0,
        read_decoded
            (append json now (some d) (crashed d.bucket_id (torn (json.marshal e) part) f)).1
            d.bucket_id i es
            (ap (read_records json false)
                (written.1 ∙ append_assoc (frames json es) (torn (json.marshal e) part) _)
              ∙ read_records_mixed json false es e
                  (part ++ frame_of json (late_entry now d es (torn (json.marshal e) part)))
                  h.are_storable s mixed)
            h.are_numbered,
      )
