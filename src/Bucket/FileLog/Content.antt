-- ===== src/Bucket/FileLog/Content.antt =====
-- The log that a file stands for, and what opening, reading and appending do to it.
use mathlib.Core.List.{append-nil}
use seven_db.Common.{
  ℕ, zero, suc, ◌+◌, ◌^◌, ◌≡◌, ◌<◌, ◌≤◌, refl, sym, ap, subst, ◌∙◌, ◌⊎◌, inl, inr, Bool, true,
  false, none, some, List, [], ◌∷◌, ◌++◌, arith, Bool-cases,
}
use seven_db.Common.Comparable.{Comparable, ◌==◌}
use seven_db.Common.GoMap.{get}
use seven_db.Common.GoMap.Laws.{get-put, get-put_same, has-get, is_some}
use seven_db.Common.Lists.{length, drop, All}
use seven_db.Bucket.Frame.{WalEntry, EntryJson, records, read_records, next_record}
use seven_db.Bucket.Frame.Scan.{Storable, frames, read_records-frames}
use seven_db.Bucket.FileLog.{
  FileBucketLog, last_index, from_index, stamp, file_of, open_bucket, stamped, read,
}

-- the entries have the commit indices after `n`, without a gap
abbrev pub Numbered : {B : Type 0} → ℕ → List (WalEntry B) → Type 0
Numbered n [] = Unit
Numbered n (e ∷ es) = (e.commit_index ≡ suc n) × Numbered (suc n) es

pub Numbered-append :
    {B : Type 0} (n : ℕ) (es : List (WalEntry B)) (e : WalEntry B)
    → Numbered n es
    → e.commit_index ≡ suc (n + length es)
    → Numbered n (es ++ (e ∷ []))
Numbered-append n [] e h i = (omega (arith, i), tt)
Numbered-append n (d ∷ es) e h i = (h.0, Numbered-append (suc n) es e h.1 (omega (arith, i)))

pub last_index-Numbered :
    {B : Type 0} (n : ℕ) (es : List (WalEntry B)) → Numbered n es → last_index n es ≡ n + length es
unfolding last_index
last_index-Numbered n [] h = omega arith
last_index-Numbered n (e ∷ es) h =
    ground (arith, h.0, ap (λ k. last_index k es) h.0, last_index-Numbered (suc n) es h.1)

from_index_all :
    {B : Type 0} (m n : ℕ) (es : List (WalEntry B))
    → m ≤ n
    → Numbered n es
    → from_index (suc m) es ≡ es
unfolding from_index
from_index_all m n [] l h = refl
from_index_all m n (e ∷ es) l h = ground (arith, h.0, from_index_all m (suc n) es (omega arith) h.1)

pub from_index-drop :
    {B : Type 0} (n i : ℕ) (es : List (WalEntry B))
    → Numbered n es
    → from_index (suc (n + i)) es ≡ drop i es
unfolding from_index
from_index-drop n zero es h = from_index_all (n + 0) n es (omega arith) h
from_index-drop n (suc i) [] h = refl
from_index-drop n (suc i) (e ∷ es) h = ground (arith, h.0, from_index-drop (suc n) i es h.1)

module _ {B : Type 0} ⦃key : Comparable B⦄ {Keeps : B → Type 0} (json : EntryJson B Keeps) where
  read_records_all :
      (zero_stops : Bool) (es : List (WalEntry B))
      → All (Storable json) es
      → read_records json zero_stops (frames json es) ≡ es
  unfolding read_records records next_record
  read_records_all zero_stops es h =
      ap (read_records json zero_stops) (sym (append-nil (frames json es)))
      ∙ read_records-frames json zero_stops es [] h
      ∙ append-nil es

  -- the bucket's file holds the entries, and nothing else
  pub record Holds (f : FileBucketLog B) (b : B) (es : List (WalEntry B)) : Type 0 where
    pub in_file : file_of json f b ≡ frames json es
    pub are_storable : All (Storable json) es
    pub are_numbered : Numbered 0 es
    pub has_no_epoch : get f.epoch_count b ≡ none
    pub is_counted : (get f.commit_idx b ≡ none) ⊎ (get f.commit_idx b ≡ some (length es))

  pub open_bucket-file_of :
      (f : FileBucketLog B) (b c : B) → file_of json (open_bucket json c f) b ≡ file_of json f b
  unfolding open_bucket
  open_bucket-file_of f b c =
      ground (arith, key.equal_iff c b, get-put f.disk c (file_of json f c) b)

  pub open_bucket-epoch_count :
      (f : FileBucketLog B) (c : B) → (open_bucket json c f).epoch_count ≡ f.epoch_count
  unfolding open_bucket
  open_bucket-epoch_count f c = ground arith

  last_index-file_of :
      (f : FileBucketLog B) (b : B) (es : List (WalEntry B))
      → Holds f b es
      → last_index 0 (read_records json true (file_of json f b)) ≡ length es
  last_index-file_of f b es h =
      ap (λ bs. last_index 0 (read_records json true bs)) h.in_file
      ∙ ap (last_index 0) (read_records_all true es h.are_storable)
      ∙ ground (arith, last_index-Numbered 0 es h.are_numbered)

  pub open_bucket_counts :
      (f : FileBucketLog B) (b : B) (es : List (WalEntry B))
      → Holds f b es
      → get (open_bucket json b f).commit_idx b ≡ some (length es)
  unfolding open_bucket
  open_bucket_counts f b es h = elim h.is_counted [
    | inl closed ↦ rw (has-get f.commit_idx b ∙ ap is_some closed) (
        get-put_same f.commit_idx b (last_index 0 (read_records json true (file_of json f b)))
        ∙ ap some (last_index-file_of f b es h))
    | inr opened ↦ rw (has-get f.commit_idx b ∙ ap is_some opened) opened
  ]

  open_bucket_other :
      (f : FileBucketLog B) (b c : B)
      → (c == b) ≡ false
      → get (open_bucket json c f).commit_idx b ≡ get f.commit_idx b
  unfolding open_bucket
  open_bucket_other f b c h =
      ground
        (arith, get-put f.commit_idx c (last_index 0 (read_records json true (file_of json f c))) b)

  pub open_bucket-Holds :
      (f : FileBucketLog B) (b c : B) (es : List (WalEntry B))
      → Holds f b es
      → Holds (open_bucket json c f) b es
  open_bucket-Holds f b c es h = record {
    in_file = open_bucket-file_of f b c ∙ h.in_file;
    are_storable = h.are_storable;
    are_numbered = h.are_numbered;
    has_no_epoch = ap (λ m. get m b) (open_bucket-epoch_count f c) ∙ h.has_no_epoch;
    is_counted = elim (Bool-cases (c == b)) [
      | inl same ↦ inr (
          subst (λ d. get (open_bucket json d f).commit_idx b ≡ some (length es))
            (sym ((key.equal_iff c b).0 same)) (open_bucket_counts f b es h))
      | inr other ↦
          subst (λ o. (o ≡ none) ⊎ (o ≡ some (length es))) (sym (open_bucket_other f b c other))
            h.is_counted
    ];
  }

  -- Reading a bucket from a positive index delivers the entries from that index on.
  pub read-Holds :
      (f : FileBucketLog B) (b : B) (i : ℕ) (es : List (WalEntry B))
      → Holds f b es
      → (read json b (suc i) f).0 ≡ drop i es
  unfolding read
  read-Holds f b i es h =
      ap (λ bs. from_index (suc i) (read_records json false bs))
        (open_bucket-file_of f b b ∙ h.in_file)
      ∙ ap (from_index (suc i)) (read_records_all false es h.are_storable)
      ∙ ground (arith, from_index-drop 0 i es h.are_numbered)

  -- the entry that an append adds to a log
  abbrev pub next_entry : ℕ → WalEntry B → List (WalEntry B) → WalEntry B
  next_entry now e es = stamp now (suc (length es)) 0 (length (frames json es)) e

  pub stamped-next_entry :
      (f : FileBucketLog B) (now : ℕ) (e : WalEntry B) (es : List (WalEntry B))
      → length es + 1 < 2 ^ 64
      → Holds f e.bucket_id es
      → stamped json now e (open_bucket json e.bucket_id f) ≡ next_entry now e es
  unfolding stamped
  stamped-next_entry f now e es short h =
      rw
        (
          open_bucket_counts f e.bucket_id es h,
          ap (λ m. get m e.bucket_id) (open_bucket-epoch_count f e.bucket_id) ∙ h.has_no_epoch,
          open_bucket-file_of f e.bucket_id e.bucket_id ∙ h.in_file,
        )
        (ap (λ i. stamp now i 0 (length (frames json es)) e) (omega (arith, short)))
