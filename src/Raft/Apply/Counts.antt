-- ===== src/Raft/Apply/Counts.antt =====
-- The commit indices of a bucket: its last one, those that were sent, and how many the entries give.
use seven_db.Common.{
  ℕ, zero, suc, ◌+◌, ◌≡◌, refl, String, Bool, false, Option, none, some, List, [], ◌∷◌, ◌++◌,
  if◌then◌else◌, arith,
}
use seven_db.Common.Comparable.{◌==◌, string_key, nat_key}
use seven_db.Common.GoMap.{get, or_zero}
use seven_db.Emission.Raft.{CommittedRecord}
use seven_db.Raft.Types.{Entry, WireRecord, normal, Node}
use seven_db.Raft.Apply.{decode}

-- the last commit index of a bucket
unfoldable pub commit_of : {W : Type 0} → String → Node W → ℕ
commit_of b s = or_zero 0 (get s.per_bucket_commit b)

abbrev pub record_is : String → CommittedRecord ℕ → Bool
record_is b cr = elim cr.log_record [ none ↦ false | some r ↦ r.bucket_id == b ]

-- the commit indices of the records of a bucket
unfoldable pub commits_of : String → List (CommittedRecord ℕ) → List ℕ
commits_of b [] = []
commits_of b (cr ∷ crs) =
    if record_is b cr then cr.commit_index ∷ commits_of b crs else commits_of b crs

pub commits_of-append :
    (b : String) (xs ys : List (CommittedRecord ℕ))
    → commits_of b (xs ++ ys) ≡ commits_of b xs ++ commits_of b ys
unfolding commits_of
commits_of-append b [] ys = refl
commits_of-append b (x ∷ xs) ys = ground (arith, commits_of-append b xs ys)

-- the numbers after `n`, as many as `m`
unfoldable pub after : ℕ → ℕ → List ℕ
after n zero = []
after n (suc m) = suc n ∷ after (suc n) m

-- one where an entry is a record of the bucket
abbrev pub decoded_count : String → Option WireRecord → ℕ
decoded_count b none = 0
decoded_count b (some wr) = if wr.log_record.bucket_id == b then 1 else 0

unfoldable pub entry_count : (List ℕ → Option WireRecord) → String → Entry → ℕ
entry_count unmarshal b ent = elim ent.entry_type [
  | normal ↦ decoded_count b (decode unmarshal ent.bytes)
  | _ ↦ 0
]

-- the records of the bucket among the entries
unfoldable pub count_of : (List ℕ → Option WireRecord) → String → List Entry → ℕ
count_of unmarshal b [] = 0
count_of unmarshal b (ent ∷ ents) = entry_count unmarshal b ent + count_of unmarshal b ents

-- what an entry adds: the bucket's count, and its record with the next index
abbrev pub Adds : {W : Type 0} → String → ℕ → Node W → Node W → Type 0
Adds b n s t =
    (commit_of b t ≡ commit_of b s + n)
    × (commits_of b t.sent ≡ commits_of b s.sent ++ after (commit_of b s) n)
