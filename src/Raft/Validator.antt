-- ===== src/Raft/Validator.antt =====
-- internal/raft/types.go, `walValidator`: a ring of the last (index, checksum) pairs that were written
-- to the log. A nil validator is one that is not there.
pub mod Window
pub mod Recent
pub mod Seeded
use seven_db.Common.{
  ℕ, zero, suc, ◌+◌, ◌-◌, ◌%◌, Bool, true, false, Option, none, some, List, [], ◌∷◌, ◌++◌,
  if◌then◌else◌, nat_beq, ltb,
}
use seven_db.Common.Lists.{length, drop}
use seven_db.Bucket.Frame.{checksum}
use seven_db.RaftWal.Replay.{last_n}

pub record WalValidator : Type 0 where
  pub capacity : ℕ
  pub ring : List (ℕ × ℕ)
  pub idx : ℕ
  pub count : ℕ

-- make([]walValTuple, n)
unfoldable pub zeros : ℕ → List (ℕ × ℕ)
zeros zero = []
zeros (suc n) = (0, 0) ∷ zeros n

unfoldable pub new_wal_validator : ℕ → Option WalValidator
unfolding zeros
new_wal_validator n =
    if nat_beq n 0 then none else some (record { capacity = n; ring = zeros n; idx = 0; count = 0 })

-- ring[i] = t, below the length
unfoldable pub set_at : List (ℕ × ℕ) → ℕ → ℕ × ℕ → List (ℕ × ℕ)
set_at [] i t = []
set_at (x ∷ xs) zero t = t ∷ xs
set_at (x ∷ xs) (suc i) t = x ∷ set_at xs i t

-- ring[i], below the length
unfoldable pub at : List (ℕ × ℕ) → ℕ → ℕ × ℕ
at [] i = (0, 0)
at (x ∷ xs) zero = x
at (x ∷ xs) (suc i) = at xs i

-- addTuple with the checksum of the payload
unfoldable pub add_checked : ℕ × ℕ → WalValidator → WalValidator
add_checked t v = record {
  capacity = v.capacity;
  ring = set_at v.ring v.idx t;
  idx = (v.idx + 1) % v.capacity;
  count = if ltb v.count v.capacity then suc v.count else v.count;
}

unfoldable pub add_tuple : ℕ → List ℕ → WalValidator → WalValidator
unfolding add_checked
add_tuple index payload v = add_checked (index, checksum payload) v

-- the loop of snapshot from `i` on, with `k` turns left
unfoldable pub window : List (ℕ × ℕ) → ℕ → ℕ → ℕ → ℕ → List (ℕ × ℕ)
window ring n start i zero = []
window ring n start i (suc k) = at ring ((start + i) % n) ∷ window ring n start (suc i) k

unfoldable pub snapshot : WalValidator → List (ℕ × ℕ)
unfolding window
snapshot v = window v.ring v.capacity ((v.idx + v.capacity - v.count) % v.capacity) 0 v.count

-- ring[i] = t for each of the tuples
unfoldable pub overwrite : List (ℕ × ℕ) → ℕ → List (ℕ × ℕ) → List (ℕ × ℕ)
overwrite ring i [] = ring
overwrite ring i (t ∷ ts) = overwrite (set_at ring i t) (suc i) ts

-- seedTuples
unfoldable pub seed_tuples : List (ℕ × ℕ) → WalValidator → WalValidator
unfolding overwrite last_n
seed_tuples [] v = v
seed_tuples (t ∷ ts) v =
    let kept = last_n v.capacity (t ∷ ts) in
    record {
      capacity = v.capacity;
      ring = overwrite v.ring 0 kept;
      idx = length kept % v.capacity;
      count = length kept;
    }
