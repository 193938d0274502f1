-- ===== src/Raft/Shadow.antt =====
-- internal/raft/types.go, `ValidateShadowTail`, and the start of a node on its shadow log in `initEtcd`.
pub mod Agrees
pub mod Entries
pub mod Valid
use seven_db.Common.{
  ℕ, suc, ◌+◌, String, Bool, true, false, not, Option, none, some, List, [], ◌∷◌, ◌++◌,
  if◌then◌else◌, nat_beq, ◌&&◌,
}
use seven_db.Common.Comparable.{nat_key}
use seven_db.Common.GoMap.{GoMap}
use seven_db.Common.Lists.{length}
use seven_db.RaftWal.Frame.{Envelope, EnvelopeProto, WalError}
use seven_db.RaftWal.Writer.{Config, Writer, EntryMeta, new_writer}
use seven_db.RaftWal.Append.{flush}
use seven_db.RaftWal.Replay.{tail_logical_tuples}
use seven_db.Raft.Validator.{WalValidator, snapshot, new_wal_validator, seed_tuples}
use seven_db.Raft.Types.{Node}
use seven_db.Raft.Apply.{set_shadow}

-- the errors of ValidateShadowTail
pub data ShadowError : Type 0 where
  tail_failed : WalError → ShadowError
  length_mismatch : ℕ → ℕ → ShadowError
  mismatch_at : ℕ → ShadowError

-- the loop over the ring, from position `i` on; both lists have the same length
unfoldable pub compare_tuples : ℕ → List (ℕ × ℕ) → List (ℕ × ℕ) → Option ShadowError
compare_tuples i (r ∷ ring) (t ∷ tuples) =
    let rest = compare_tuples (suc i) ring tuples in
    if nat_beq r.0 t.0 && nat_beq r.1 t.1 then rest else some (mismatch_at i)
compare_tuples i _ _ = none

unfoldable pub compare_tail : List (ℕ × ℕ) → List (ℕ × ℕ) × Option WalError → Option ShadowError
unfolding compare_tuples
compare_tail ring (tuples, some err) = some (tail_failed err)
compare_tail ring (tuples, none) =
    if nat_beq (length tuples) (length ring)
    then compare_tuples 0 ring tuples
    else some (length_mismatch (length tuples) (length ring))

-- `if err == nil && len(tuples) > 0 { s.walValidator.seedTuples(tuples) }`
unfoldable pub seed_from : List (ℕ × ℕ) × Option WalError → WalValidator → WalValidator
seed_from (tuples, some err) v = v
seed_from (tuples, none) v = seed_tuples tuples v

module _ {Fits : Envelope → Type 0} (proto : EnvelopeProto Fits) where
  unfoldable pub compare_ring : List (ℕ × ℕ) → GoMap ℕ (List ℕ) → Option ShadowError
  unfolding compare_tail
  compare_ring [] disk = none
  compare_ring (r ∷ ring) disk =
      compare_tail (r ∷ ring) (tail_logical_tuples proto disk (length (r ∷ ring)))

  -- seeded with the tail of the directory, where there is a validator
  unfoldable pub seeded : GoMap ℕ (List ℕ) → Option WalValidator → Option WalValidator
  unfolding seed_from
  seeded disk none = none
  seeded disk (some v) = some (seed_from (tail_logical_tuples proto disk v.capacity) v)

module _ {W : Type 0} {Fits : Envelope → Type 0} (proto : EnvelopeProto Fits) where
  -- ValidateShadowTail: none for no error, and the node with its log synced
  unfoldable pub validate_shadow_tail : Node W → Option ShadowError × Node W
  unfolding compare_ring
  validate_shadow_tail s = elim s.wal_validator [
    | none ↦ (none, s)
    | some v ↦ elim s.wal_shadow [
      | none ↦ (none, s)
      | some w ↦
          (compare_ring proto (snapshot v) (flush w).disk, set_shadow (some (flush w)) (some v) s)
    ]
  ]

  -- the shadow log and the validator of a node that starts on a directory
  unfoldable pub start_shadow :
      Config → ℕ → GoMap ℕ (List ℕ) → GoMap ℕ (List EntryMeta) → Node W → Node W
  unfolding seeded
  start_shadow cfg last_n disk sidecars s =
      let w = new_writer cfg disk sidecars in
      set_shadow (some w) (seeded proto w.disk (new_wal_validator last_n)) s
