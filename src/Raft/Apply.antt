-- ===== src/Raft/Apply.antt =====
-- internal/raft/types.go, the loop of `processReady` over the committed entries. The raft library gives
-- the entries; the encoding of a proposal, that of an envelope and the replication handler are parameters. The abstract log is not set, what is only logged
-- is left out. `taken` tells whether the reader of the channel of committed records takes a record within
-- the 100 ms that the loop waits; where the channel is nil, no record is taken.
pub mod Counts
pub mod Commits
pub mod Contiguous
use seven_db.Common.{
  ℕ, suc, ◌+◌, ◌%◌, ◌^◌, String, Bool, true, false, not, Option, none, some, List, [], ◌∷◌, ◌++◌,
  if◌then◌else◌, nat_beq, ◌&&◌,
}
use seven_db.Common.Comparable.{◌==◌, string_key, nat_key}
use seven_db.Common.GoMap.{GoMap, get, put, remove, or_zero}
use seven_db.Common.Lists.{length}
use seven_db.Bucket.Frame.{checksum}
use seven_db.Emission.Raft.{RaftLogRecord, CommittedRecord, app_command}
use seven_db.RaftWal.Frame.{Envelope, EnvelopeProto, WalError, entry_normal}
use seven_db.RaftWal.Writer.{Writer}
use seven_db.RaftWal.Append.{append_envelope, flush}
use seven_db.RaftWal.Replay.{tail_logical_tuples}
use seven_db.Raft.Validator.{WalValidator, add_tuple, snapshot}
use seven_db.Raft.Types.{
  EntryType, normal, conf_change, conf_change_v2, other_type, Entry, WireRecord, Outcome, aborted,
  applied, Node, heartbeat, normal_envelope, conf_envelope,
}

unfoldable pub add_if_set : ℕ → List ℕ → Option WalValidator → Option WalValidator
add_if_set index payload none = none
add_if_set index payload (some v) = some (add_tuple index payload v)

-- what is sent to a waiter, where there is one
unfoldable pub answer : Option ℕ → Outcome → List (ℕ × Outcome)
answer none o = []
answer (some w) o = (w, o) ∷ []

module _ {W : Type 0} where
  unfoldable pub set_shadow : Option Writer → Option WalValidator → Node W → Node W
  set_shadow wal validator s = record {
    wal_shadow = wal;
    wal_validator = validator;
    per_bucket_commit = s.per_bucket_commit;
    waiters_seq = s.waiters_seq;
    last_applied_index = s.last_applied_index;
    committed_since_snap = s.committed_since_snap;
    sent = s.sent;
    answers = s.answers;
    world = s.world;
  }

  -- the commit index of the bucket after the entry
  unfoldable pub next_commit : String → Node W → ℕ
  next_commit bucket s = suc (or_zero 0 (get s.per_bucket_commit bucket)) % 2 ^ 64

  -- the part under the mutex
  unfoldable pub assign : Entry → WireRecord → Node W → Node W
  unfolding next_commit
  assign ent wr s = record {
    wal_shadow = s.wal_shadow;
    wal_validator = s.wal_validator;
    per_bucket_commit =
        if wr.log_record.bucket_id == ""
        then s.per_bucket_commit
        else put s.per_bucket_commit wr.log_record.bucket_id
            (next_commit wr.log_record.bucket_id s);
    waiters_seq = remove s.waiters_seq wr.seq;
    last_applied_index = ent.index;
    committed_since_snap = suc s.committed_since_snap;
    sent = s.sent;
    answers = s.answers;
    world = s.world;
  }

  unfoldable pub finish : List (CommittedRecord ℕ) → List (ℕ × Outcome) → W → Node W → Node W
  finish records outcomes world s = record {
    wal_shadow = s.wal_shadow;
    wal_validator = s.wal_validator;
    per_bucket_commit = s.per_bucket_commit;
    waiters_seq = s.waiters_seq;
    last_applied_index = s.last_applied_index;
    committed_since_snap = s.committed_since_snap;
    sent = s.sent ++ records;
    answers = s.answers ++ outcomes;
    world = world;
  }

  -- a configuration change under the mutex, and an entry of another type
  unfoldable pub advance : Entry → Node W → Node W
  advance ent s = record {
    wal_shadow = s.wal_shadow;
    wal_validator = s.wal_validator;
    per_bucket_commit = s.per_bucket_commit;
    waiters_seq = s.waiters_seq;
    last_applied_index = ent.index;
    committed_since_snap = suc s.committed_since_snap;
    sent = s.sent;
    answers = s.answers;
    world = s.world;
  }

-- the record of a normal entry
abbrev pub decode : (List ℕ → Option WireRecord) → List ℕ → Option WireRecord
decode unmarshal [] = some heartbeat
decode unmarshal (b ∷ bs) = unmarshal (b ∷ bs)

module _ {W : Type 0} {Fits : Envelope → Type 0} (proto : EnvelopeProto Fits) where
  -- the shadow log and the validator for a normal entry: both or none
  unfoldable pub shadow_normal : Entry → WireRecord → Node W → Node W
  unfolding set_shadow add_if_set
  shadow_normal ent wr s = elim s.wal_shadow [
    | none ↦ s
    | some w ↦
        set_shadow (some (append_envelope ent.index (proto.marshal (normal_envelope ent wr)) w).1)
          (add_if_set ent.index wr.log_record.payload s.wal_validator) s
  ]

  -- those for a configuration change: each where it is set
  unfoldable pub shadow_conf : Entry → Node W → Node W
  unfolding set_shadow add_if_set
  shadow_conf ent s =
      set_shadow
        (elim s.wal_shadow [
          | none ↦ none
          | some w ↦ some (append_envelope ent.index (proto.marshal (conf_envelope ent)) w).1
        ])
        (add_if_set ent.index ent.bytes s.wal_validator) s

-- the record of an entry
abbrev pub record_of : Entry → WireRecord → ℕ → CommittedRecord ℕ
record_of ent wr commit_idx = record {
  raft_index = ent.index;
  term = ent.term;
  commit_index = commit_idx;
  log_record = some wr.log_record;
}

module _ {W : Type 0} (handle : RaftLogRecord ℕ → W → W × Bool)
    (taken : CommittedRecord ℕ → Bool) where
  -- the record of the entry, sent where the handler does not abort it and the reader takes it in time;
  -- a record that is not taken is dropped, and its waiter is answered all the same
  unfoldable pub deliver : Entry → WireRecord → Option ℕ → ℕ → Node W → Node W
  unfolding finish answer
  deliver ent wr waiter commit_idx s =
      if (handle wr.log_record s.world).1
      then finish [] (answer waiter aborted) (handle wr.log_record s.world).0 s
      else finish
          (if taken (record_of ent wr commit_idx) then record_of ent wr commit_idx ∷ [] else [])
          (answer waiter (applied commit_idx ent.index)) (handle wr.log_record s.world).0 s

module _ {W : Type 0} {Fits : Envelope → Type 0} (proto : EnvelopeProto Fits)
    (handle : RaftLogRecord ℕ → W → W × Bool) (taken : CommittedRecord ℕ → Bool) where
  -- a normal entry that could be decoded
  unfoldable pub apply_record : Entry → WireRecord → Node W → Node W
  unfolding shadow_normal assign deliver
  apply_record ent wr s =
      let waiter = get s.waiters_seq wr.seq in
      let assigned = assign ent wr (shadow_normal proto ent wr s) in
      if wr.log_record.bucket_id == ""
      then finish [] (answer waiter (applied 0 ent.index)) s.world assigned
      else deliver handle taken ent wr waiter (next_commit wr.log_record.bucket_id s) assigned

  unfoldable pub apply_decoded : Entry → Option WireRecord → Node W → Node W
  unfolding apply_record
  apply_decoded ent none s = s
  apply_decoded ent (some wr) s = apply_record ent wr s

module _ {W : Type 0} {Fits : Envelope → Type 0} (proto : EnvelopeProto Fits)
    (handle : RaftLogRecord ℕ → W → W × Bool) (taken : CommittedRecord ℕ → Bool)
    (unmarshal : List ℕ → Option WireRecord) where
  unfoldable pub apply_entry : Entry → Node W → Node W
  unfolding apply_decoded shadow_conf advance
  apply_entry ent s = elim ent.entry_type [
    | normal ↦ apply_decoded proto handle taken ent (decode unmarshal ent.bytes) s
    | conf_change ↦ advance ent (shadow_conf proto ent s)
    | conf_change_v2 ↦ advance ent (shadow_conf proto ent s)
    | other_type ↦ advance ent s
  ]

  -- the loop over rd.CommittedEntries
  unfoldable pub apply_entries : List Entry → Node W → Node W
  unfolding apply_entry
  apply_entries [] s = s
  apply_entries (e ∷ es) s = apply_entries es (apply_entry e s)
