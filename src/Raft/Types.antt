-- ===== src/Raft/Types.antt =====
-- internal/raft/types.go: what the loop over the committed entries reads and changes, and the envelopes
-- that it writes to the shadow log.
use seven_db.Common.{ℕ, ◌%◌, ◌^◌, String, Option, List, []}
use seven_db.Common.Comparable.{string_key, nat_key}
use seven_db.Common.GoMap.{GoMap}
use seven_db.Bucket.Frame.{checksum}
use seven_db.Emission.Raft.{RaftLogRecord, CommittedRecord, app_command}
use seven_db.RaftWal.Frame.{Envelope, entry_normal}
use seven_db.RaftWal.Writer.{Writer}
use seven_db.Raft.Validator.{WalValidator}

-- raftpb.Entry, with its types
pub data EntryType : Type 0 where
  normal conf_change conf_change_v2 other_type : EntryType

pub record Entry : Type 0 where
  pub index : ℕ
  pub term : ℕ
  pub entry_type : EntryType
  pub bytes : List ℕ

-- wireRecord: the number that the proposer gave, and the record
pub record WireRecord : Type 0 where
  pub seq : ℕ
  pub log_record : RaftLogRecord ℕ

-- ProposalResult, or nil
pub data Outcome : Type 0 where
  aborted : Outcome
  applied : ℕ → ℕ → Outcome

-- the fields of ShardRaftNode that the loop changes, what it sent on the channel of committed records
-- and to waiters, and the state `W` of the replication handler
pub record Node (W : Type 0) : Type 0 where
  pub wal_shadow : Option Writer
  pub wal_validator : Option WalValidator
  pub per_bucket_commit : GoMap String ℕ
  pub waiters_seq : GoMap ℕ ℕ
  pub last_applied_index : ℕ
  pub committed_since_snap : ℕ
  pub sent : List (CommittedRecord ℕ)
  pub answers : List (ℕ × Outcome)
  pub world : W

-- the placeholder for an entry without data
abbrev pub heartbeat : WireRecord
heartbeat = record {
  seq = 0;
  log_record = record { bucket_id = ""; record_type = app_command; payload = [] };
}

-- the envelopes of the shadow log
abbrev pub normal_envelope : Entry → WireRecord → Envelope
normal_envelope ent wr = record {
  raft_index = ent.index;
  raft_term = ent.term;
  kind = entry_normal;
  app_bytes = wr.log_record.payload;
  app_crc = checksum wr.log_record.payload;
  flags = 0;
  namespace = "default";
  bucket = wr.log_record.bucket_id;
  opcode = wr.log_record.record_type % 2 ^ 32;
  sequence = wr.seq;
}

abbrev pub conf_envelope : Entry → Envelope
conf_envelope ent = record {
  raft_index = ent.index;
  raft_term = ent.term;
  kind = entry_normal;
  app_bytes = ent.bytes;
  app_crc = checksum ent.bytes;
  flags = 0;
  namespace = "default";
  bucket = "";
  opcode = 0;
  sequence = 0;
}
