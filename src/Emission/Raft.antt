-- ===== src/Emission/Raft.antt =====
-- internal/raft/types.go, as far as the emission layer uses it: the records of the replicated log,
-- and internal/emission/raft_integration.go: `RaftProposer` and the handler that `RegisterWithShard`
-- installs. JSON is a parameter, on a type `B` of bytes. A Go string is its bytes, one character of the model for each.
pub mod Ascii
mod Tests
unfoldable pub use seven_db.Common.Strconv.Fields.{is_ascii, all_ascii}
use Prim.Native.Char.{code}
use seven_db.Common.{
  ℕ, ◌≡◌, ◌&&◌, String, Bool, true, false, not, Option, none, some, List, [], ◌∷◌, if◌then◌else◌,
  nat_beq, ltb,
}
use seven_db.Common.Comparable.{◌==◌, string_key}
use seven_db.Common.Strconv.{parse_uint, format_uint, value}
use seven_db.Emission.Types.{EmitSeq, EpochId}
use seven_db.Emission.Manager.{World, apply_outbox_write, apply_outbox_purge}

-- []byte(s)
unfoldable pub bytes : String → List ℕ
bytes String.[] = []
bytes (String.◌∷◌ c s) = code c ∷ bytes s

pub record ReplicationPayload : Type 0 where
  pub version : ℕ
  pub cmd : String
  pub args : List String

pub record RaftLogRecord (B : Type 0) : Type 0 where
  pub bucket_id : String
  pub record_type : ℕ
  pub payload : List B

-- RaftRecordTypeAppCommand
abbrev pub app_command : ℕ
app_command = 1001

pub record CommittedRecord (B : Type 0) : Type 0 where
  pub raft_index : ℕ
  pub term : ℕ
  pub commit_index : ℕ
  pub log_record : Option (RaftLogRecord B)

abbrev pub is_empty {ℓ} : {A : Type ℓ} → List A → Bool
is_empty [] = true
is_empty (x ∷ xs) = false

-- encoding/json on payloads: ASCII text that is marshalled is not empty and unmarshals to what it
-- was. Bytes that are no UTF-8 are replaced by it, so the law says nothing of them.
pub record Json (B : Type 0) : Type 0 where
  pub marshal : ReplicationPayload → List B
  pub unmarshal : List B → Option ReplicationPayload
  pub unmarshal-marshal :
      (pl : ReplicationPayload)
      → is_ascii pl.cmd ≡ true
      → all_ascii pl.args ≡ true
      → unmarshal (marshal pl) ≡ some pl
  pub marshal_filled : (pl : ReplicationPayload) → is_empty (marshal pl) ≡ false

-- BuildReplicationRecord, which JSON does not fail for strings
abbrev pub build_replication_record :
    {B : Type 0} → Json B → String → String → List String → RaftLogRecord B
build_replication_record json bucket_id cmd args = record {
  bucket_id = bucket_id;
  record_type = app_command;
  payload = json.marshal (record { version = 1; cmd = cmd; args = args });
}

-- seq.Epoch and seq.CommitIndex as arguments
abbrev pub seq_args : EmitSeq → List String → List String
seq_args seq rest =
    seq.epoch.bucket_uuid
    ∷ format_uint seq.epoch.epoch_counter
    ∷ format_uint seq.commit_index
    ∷ rest

-- RaftProposer.ProposePurge: the record that it proposes
unfoldable pub propose_purge : {B : Type 0} → Json B → String → String → EmitSeq → RaftLogRecord B
propose_purge json bucket_id sub up_to =
    build_replication_record json bucket_id "OUTBOX_PURGE" (sub ∷ seq_args up_to [])

-- strconv.ParseUint(s, 10, 64), its error dropped
abbrev pub parse_u64 : String → ℕ
parse_u64 s = value (parse_uint s)

-- the position that three arguments name
abbrev pub seq_of : String → String → String → EmitSeq
seq_of bucket ec ci = record {
  epoch = record { bucket_uuid = bucket; epoch_counter = parse_u64 ec };
  commit_index = parse_u64 ci;
}

-- the handler of OUTBOX_WRITE: the delta is optional; false for the error
unfoldable pub handle_write : List String → World → World × Bool
handle_write (sub ∷ bucket ∷ ec ∷ ci ∷ []) w =
    (apply_outbox_write sub (seq_of bucket ec ci) [] w, true)
handle_write (sub ∷ bucket ∷ ec ∷ ci ∷ delta ∷ rest) w =
    (apply_outbox_write sub (seq_of bucket ec ci) (bytes delta) w, true)
handle_write _ w = (w, false)

unfoldable pub handle_purge : List String → World → World × Bool
handle_purge (sub ∷ bucket ∷ ec ∷ ci ∷ rest) w =
    (apply_outbox_purge sub (seq_of bucket ec ci) w, true)
handle_purge _ w = (w, false)

-- the handler of RegisterWithShard
unfoldable pub handle_replication : ReplicationPayload → World → World × Bool
handle_replication pl w =
    if pl.cmd == "SUBSCRIBE"
    then (w, true)
    else if pl.cmd == "OUTBOX_WRITE"
    then handle_write pl.args w
    else if pl.cmd == "OUTBOX_PURGE"
    then handle_purge pl.args w
    else (w, true)
