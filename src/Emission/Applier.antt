-- ===== src/Emission/Applier.antt =====
-- internal/emission/applier.go: `Applier`, which turns committed records of the raft log into
-- operations of the manager. What it proposes to raft is an output: the answer of raft is only
-- logged. Logging is left out.
pub mod Pipeline
mod Tests
use seven_db.Common.{
  ℕ, ◌&&◌, ◌||◌, String, Bool, true, false, not, Option, none, some, List, [], ◌∷◌, if◌then◌else◌,
  nat_beq,
}
use seven_db.Common.Comparable.{◌==◌, string_key}
use seven_db.Common.Strconv.{format_uint}
use seven_db.Emission.Types.{EmitSeq, EpochId}
use seven_db.Emission.Manager.{
  Manager, World, set_current_epoch, apply_outbox_write, apply_outbox_purge, validate_ack,
}
use seven_db.Emission.Raft.{
  bytes, ReplicationPayload, RaftLogRecord, CommittedRecord, app_command, Json,
  build_replication_record, seq_args, seq_of, is_empty,
}

-- the node of the applier is asked for its role only
pub record Applier : Type 0 where
  pub is_leader : Bool
  pub epoch : EpochId

-- NewApplier, at the time `now` in nanoseconds: the applier, and the manager with its epoch set
unfoldable pub new_applier : Bool → ℕ → String → Manager → Applier × Manager
new_applier is_leader now bucket_uuid m =
    let epoch : EpochId = record { bucket_uuid = bucket_uuid; epoch_counter = now } in
    (record { is_leader = is_leader; epoch = epoch }, set_current_epoch epoch m)

module _ {B : Type 0} (json : Json B) (a : Applier) where
  -- DATA_EVENT: the leader proposes an OUTBOX_WRITE at the index of the event
  unfoldable pub apply_data_event : ℕ → List String → World → World × List (RaftLogRecord B)
  apply_data_event idx (sub ∷ delta ∷ rest) w = (
    w,
    if a.is_leader
        then build_replication_record json a.epoch.bucket_uuid "OUTBOX_WRITE"
            (sub ∷ seq_args (record { epoch = a.epoch; commit_index = idx }) (delta ∷ []))
          ∷ []
        else [],
  )
  apply_data_event idx _ w = (w, [])

  -- OUTBOX_WRITE
  unfoldable pub apply_write : List String → World → World
  apply_write (sub ∷ bucket ∷ ec ∷ ci ∷ delta ∷ rest) w =
      apply_outbox_write sub (seq_of bucket ec ci) (bytes delta) w
  apply_write _ w = w

  -- ACK: an accepted one makes the leader propose an OUTBOX_PURGE
  unfoldable pub apply_ack_at : String → EmitSeq → World → World × List (RaftLogRecord B)
  apply_ack_at sub seq w =
      let (mgr, ok) = validate_ack sub seq w.mgr in
      (
        record w { mgr = mgr },
        if ok && a.is_leader
            then build_replication_record json seq.epoch.bucket_uuid "OUTBOX_PURGE"
                (sub ∷ seq_args seq [])
              ∷ []
            else [],
      )

  unfoldable pub apply_ack : List String → World → World × List (RaftLogRecord B)
  apply_ack (sub ∷ bucket ∷ ec ∷ ci ∷ rest) w = apply_ack_at sub (seq_of bucket ec ci) w
  apply_ack _ w = (w, [])

  -- OUTBOX_PURGE
  unfoldable pub apply_purge : List String → World → World
  apply_purge (sub ∷ bucket ∷ ec ∷ ci ∷ rest) w = apply_outbox_purge sub (seq_of bucket ec ci) w
  apply_purge _ w = w

  -- applyCommand, for the record at the bucket's commit index `idx`
  unfoldable pub apply_command : ℕ → ReplicationPayload → World → World × List (RaftLogRecord B)
  apply_command idx pl w =
      if pl.cmd == "SUBSCRIBE"
      then (w, [])
      else if pl.cmd == "DATA_EVENT"
      then apply_data_event idx pl.args w
      else if pl.cmd == "OUTBOX_WRITE"
      then (apply_write pl.args w, [])
      else if pl.cmd == "ACK"
      then apply_ack pl.args w
      else if pl.cmd == "OUTBOX_PURGE"
      then (apply_purge pl.args w, [])
      else (w, [])

  unfoldable pub apply_decoded :
      ℕ → Option ReplicationPayload → World → World × List (RaftLogRecord B)
  apply_decoded idx none w = (w, [])
  apply_decoded idx (some pl) w = apply_command idx pl w

  -- the body of the loop of Start
  unfoldable pub apply_record :
      ℕ → Option (RaftLogRecord B) → World → World × List (RaftLogRecord B)
  apply_record idx none w = (w, [])
  apply_record idx (some r) w =
      if not (nat_beq r.record_type app_command) || is_empty r.payload
      then (w, [])
      else apply_decoded idx (json.unmarshal r.payload) w

  unfoldable pub apply_committed : CommittedRecord B → World → World × List (RaftLogRecord B)
  apply_committed cr w = apply_record cr.commit_index cr.log_record w
