-- ===== src/Emission/Shard.antt =====
-- The wiring of a shard in internal/shardmanager/main.go: a committed record reaches the manager
-- twice, through the replication handler (`invokeReplicationHandler` of internal/raft/types.go), which the
-- raft node calls, and through the applier, a goroutine that reads the channel of committed records.
pub mod Replicas
pub mod Converges
mod Tests
use seven_db.Common.{
  ℕ, String, Bool, true, false, not, Option, none, some, List, [], ◌∷◌, ◌++◌, if◌then◌else◌, ◌||◌,
  nat_beq,
}
use seven_db.Emission.Manager.{World}
use seven_db.Emission.Raft.{
  ReplicationPayload, RaftLogRecord, CommittedRecord, Json, app_command, is_empty,
  handle_replication,
}
use seven_db.Emission.Applier.{Applier, apply_committed}

module _ {B : Type 0} (json : Json B) where
  unfoldable pub handle_decoded : Option ReplicationPayload → World → World
  handle_decoded none w = w
  handle_decoded (some pl) w = (handle_replication pl w).0

  -- invokeReplicationHandler, not strict: an error of the handler is only logged
  unfoldable pub invoke_replication_handler : Option (RaftLogRecord B) → World → World
  invoke_replication_handler none w = w
  invoke_replication_handler (some r) w =
      if not (nat_beq r.record_type app_command) || is_empty r.payload
      then w
      else handle_decoded (json.unmarshal r.payload) w

-- the manager of a shard, what stands on the channel of committed records, and what the applier proposed
pub record ShardState (B : Type 0) : Type 0 where
  pub world : World
  pub channel : List (CommittedRecord B)
  pub proposed : List (RaftLogRecord B)

pub data ShardEvent (B : Type 0) : Type 0 where
  commits : Bool → CommittedRecord B → ShardEvent B
  applier_turns : ShardEvent B

module _ {B : Type 0} (json : Json B) where
  -- the raft node commits a record of a bucket: the handler, and then the channel; `taken` tells whether
  -- the channel has room within the 100 ms that the node waits, and else the record is dropped
  unfoldable pub commit_record : Bool → CommittedRecord B → ShardState B → ShardState B
  unfolding invoke_replication_handler
  commit_record taken cr st = record {
    world = invoke_replication_handler json cr.log_record st.world;
    channel = if taken then st.channel ++ (cr ∷ []) else st.channel;
    proposed = st.proposed;
  }

  -- the goroutine of the applier takes a record from the channel
  unfoldable pub applier_turn : Applier → ShardState B → ShardState B
  applier_turn a st = elim st.channel [
    | [] ↦ st
    | cr ∷ rest ↦
        let done = apply_committed json a cr st.world in
        record { world = done.0; channel = rest; proposed = st.proposed ++ done.1 }
  ]

  unfoldable pub shard_event : Applier → ShardEvent B → ShardState B → ShardState B
  unfolding commit_record applier_turn
  shard_event a (commits taken cr) st = commit_record taken cr st
  shard_event a applier_turns st = applier_turn a st

  -- the raft node and the applier in any order
  unfoldable pub shard_events : Applier → List (ShardEvent B) → ShardState B → ShardState B
  unfolding shard_event
  shard_events a [] st = st
  shard_events a (ev ∷ evs) st = shard_events a evs (shard_event a ev st)
