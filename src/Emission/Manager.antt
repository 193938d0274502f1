-- ===== src/Emission/Manager.antt =====
-- internal/emission/outbox.go: `Manager`, which applies outbox records, validates acknowledgments
-- and answers reconnects. `World` is the manager beside the package variable `Metrics`. The fields
-- that a method reads under two locks are read in one step.
pub mod Gauges
pub mod Acks
pub mod Resume
mod Tests
use seven_db.Common.{
  ℕ, ◌+◌, ◌%◌, String, Bool, true, false, not, Option, none, some, List, [], if◌then◌else◌, ◌&&◌,
  ◌||◌, ltb, leb, nat_beq,
}
use seven_db.Common.Comparable.{◌==◌, string_key}
use seven_db.Common.GoMap.{GoMap, get, put, size, keys, or_zero}
use seven_db.Emission.Types.{
  u64_mod, EmitSeq, EpochId, zero_epoch, zero_seq, ReconnectRequest, ReconnectAck, reconnect_ok,
  reconnect_stale_sequence, reconnect_invalid_sequence,
}
use seven_db.Emission.Metrics.{
  MetricsRegistry, add_pending, add_pending_for, set_subs_with_pending, set_subs_with_pending_for,
  neg_int64, new_metrics_registry,
}
use seven_db.Emission.Outbox.{
  OutboxEntry, OutboxState, new_outbox_state, write, purge, pending_sorted,
}

pub record Manager : Type 0 where
  pub ob : OutboxState
  pub last_ack : GoMap String EmitSeq
  pub compact_through : GoMap String EmitSeq
  pub bucket_id : String
  pub current_epoch : EpochId

pub record World : Type 0 where
  pub mgr : Manager
  pub metrics : MetricsRegistry

-- NewManager
abbrev pub new_manager : String → Manager
new_manager bucket_id = record {
  ob = new_outbox_state;
  last_ack = [];
  compact_through = [];
  bucket_id = bucket_id;
  current_epoch = zero_epoch;
}

abbrev pub set_current_epoch : EpochId → Manager → Manager
set_current_epoch e m = record m { current_epoch = e }

-- SetCompactedThrough
unfoldable pub set_compacted_through : String → EmitSeq → Manager → Manager
set_compacted_through sub seq m = record m { compact_through = put m.compact_through sub seq }

-- the gauges, labelled unless the manager has no bucket
unfoldable pub gauge_subs : Manager → MetricsRegistry → MetricsRegistry
gauge_subs m r =
    if m.bucket_id == ""
    then set_subs_with_pending (size m.ob.by_sub) r
    else set_subs_with_pending_for m.bucket_id (size m.ob.by_sub) r

unfoldable pub gauge_pending : Manager → ℕ → MetricsRegistry → MetricsRegistry
gauge_pending m delta r =
    if m.bucket_id == "" then add_pending delta r else add_pending_for m.bucket_id delta r

-- ApplyOutboxWrite
unfoldable pub apply_outbox_write : String → EmitSeq → List ℕ → World → World
apply_outbox_write sub seq delta w =
    let (ob, new_sub) = write (record { sub_id = sub; seq = seq; delta = delta }) w.mgr.ob in
    let mgr : Manager = record (w.mgr) { ob = ob } in
    record {
      mgr = mgr;
      metrics = gauge_pending mgr 1 (if new_sub then gauge_subs mgr w.metrics else w.metrics);
    }

-- ApplyOutboxPurge
unfoldable pub apply_outbox_purge : String → EmitSeq → World → World
unfolding set_compacted_through
apply_outbox_purge sub up_to w =
    let (ob, removed, emptied) = purge sub up_to.commit_index w.mgr.ob in
    let mgr : Manager = set_compacted_through sub up_to (record (w.mgr) { ob = ob }) in
    let r = if ltb 0 removed then gauge_pending mgr (neg_int64 removed) w.metrics else w.metrics in
    record { mgr = mgr; metrics = if emptied then gauge_subs mgr r else r }

-- the guard of ValidateAck: the new position is not after the last one
abbrev pub regresses : EmitSeq → EmitSeq → Bool
regresses seq last =
    ltb seq.epoch.epoch_counter last.epoch.epoch_counter
    || (nat_beq seq.epoch.epoch_counter last.epoch.epoch_counter
        && leb seq.commit_index last.commit_index)

abbrev pub regresses_from : EmitSeq → Option EmitSeq → Bool
regresses_from seq none = false
regresses_from seq (some last) = regresses seq last

-- ValidateAck
unfoldable pub validate_ack : String → EmitSeq → Manager → Manager × Bool
validate_ack sub seq m =
    if regresses_from seq (get m.last_ack sub)
    then (m, false)
    else (record m { last_ack = put m.last_ack sub seq }, true)

-- SubsWithPending, in the order in which the map is visited
abbrev pub subs_with_pending : Manager → List String
subs_with_pending m = keys m.ob.by_sub

-- Pending
abbrev pub pending : Manager → String → List OutboxEntry
pending m sub = pending_sorted m.ob sub

-- hasLast && index > last.CommitIndex
abbrev pub ahead_of : ℕ → Option EmitSeq → Bool
ahead_of idx none = false
ahead_of idx (some last) = ltb last.commit_index idx

-- Reconnect
unfoldable pub reconnect : Manager → ReconnectRequest → ReconnectAck
reconnect m req =
    let compacted = or_zero zero_seq (get m.compact_through req.sub_id) in
    let last = get m.last_ack req.sub_id in
    let pos = req.last_processed_emit_seq in
    if not (nat_beq pos.epoch.epoch_counter m.current_epoch.epoch_counter)
    then record { status = reconnect_ok; current_epoch = m.current_epoch; next_commit_index = 0 }
    else if ahead_of pos.commit_index last
    then record {
      status = reconnect_invalid_sequence;
      current_epoch = m.current_epoch;
      next_commit_index = ((or_zero zero_seq last).commit_index + 1) % u64_mod;
    }
    else if ltb pos.commit_index compacted.commit_index
    then record {
      status = reconnect_stale_sequence;
      current_epoch = m.current_epoch;
      next_commit_index = compacted.commit_index;
    }
    else record {
      status = reconnect_ok;
      current_epoch = m.current_epoch;
      next_commit_index = (pos.commit_index + 1) % u64_mod;
    }

abbrev pub new_world : String → World
new_world bucket_id = record { mgr = new_manager bucket_id; metrics = new_metrics_registry }
