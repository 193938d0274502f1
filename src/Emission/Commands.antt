-- ===== src/Emission/Commands.antt =====
-- internal/cmd/cmd_emitreconnect.go and internal/cmd/cmd_emitack.go, with the methods of
-- internal/shardmanager/main.go that they call. `KeyShard` is the shard that owns the key: a nil node
-- or manager is `none`. Proposals to raft are answered by a parameter. Logging is left out.
pub mod Answers
use Prim.Native.String.{◌++◌}
use seven_db.Common.{
  ℕ, String, Bool, true, false, not, Option, none, some, List, [], ◌∷◌, if◌then◌else◌, ◌||◌,
  nat_beq,
}
use seven_db.Common.Comparable.{◌==◌, string_key}
use seven_db.Common.Strconv.{
  Parsed, parsed, syntax_error, range_error, parse_uint, format_uint, split_colon,
}
use seven_db.Emission.Types.{
  EmitSeq, EpochId, zero_epoch, ReconnectRequest, ReconnectAck, ReconnectStatus, reconnect_ok,
  reconnect_stale_sequence, reconnect_invalid_sequence, reconnect_subscription_not_found,
}
use seven_db.Emission.Metrics.{MetricsRegistry, inc_reconnect_for}
use seven_db.Emission.Manager.{Manager, reconnect}
use seven_db.Emission.Rebind.{rebind_by_fingerprint}
use seven_db.Emission.Raft.{RaftLogRecord, Json, build_replication_record}

pub record KeyShard : Type 0 where
  -- the node's ShardID
  pub raft_node : Option String
  pub has_notifier : Bool
  pub manager : Option Manager

-- the status and the message of a result
pub data CmdRes : Type 0 where
  ok err : String → CmdRes

-- EmissionReconnectForKey
unfoldable pub emission_reconnect : Option Manager → ReconnectRequest → ReconnectAck
emission_reconnect none req = record {
  status = reconnect_ok;
  current_epoch = zero_epoch;
  next_commit_index = 0;
}
emission_reconnect (some m) req = reconnect m req

-- EmissionRebindForKey
unfoldable pub emission_rebind : Option Manager → ℕ → String → String → Option Manager
emission_rebind none fp old_client new_client = none
emission_rebind (some m) fp old_client new_client =
    some (rebind_by_fingerprint fp old_client new_client m).0

-- the fingerprint after the colon of a subscription id, 0 where it is no number
unfoldable pub fp_of : Parsed → ℕ
fp_of (parsed v) = v
fp_of syntax_error = 0
fp_of range_error = 0

-- the old client and the fingerprint of a subscription id
unfoldable pub sub_parts : Option (String × String) → String × ℕ
unfolding fp_of
sub_parts none = ("", 0)
sub_parts (some (client, rest)) = (client, fp_of (parse_uint rest))

unfoldable pub answer : ReconnectAck → CmdRes
answer ack = elim ack.status [
  | reconnect_ok ↦ ok ("OK " ++ format_uint ack.next_commit_index)
  | reconnect_stale_sequence ↦ err "STALE_SEQUENCE"
  | reconnect_invalid_sequence ↦ err "INVALID_SEQUENCE"
  | reconnect_subscription_not_found ↦ err "SUBSCRIPTION_NOT_FOUND"
]

-- the request of EMITRECONNECT, in the epoch 0 of the shard
abbrev pub emit_reconnect_request : String → String → ℕ → ReconnectRequest
emit_reconnect_request shard_id sub last_idx = record {
  sub_id = sub;
  last_processed_emit_seq = record {
    epoch = record { bucket_uuid = shard_id; epoch_counter = 0 };
    commit_index = last_idx;
  };
}

-- the command once its arguments are read and the shard has a node and a notifier
unfoldable pub reconnect_and_rebind :
    String → String → String → ℕ → KeyShard → MetricsRegistry → CmdRes × KeyShard × MetricsRegistry
reconnect_and_rebind client_id shard_id sub last_idx sh r =
    let ack = emission_reconnect sh.manager (emit_reconnect_request shard_id sub last_idx) in
    let (old_client, fp) = sub_parts (split_colon sub) in
    (
      answer ack,
      if not (nat_beq fp 0) || not (old_client == "")
          then record sh { manager = emission_rebind sh.manager fp old_client client_id }
          else sh,
      inc_reconnect_for shard_id ack.status r,
    )

-- the checks of the shard, in the order of the code
unfoldable pub on_shard :
    String
    → String
    → ℕ
    → Option String
    → KeyShard
    → MetricsRegistry
    → CmdRes × KeyShard × MetricsRegistry
on_shard client_id sub last_idx none sh r = (err "raft not enabled for shard", sh, r)
on_shard client_id sub last_idx (some shard_id) sh r =
    if sh.has_notifier
    then reconnect_and_rebind client_id shard_id sub last_idx sh r
    else (err "emission not enabled for shard", sh, r)

unfoldable pub with_index :
    String → String → Parsed → KeyShard → MetricsRegistry → CmdRes × KeyShard × MetricsRegistry
with_index client_id sub (parsed last_idx) sh r = on_shard client_id sub last_idx sh.raft_node sh r
with_index client_id sub syntax_error sh r = (err "invalid last_commit_index", sh, r)
with_index client_id sub range_error sh r = (err "invalid last_commit_index", sh, r)

-- EMITRECONNECT key sub_id last_commit_index, from the connection `client_id`
unfoldable pub emit_reconnect :
    String → List String → KeyShard → MetricsRegistry → CmdRes × KeyShard × MetricsRegistry
emit_reconnect client_id (key ∷ sub ∷ last ∷ rest) sh r =
    with_index client_id sub (parse_uint last) sh r
emit_reconnect client_id _ sh r = (err "usage: EMITRECONNECT key sub_id last_commit_index", sh, r)

module _ {B : Type 0} (json : Json B) (propose : RaftLogRecord B → Option String) where
  -- the answer of ProposeAndWait: nil or an error's text
  unfoldable pub proposed : Option String → CmdRes
  proposed none = ok "ACKED"
  proposed (some e) = err e

  unfoldable pub ack_on_shard : String → String → Option String → CmdRes × List (RaftLogRecord B)
  unfolding proposed
  ack_on_shard sub ci none = (err "raft not enabled for shard", [])
  ack_on_shard sub ci (some shard_id) =
      let rec = build_replication_record json shard_id "ACK" (sub ∷ shard_id ∷ "0" ∷ ci ∷ []) in
      (proposed (propose rec), rec ∷ [])

  unfoldable pub ack_with_index :
      String → String → Parsed → KeyShard → CmdRes × List (RaftLogRecord B)
  ack_with_index sub ci (parsed n) sh = ack_on_shard sub ci sh.raft_node
  ack_with_index sub ci syntax_error sh = (err "invalid commit_index", [])
  ack_with_index sub ci range_error sh = (err "invalid commit_index", [])

  -- EMITACK key sub_id commit_index: the answer, and what is proposed
  unfoldable pub emit_ack : List String → KeyShard → CmdRes × List (RaftLogRecord B)
  emit_ack (key ∷ sub ∷ ci ∷ rest) sh = ack_with_index sub ci (parse_uint ci) sh
  emit_ack _ sh = (err "usage: EMITACK key sub_id commit_index", [])
