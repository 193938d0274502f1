-- ===== src/Emission/Commands/Answers.antt =====
-- What the commands answer, and what an acknowledgment proposes.
use seven_db.Common.{
  ℕ, ◌≢◌, ◌≡◌, refl, ap, ◌∙◌, String, true, Option, some, List, [], ◌∷◌, arith, nat_beq, inl, inr,
  Bool-cases,
}
use seven_db.Common.Strconv.{parsed, parse_uint, format_uint}
use seven_db.Emission.Types.{EpochId, ReconnectAck, reconnect_ok}
use seven_db.Emission.Metrics.{MetricsRegistry}
use seven_db.Emission.Manager.{Manager, World, reconnect}
use seven_db.Emission.Raft.{RaftLogRecord, Json, build_replication_record, is_ascii, all_ascii}
use seven_db.Emission.Applier.{Applier, apply_record, apply_command, apply_ack, apply_ack_at}
use seven_db.Emission.Applier.Pipeline.{apply_built}
use seven_db.Emission.Commands.{
  KeyShard, ok, emission_reconnect, answer, emit_reconnect_request, reconnect_and_rebind, on_shard,
  with_index, emit_reconnect, proposed, ack_on_shard, ack_with_index, emit_ack,
}

-- the answer to a request of another epoch
abbrev from_start : EpochId → ReconnectAck
from_start e = record { status = reconnect_ok; current_epoch = e; next_commit_index = 0 }

reconnect_other_epoch :
    (m : Manager) (shard_id sub : String) (last_idx : ℕ)
    → m.current_epoch.epoch_counter ≢ 0
    → reconnect m (emit_reconnect_request shard_id sub last_idx) ≡ from_start m.current_epoch
unfolding reconnect
reconnect_other_epoch m shard_id sub last_idx live =
    elim (Bool-cases (nat_beq 0 m.current_epoch.epoch_counter)) [
      | inl same ↦ absurd (live (ground arith))
      | inr other ↦ rw (other, reconnect) refl
    ]

answer-from_start : (e : EpochId) → answer (from_start e) ≡ ok "OK 0"
unfolding answer format_uint
answer-from_start e = refl

-- the shard has a node, a notifier and the manager `m`
abbrev pub live_shard : String → Manager → KeyShard
live_shard shard_id m = record { raft_node = some shard_id; has_notifier = true; manager = some m }

-- On a shard whose epoch counter is not 0, EMITRECONNECT with three arguments and a decimal index
-- answers "OK 0" whatever the index is: the request names the epoch 0, so the position of the client
-- is compared with nothing.
pub emit_reconnect_answers_zero :
    (client_id key sub last shard_id : String) (rest : List String) (n : ℕ) (m : Manager)
    (r : MetricsRegistry)
    → parse_uint last ≡ parsed n
    → m.current_epoch.epoch_counter ≢ 0
    → (emit_reconnect client_id (key ∷ sub ∷ last ∷ rest) (live_shard shard_id m) r).0 ≡ ok "OK 0"
unfolding emit_reconnect with_index on_shard reconnect_and_rebind emission_reconnect
emit_reconnect_answers_zero client_id key sub last shard_id rest n m r p live =
    rw (p, with_index)
      (ap answer (reconnect_other_epoch m shard_id sub n live) ∙ answer-from_start m.current_epoch)

module _ {B : Type 0} (json : Json B) (propose : RaftLogRecord B → Option String) where
  -- EMITACK of ASCII text with a decimal index, on a shard with a node, proposes one record; it
  -- answers "ACKED" or the error of the proposal; and an applier that applies the record processes
  -- the acknowledgment of that index in the epoch 0 of the shard.
  pub emit_ack-apply_record :
      (key sub ci shard_id : String) (rest : List String) (n : ℕ) (sh : KeyShard)
      → parse_uint ci ≡ parsed n
      → sh.raft_node ≡ some shard_id
      → all_ascii (sub ∷ shard_id ∷ ci ∷ []) ≡ true
      → (r : RaftLogRecord B) × (emit_ack json propose (key ∷ sub ∷ ci ∷ rest) sh
          ≡ (proposed json propose (propose r), r ∷ []))
        × ((a : Applier) (idx : ℕ) (w : World)
            → apply_record json a idx (some r) w
              ≡ apply_ack_at json a sub
                  (record {
                    epoch = record { bucket_uuid = shard_id; epoch_counter = 0 };
                    commit_index = n;
                  })
                  w)
  unfolding emit_ack ack_with_index ack_on_shard apply_command apply_ack all_ascii is_ascii
      parse_uint
  emit_ack-apply_record key sub ci shard_id rest n sh p node ascii =
      let args : List String = sub ∷ shard_id ∷ "0" ∷ ci ∷ [] in
      (
        build_replication_record json shard_id "ACK" args,
        rw (p, node, ack_with_index, ack_on_shard) refl,
        λ a idx w. apply_built json a idx shard_id "ACK" args w refl ascii ∙ rw p refl,
      )
