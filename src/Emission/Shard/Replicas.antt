-- ===== src/Emission/Shard/Replicas.antt =====
-- What the handler and the applier make of an outbox record: both apply its change.
use seven_db.Common.{ℕ, ◌≡◌, refl, ap, String, true, some, [], ◌∷◌}
use seven_db.Common.Comparable.{nat_key, string_key}
use seven_db.Emission.Types.{EmitSeq}
use seven_db.Emission.Outbox.Entries.{entry_at, entry_at-write, entry_at-purge}
use seven_db.Emission.Outbox.Refines.{Change, written, purged, specified}
use seven_db.Emission.Manager.{World, apply_outbox_write, apply_outbox_purge, set_compacted_through}
use seven_db.Emission.Raft.{
  bytes, RaftLogRecord, Json, build_replication_record, seq_args, is_ascii, handle_replication,
  handle_write, handle_purge,
}
use seven_db.Emission.Applier.{Applier, apply_record}
use seven_db.Emission.Applier.Pipeline.{
  IsWritable, seq_of-format_uint, write_applied, purge_applied, all_ascii-write, all_ascii-seq,
}
use seven_db.Emission.Shard.{handle_decoded, invoke_replication_handler}

-- the two records that change an outbox
pub data OutboxRecord : Type 0 where
  outbox_write : String → EmitSeq → String → OutboxRecord
  outbox_purge : String → EmitSeq → OutboxRecord

abbrev pub change_of : OutboxRecord → Change
change_of (outbox_write sub seq delta) =
    written (record { sub_id = sub; seq = seq; delta = bytes delta })
change_of (outbox_purge sub seq) = purged sub seq.commit_index

-- an epoch and an index of 64 bits, and ASCII text
abbrev pub IsLoggable : OutboxRecord → Type 0
IsLoggable (outbox_write sub seq delta) =
    IsWritable seq × (is_ascii sub ≡ true) × (is_ascii delta ≡ true)
IsLoggable (outbox_purge sub seq) = IsWritable seq × (is_ascii sub ≡ true)

-- what both make of the manager
abbrev pub effect : OutboxRecord → World → World
effect (outbox_write sub seq delta) w = apply_outbox_write sub seq (bytes delta) w
effect (outbox_purge sub seq) w = apply_outbox_purge sub seq w

pub entry_at-effect :
    (r : OutboxRecord) (w : World) (s : String) (i : ℕ)
    → entry_at (effect r w).mgr.ob s i ≡ specified (change_of r) (entry_at w.mgr.ob) s i
unfolding apply_outbox_write apply_outbox_purge set_compacted_through specified
entry_at-effect (outbox_write sub seq delta) w s i =
    entry_at-write (record { sub_id = sub; seq = seq; delta = bytes delta }) w.mgr.ob s i
entry_at-effect (outbox_purge sub seq) w s i = entry_at-purge sub seq.commit_index w.mgr.ob s i

module _ {B : Type 0} (json : Json B) where
  abbrev pub log_record_of : OutboxRecord → RaftLogRecord B
  log_record_of (outbox_write sub seq delta) =
      build_replication_record json seq.epoch.bucket_uuid "OUTBOX_WRITE"
        (sub ∷ seq_args seq (delta ∷ []))
  log_record_of (outbox_purge sub seq) =
      build_replication_record json seq.epoch.bucket_uuid "OUTBOX_PURGE" (sub ∷ seq_args seq [])

  pub handler-effect :
      (r : OutboxRecord) (w : World)
      → IsLoggable r
      → invoke_replication_handler json (some (log_record_of r)) w ≡ effect r w
  unfolding invoke_replication_handler handle_decoded handle_replication handle_write handle_purge
      is_ascii
  handler-effect (outbox_write sub seq delta) w h =
      rw
        (
          json.marshal_filled (record {
            version = 1;
            cmd = "OUTBOX_WRITE";
            args = sub ∷ seq_args seq (delta ∷ []);
          }),
          json.unmarshal-marshal
              (record { version = 1; cmd = "OUTBOX_WRITE"; args = sub ∷ seq_args seq (delta ∷ []) })
              refl (all_ascii-write sub delta seq h.0 h.1 h.2),
        )
        (ap (λ q. apply_outbox_write sub q (bytes delta) w) (seq_of-format_uint seq h.0))
  handler-effect (outbox_purge sub seq) w h =
      rw
        (
          json.marshal_filled
              (record { version = 1; cmd = "OUTBOX_PURGE"; args = sub ∷ seq_args seq [] }),
          json.unmarshal-marshal
              (record { version = 1; cmd = "OUTBOX_PURGE"; args = sub ∷ seq_args seq [] }) refl
              (all_ascii-seq sub seq h.0 h.1),
        )
        (ap (λ q. apply_outbox_purge sub q w) (seq_of-format_uint seq h.0))

  pub applier-effect :
      (a : Applier) (idx : ℕ) (r : OutboxRecord) (w : World)
      → IsLoggable r
      → apply_record json a idx (some (log_record_of r)) w ≡ (effect r w, [])
  applier-effect a idx (outbox_write sub seq delta) w h =
      write_applied json a idx seq.epoch.bucket_uuid sub delta seq w h.0 h.1 h.2
  applier-effect a idx (outbox_purge sub seq) w h =
      purge_applied json a idx seq.epoch.bucket_uuid sub seq w h.0 h.1
