-- ===== src/Emission/Applier/Tests.antt =====
-- The theorems on the applier at concrete inputs. A byte of the sample encoding is a whole payload.
use seven_db.Common.{ℕ, ◌≡◌, refl, some, [], ◌∷◌}
use seven_db.Common.Comparable.{string_key}
use seven_db.Emission.Manager.{World, new_world, apply_outbox_write}
use seven_db.Emission.Raft.{
  ReplicationPayload, RaftLogRecord, build_replication_record, bytes, is_ascii,
}
use seven_db.Emission.Applier.{Applier, apply_record}
use seven_db.Emission.Applier.Pipeline.{apply_record-data_event}
use seven_db.Emission.Samples.{at, json, leader, at-IsWritable}

apply_record-data_event_example :
    (r : RaftLogRecord ReplicationPayload) × (apply_record json leader 5
        (some (build_replication_record json "b" "DATA_EVENT" ("a:7" ∷ "v" ∷ [])))
        (new_world "b")
      ≡ (new_world "b", r ∷ []))
    × ((b : Applier) (j : ℕ) (v : World)
        → apply_record json b j (some r) v ≡ (apply_outbox_write "a:7" (at 5) (bytes "v") v, []))
unfolding is_ascii
apply_record-data_event_example =
    apply_record-data_event json leader refl 5 "b" "a:7" "v" (new_world "b") at-IsWritable refl refl
