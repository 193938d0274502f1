-- ===== src/Emission/Raft/Tests.antt =====
-- Runs of the replication handler and of the proposer.
use seven_db.Common.{◌≡◌, refl, true, false, [], ◌∷◌}
use seven_db.Emission.Manager.{new_world}
use seven_db.Emission.Raft.{handle_replication, handle_write, bytes}

handle_replication_runs :
    ((handle_replication
        (record { version = 1; cmd = "OUTBOX_WRITE"; args = "a:7" ∷ [] })
        (new_world "b")).1
      ≡ false)
    × ((handle_replication (record { version = 1; cmd = "SUBSCRIBE"; args = [] }) (new_world "b")).1
        ≡ true)
    × (bytes "ab" ≡ 97 ∷ 98 ∷ [])
unfolding handle_replication handle_write bytes
handle_replication_runs = (refl, refl, refl)
