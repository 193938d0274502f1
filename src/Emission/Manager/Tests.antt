-- ===== src/Emission/Manager/Tests.antt =====
-- The theorems on the manager at concrete inputs, and runs of the code.
use seven_db.Common.{ℕ, ◌≡◌, inl, inr, refl, true, List, [], ◌∷◌, arith}
use seven_db.Common.Comparable.{string_key, nat_key}
use seven_db.Common.GoMap.{get, put}
use seven_db.Emission.Types.{ClientAck, ReconnectRequest}
use seven_db.Emission.Outbox.Count.{total_in}
use seven_db.Emission.Manager.{
  Manager, World, new_world, apply_outbox_write, apply_outbox_purge, reconnect, validate_ack,
}
use seven_db.Emission.Manager.Acks.{accepted, IsMonotone, accepted-IsMonotone}
use seven_db.Emission.Metrics.{new_metrics_registry, zero_metrics}
use seven_db.Emission.Manager.{new_manager}
use seven_db.Emission.Manager.Gauges.{IsGauged, apply_outbox_purge-IsGauged}
use seven_db.Emission.Manager.Resume.{
  OutboxRecord, outbox_write, outbox_purge, apply_record, apply_records, awaits, reconnect_no_gap,
}
use seven_db.Emission.Samples.{epoch, at, two, two-IsValid}

abbrev ack : ℕ → ClientAck
ack i = record { sub_id = "a:7"; emit_seq = at i }

accepted_runs :
    accepted (ack 5 ∷ ack 4 ∷ ack 9 ∷ ack 9 ∷ []) (new_world "b").mgr ≡ ack 5 ∷ ack 9 ∷ []
unfolding accepted validate_ack get put
accepted_runs = refl

accepted-IsMonotone_example : IsMonotone (accepted (ack 5 ∷ ack 4 ∷ ack 9 ∷ []) (new_world "b").mgr)
accepted-IsMonotone_example = accepted-IsMonotone (ack 5 ∷ ack 4 ∷ ack 9 ∷ []) (new_world "b").mgr

abbrev manager : Manager
manager = record (new_manager "b") {
  ob = two;
  last_ack = ("a:7", at 3) ∷ ("c:7", at 4) ∷ [];
  current_epoch = epoch;
}

abbrev world : World
world = record {
  mgr = manager;
  metrics = record new_metrics_registry {
    global = record zero_metrics { pending_entries = 2; subs_with_pending = 1 };
  };
}

world-IsGauged : IsGauged world
unfolding total_in
world-IsGauged = record { entries = refl; subscriptions = refl }

apply_outbox_purge-IsGauged_example : IsGauged (apply_outbox_purge "a:7" (at 5) world)
apply_outbox_purge-IsGauged_example =
    apply_outbox_purge-IsGauged "a:7" (at 5) world two-IsValid.subs world-IsGauged

-- writes at 5, 7 and 9, and a purge through 5
abbrev records : List OutboxRecord
records =
    outbox_write "a:7" (at 5) []
    ∷ outbox_write "a:7" (at 7) []
    ∷ outbox_purge "a:7" (at 5)
    ∷ outbox_write "a:7" (at 9) []
    ∷ []

abbrev start : World
start = record (new_world "b") { mgr = record (new_manager "b") { current_epoch = epoch } }

abbrev request : ReconnectRequest
request = record { sub_id = "a:7"; last_processed_emit_seq = at 5 }

reconnect_no_gap_example : awaits (apply_records records start) "a:7" 7 ≡ true
unfolding apply_records apply_record apply_outbox_write apply_outbox_purge reconnect get put
reconnect_no_gap_example =
    reconnect_no_gap records start request 7 (tt, (tt, ((λ h. omega arith), (tt, tt)))) refl refl
      (inr (inl (refl, refl))) (omega arith)
