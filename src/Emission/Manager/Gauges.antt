-- ===== src/Emission/Manager/Gauges.antt =====
-- The gauges of pending entries and of subscriptions, against the outbox that they measure.
use seven_db.Common.{ℕ, ◌+◌, ◌%◌, ◌≡◌, String, none, some, List, arith, if◌then◌else◌, ltb}
use seven_db.Common.Comparable.{string_key}
use seven_db.Common.GoMap.{size}
use seven_db.Common.GoMap.Keys.{IsMap}
use seven_db.Emission.Types.{u64_mod, EmitSeq}
use seven_db.Emission.Metrics.{
  MetricsRegistry, add_pending, add_pending_for, set_subs_with_pending, set_subs_with_pending_for,
  neg_int64, add_int64,
}
use seven_db.Emission.Outbox.{OutboxEntry, write, purge}
use seven_db.Emission.Outbox.Entries.{entry_at}
use seven_db.Emission.Outbox.Count.{total, total-write, total-purge, size-write, size-purge}
use seven_db.Emission.Manager.{
  Manager, World, gauge_subs, gauge_pending, apply_outbox_write, apply_outbox_purge,
  set_compacted_through,
}

abbrev pub pending_gauge : MetricsRegistry → ℕ
pending_gauge r = r.global.pending_entries

abbrev pub subs_gauge : MetricsRegistry → ℕ
subs_gauge r = r.global.subs_with_pending

pub record IsGauged (w : World) : Type 0 where
  pub entries : pending_gauge w.metrics ≡ total w.mgr.ob % u64_mod
  pub subscriptions : subs_gauge w.metrics ≡ size w.mgr.ob.by_sub % u64_mod

module _ (m : Manager) (r : MetricsRegistry) where
  pending-gauge_pending :
      (delta : ℕ) → pending_gauge (gauge_pending m delta r) ≡ add_int64 (pending_gauge r) delta
  unfolding gauge_pending add_pending add_pending_for
  pending-gauge_pending delta = ground arith

  subs-gauge_pending : (delta : ℕ) → subs_gauge (gauge_pending m delta r) ≡ subs_gauge r
  unfolding gauge_pending add_pending add_pending_for
  subs-gauge_pending delta = ground arith

  pending-gauge_subs : pending_gauge (gauge_subs m r) ≡ pending_gauge r
  unfolding gauge_subs set_subs_with_pending set_subs_with_pending_for
  pending-gauge_subs = ground arith

  subs-gauge_subs : subs_gauge (gauge_subs m r) ≡ size m.ob.by_sub % u64_mod
  unfolding gauge_subs set_subs_with_pending set_subs_with_pending_for
  subs-gauge_subs = ground arith

module _ (sub : String) (seq : EmitSeq) (delta : List ℕ) (w : World) where
  abbrev entry : OutboxEntry
  entry = record { sub_id = sub; seq = seq; delta = delta }

  abbrev after : Manager
  after = record (w.mgr) { ob = (write entry w.mgr.ob).0 }

  abbrev counted : MetricsRegistry
  counted = if (write entry w.mgr.ob).1 then gauge_subs after w.metrics else w.metrics

  pub pending-write :
      pending_gauge (apply_outbox_write sub seq delta w).metrics
      ≡ add_int64 (pending_gauge w.metrics) 1
  unfolding apply_outbox_write
  pending-write =
      ground (arith, pending-gauge_pending after counted 1, pending-gauge_subs after w.metrics)

  pub subs-write : subs_gauge (apply_outbox_write sub seq delta w).metrics ≡ (
      if (write entry w.mgr.ob).1
      then size (write entry w.mgr.ob).0.by_sub % u64_mod
      else subs_gauge w.metrics)
  unfolding apply_outbox_write
  subs-write = ground (arith, subs-gauge_pending after counted 1, subs-gauge_subs after w.metrics)

  -- Writing an entry at a free position keeps both gauges at what the outbox holds.
  pub apply_outbox_write-IsGauged :
      entry_at w.mgr.ob sub seq.commit_index ≡ none
      → IsGauged w
      → IsGauged (apply_outbox_write sub seq delta w)
  unfolding apply_outbox_write
  apply_outbox_write-IsGauged free g = record {
    entries = ground (arith, pending-write, total-write entry w.mgr.ob);
    subscriptions = ground (arith, subs-write, size-write entry w.mgr.ob);
  }

  -- Writing at a position that already holds an entry replaces the entry and still adds one to the
  -- gauge of pending entries, which then reads one more than the outbox holds.
  pub apply_outbox_write_over :
      (old : OutboxEntry)
      → entry_at w.mgr.ob sub seq.commit_index ≡ some old
      → IsGauged w
      → (total (apply_outbox_write sub seq delta w).mgr.ob ≡ total w.mgr.ob)
        × (pending_gauge (apply_outbox_write sub seq delta w).metrics
            ≡ (total (apply_outbox_write sub seq delta w).mgr.ob + 1) % u64_mod)
  unfolding apply_outbox_write
  apply_outbox_write_over old taken g = (
    ground (arith, total-write entry w.mgr.ob),
    ground (arith, pending-write, total-write entry w.mgr.ob),
  )

module _ (sub : String) (up_to : EmitSeq) (w : World) where
  abbrev purged : Manager
  purged =
      set_compacted_through sub up_to
        (record (w.mgr) { ob = (purge sub up_to.commit_index w.mgr.ob).0 })

  abbrev removed : ℕ
  removed = (purge sub up_to.commit_index w.mgr.ob).1

  abbrev reduced : MetricsRegistry
  reduced = if ltb 0 removed then gauge_pending purged (neg_int64 removed) w.metrics else w.metrics

  -- Applying a purge keeps both gauges at what the outbox holds.
  pub apply_outbox_purge-IsGauged :
      IsMap w.mgr.ob.by_sub → IsGauged w → IsGauged (apply_outbox_purge sub up_to w)
  unfolding apply_outbox_purge
  apply_outbox_purge-IsGauged v g = record {
    entries = ground (
      arith,
      total-purge sub up_to.commit_index w.mgr.ob v,
      pending-gauge_pending purged w.metrics (neg_int64 removed),
      pending-gauge_subs purged reduced,
    );
    subscriptions = ground (
      arith,
      size-purge sub up_to.commit_index w.mgr.ob v,
      subs-gauge_pending purged w.metrics (neg_int64 removed),
      subs-gauge_subs purged reduced,
    );
  }
