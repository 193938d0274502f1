-- ===== src/Emission/Metrics.antt =====
-- internal/emission/metrics.go: the gauges and counters that the other parts of the package update.
-- An int64 is its bit pattern, a number below 2 ^ 64. The wall clock and the measured durations are
-- arguments. The latency summary is kept in milliseconds that are not negative.
use seven_db.Common.{
  ℕ, ◌+◌, ◌-◌, ◌%◌, String, Option, none, some, [], if◌then◌else◌, ◌||◌, ltb, nat_beq,
}
use seven_db.Common.Comparable.{◌==◌, string_key}
use seven_db.Common.GoMap.{GoMap, get, put}
use seven_db.Emission.Types.{
  u64_mod, ReconnectStatus, reconnect_ok, reconnect_stale_sequence, reconnect_invalid_sequence,
  reconnect_subscription_not_found,
}

-- the fields …WindowStartSec, …WindowCount and …PerSec of one windowed rate
pub record Window : Type 0 where
  pub start_sec : ℕ
  pub window_count : ℕ
  pub per_sec : ℕ

pub record EmissionMetrics : Type 0 where
  pub pending_entries : ℕ
  pub subs_with_pending : ℕ
  pub sends_total : ℕ
  pub sends : Window
  pub acks_total : ℕ
  pub acks : Window
  pub lat_count : ℕ
  pub lat_total_ms : ℕ
  pub lat_min_ms : ℕ
  pub lat_max_ms : ℕ
  pub rec_ok : ℕ
  pub rec_stale : ℕ
  pub rec_invalid : ℕ
  pub rec_not_found : ℕ

pub record MetricsRegistry : Type 0 where
  pub global : EmissionMetrics
  pub buckets : GoMap String EmissionMetrics

abbrev pub zero_window : Window
zero_window = record { start_sec = 0; window_count = 0; per_sec = 0 }

abbrev pub zero_metrics : EmissionMetrics
zero_metrics = record {
  pending_entries = 0;
  subs_with_pending = 0;
  sends_total = 0;
  sends = zero_window;
  acks_total = 0;
  acks = zero_window;
  lat_count = 0;
  lat_total_ms = 0;
  lat_min_ms = 0;
  lat_max_ms = 0;
  rec_ok = 0;
  rec_stale = 0;
  rec_invalid = 0;
  rec_not_found = 0;
}

abbrev pub new_metrics_registry : MetricsRegistry
new_metrics_registry = record { global = zero_metrics; buckets = [] }

-- x.Add(delta) on an int64, and the bit pattern of -n
abbrev pub add_int64 : ℕ → ℕ → ℕ
add_int64 x delta = (x + delta) % u64_mod

abbrev pub neg_int64 : ℕ → ℕ
neg_int64 n = (u64_mod - n % u64_mod) % u64_mod

abbrev pub or_new : Option EmissionMetrics → EmissionMetrics
or_new none = zero_metrics
or_new (some m) = m

-- getBucket, and an update of the struct that it returns; it returns nil for the empty label
unfoldable pub on_bucket :
    String → (EmissionMetrics → EmissionMetrics) → MetricsRegistry → MetricsRegistry
on_bucket bucket f r =
    if bucket == ""
    then r
    else record r { buckets = put r.buckets bucket (f (or_new (get r.buckets bucket))) }

abbrev on_global : (EmissionMetrics → EmissionMetrics) → MetricsRegistry → MetricsRegistry
on_global f r = record r { global = f r.global }

abbrev add_pending_to : ℕ → EmissionMetrics → EmissionMetrics
add_pending_to delta m = record m { pending_entries = add_int64 m.pending_entries delta }

abbrev set_subs_to : ℕ → EmissionMetrics → EmissionMetrics
set_subs_to n m = record m { subs_with_pending = n % u64_mod }

unfoldable pub add_pending : ℕ → MetricsRegistry → MetricsRegistry
add_pending delta r = on_global (add_pending_to delta) r

unfoldable pub set_subs_with_pending : ℕ → MetricsRegistry → MetricsRegistry
set_subs_with_pending n r = on_global (set_subs_to n) r

unfoldable pub add_pending_for : String → ℕ → MetricsRegistry → MetricsRegistry
unfolding on_bucket
add_pending_for bucket delta r =
    on_bucket bucket (add_pending_to delta) (on_global (add_pending_to delta) r)

unfoldable pub set_subs_with_pending_for : String → ℕ → MetricsRegistry → MetricsRegistry
unfolding on_bucket
set_subs_with_pending_for bucket n r =
    on_bucket bucket (set_subs_to n) (on_global (set_subs_to n) r)

-- updateWindow
unfoldable pub update_window : ℕ → Window → Window
update_window now w =
    if nat_beq w.start_sec 0
    then record w { start_sec = now }
    else if ltb w.start_sec now
    then record { start_sec = now; window_count = 0; per_sec = w.window_count }
    else w

abbrev count_in_window : Window → Window
count_in_window w = record w { window_count = add_int64 w.window_count 1 }

-- observeSend, at the second `now` and after `ms` milliseconds
unfoldable pub observe_send : ℕ → ℕ → EmissionMetrics → EmissionMetrics
unfolding update_window
observe_send now ms m = record m {
  sends_total = add_int64 m.sends_total 1;
  sends = count_in_window (update_window now m.sends);
  lat_min_ms = if nat_beq m.lat_count 0 || ltb ms m.lat_min_ms then ms else m.lat_min_ms;
  lat_max_ms = if ltb m.lat_max_ms ms then ms else m.lat_max_ms;
  lat_count = add_int64 m.lat_count 1;
  lat_total_ms = add_int64 m.lat_total_ms ms;
}

unfoldable pub observe_send_for : String → ℕ → ℕ → MetricsRegistry → MetricsRegistry
unfolding on_bucket observe_send
observe_send_for bucket now ms r =
    on_bucket bucket (observe_send now ms) (on_global (observe_send now ms) r)

-- incAck
unfoldable pub inc_ack : ℕ → EmissionMetrics → EmissionMetrics
unfolding update_window
inc_ack now m = record m {
  acks_total = add_int64 m.acks_total 1;
  acks = count_in_window (update_window now m.acks);
}

unfoldable pub inc_ack_for : String → ℕ → MetricsRegistry → MetricsRegistry
unfolding on_bucket inc_ack
inc_ack_for bucket now r = on_bucket bucket (inc_ack now) (on_global (inc_ack now) r)

-- incReconnect
unfoldable pub inc_reconnect : ReconnectStatus → EmissionMetrics → EmissionMetrics
inc_reconnect reconnect_ok m = record m { rec_ok = add_int64 m.rec_ok 1 }
inc_reconnect reconnect_stale_sequence m = record m { rec_stale = add_int64 m.rec_stale 1 }
inc_reconnect reconnect_invalid_sequence m = record m { rec_invalid = add_int64 m.rec_invalid 1 }
inc_reconnect reconnect_subscription_not_found m = record m {
  rec_not_found = add_int64 m.rec_not_found 1;
}

unfoldable pub inc_reconnect_for : String → ReconnectStatus → MetricsRegistry → MetricsRegistry
unfolding on_bucket inc_reconnect
inc_reconnect_for bucket st r = on_bucket bucket (inc_reconnect st) (on_global (inc_reconnect st) r)
