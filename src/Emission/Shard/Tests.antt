-- ===== src/Emission/Shard/Tests.antt =====
-- The theorem on a shard at concrete events, and runs of the code.
use seven_db.Common.{◌≡◌, refl, true, false, Option, none, some, List, [], ◌∷◌}
use seven_db.Common.Comparable.{string_key, nat_key}
use seven_db.Common.GoMap.{get, put, remove, has}
use seven_db.Common.Strconv.{parse_uint, format_uint, format_digits, digit, is_digit, parse_digits}
use seven_db.Emission.Applier.{
  apply_committed, apply_record, apply_decoded, apply_command, apply_write, apply_purge,
}
use seven_db.Emission.Manager.{
  new_world, apply_outbox_write, apply_outbox_purge, set_compacted_through,
}
use seven_db.Emission.Outbox.Entries.{entry_at}
use seven_db.Emission.Outbox.{OutboxEntry, write, purge, purge_entries}
use seven_db.Emission.Outbox.Refines.{all_specified}
use seven_db.Emission.Raft.{
  bytes, handle_replication, handle_purge, handle_write, is_ascii, ReplicationPayload,
}
use seven_db.Emission.Shard.{ShardEvent, commits, applier_turns, shard_events, handle_decoded}
use seven_db.Emission.Shard.Replicas.{outbox_write, outbox_purge}
use seven_db.Emission.Shard.Converges.{
  Logged, Step, logs, turns, AllLoggable, logged, committed, events_of, idle,
  shard_events-converges,
}
use seven_db.Emission.Samples.{at, json, leader, at-IsWritable}

abbrev writing : Logged
writing = record {
  raft_index = 8;
  term = 1;
  commit_index = 6;
  outbox_record = outbox_write "a:7" (at 5) "v";
}

abbrev purging : Logged
purging = record {
  raft_index = 9;
  term = 1;
  commit_index = 7;
  outbox_record = outbox_purge "a:7" (at 5);
}

-- the purge is committed before the applier has a turn
abbrev steps : List Step
steps = logs writing ∷ logs purging ∷ turns ∷ turns ∷ []

steps-Loggable : AllLoggable (logged steps)
unfolding is_ascii
steps-Loggable = ((at-IsWritable, refl, refl), ((at-IsWritable, refl), tt))

steps_drain :
    (shard_events json leader (events_of json leader steps) (idle (new_world "b"))).channel ≡ []
unfolding shard_events
steps_drain = refl

shard_events-converges_example :
    entry_at
      (shard_events json leader (events_of json leader steps) (idle (new_world "b"))).world.mgr.ob
      "a:7"
      5
    ≡ none
unfolding all_specified
shard_events-converges_example =
    shard_events-converges json leader steps (new_world "b") steps-Loggable steps_drain "a:7" 5

-- what the subscription holds at 5 after events from an empty outbox
abbrev held : List (ShardEvent ReplicationPayload) → Option OutboxEntry
held evs = entry_at (shard_events json leader evs (idle (new_world "b"))).world.mgr.ob "a:7" 5

abbrev stored : OutboxEntry
stored = record { sub_id = "a:7"; seq = at 5; delta = bytes "v" }

-- Between the turns of the applier the entry is back, though its purge is committed. Where the channel
-- does not take the purge, it stays.
brought_back :
    (held (events_of json leader (logs writing ∷ logs purging ∷ turns ∷ [])) ≡ some (stored))
    × (held (
          commits true (committed json leader writing)
          ∷ commits false (committed json leader purging)
          ∷ applier_turns
          ∷ [])
        ≡ some (stored))
unfolding shard_events entry_at get put remove has apply_committed apply_record apply_decoded
    apply_command apply_write apply_purge apply_outbox_write apply_outbox_purge
    set_compacted_through write purge purge_entries handle_decoded handle_replication handle_purge
    handle_write parse_uint format_uint format_digits digit is_digit parse_digits bytes
brought_back = (refl, refl)
