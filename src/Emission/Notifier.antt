-- ===== src/Emission/Notifier.antt =====
-- internal/emission/notifier.go: `Notifier`, which sends pending entries and processes
-- acknowledgments. The transport is a parameter: `send` tells for each event whether `Sender.Send`
-- returned nil, `timing` gives the second and the milliseconds that the metrics observe. A proposal
-- to raft is an output. The two test hooks are nil, as in production, so nothing cancels a tick.
pub mod Delivery
pub mod Due
pub mod Settle
mod Tests
use text.Mathlib.Text.{starts_with}
use Prim.Native.String.{◌++◌}
use mathlib.Core.List.{◌++◌ as append}
use seven_db.Common.{
  ℕ, String, Bool, true, false, Option, none, some, List, [], ◌∷◌, if◌then◌else◌, ◌&&◌, ◌||◌, ltb,
  leb, nat_beq,
}
use seven_db.Common.Comparable.{◌==◌, string_key}
use seven_db.Common.GoMap.{GoMap, get, put, remove, size, keys, or_zero}
use seven_db.Common.Lists.{length}
use seven_db.Emission.Types.{EmitSeq, zero_seq, DataEvent, ClientAck, is_newer}
use seven_db.Emission.Metrics.{
  MetricsRegistry, set_subs_with_pending, set_subs_with_pending_for, observe_send, observe_send_for,
  inc_ack, inc_ack_for,
}
use seven_db.Emission.Outbox.{OutboxEntry}
use seven_db.Emission.Manager.{
  Manager, World, validate_ack, apply_outbox_purge, subs_with_pending, pending, regresses,
}

pub record Notifier : Type 0 where
  pub resume_from : GoMap String ℕ
  pub sent_through : GoMap String EmitSeq
  pub bucket_id : String

abbrev pub new_notifier : String → Notifier
new_notifier bucket_id = record { resume_from = []; sent_through = []; bucket_id = bucket_id }

-- SetResumeFrom
unfoldable pub set_resume_from : String → ℕ → Notifier → Notifier
set_resume_from sub next n =
    if nat_beq next 0 then record n { resume_from = remove n.resume_from sub } else record n {
      resume_from = put n.resume_from sub next;
      sent_through = remove n.sent_through sub;
    }

-- the loop of ClearWatermarksForClient
unfoldable pub clear_prefix : String → GoMap String EmitSeq → GoMap String EmitSeq
clear_prefix prefix [] = []
clear_prefix prefix ((sub, seq) ∷ m) =
    let rest = clear_prefix prefix m in if starts_with sub prefix then rest else (sub, seq) ∷ rest

-- ClearWatermarksForClient
unfoldable pub clear_watermarks_for_client : String → Notifier → Notifier
unfolding clear_prefix
clear_watermarks_for_client client n = record n {
  sent_through = clear_prefix (client ++ ":") n.sent_through;
}

-- the notifier, its manager and the metrics
pub record NotifierWorld : Type 0 where
  pub notifier : Notifier
  pub world : World

abbrev newer_than_sent : EmitSeq → Option EmitSeq → Bool
newer_than_sent seq none = true
newer_than_sent seq (some last) = is_newer seq last

-- the watermark of what is sent, after an acknowledgment
unfoldable pub advance_sent : String → EmitSeq → Notifier → Notifier
advance_sent sub seq n =
    if newer_than_sent seq (get n.sent_through sub)
    then record n { sent_through = put n.sent_through sub seq }
    else n

unfoldable pub count_ack : Notifier → ℕ → MetricsRegistry → MetricsRegistry
unfolding inc_ack
count_ack n now r =
    if n.bucket_id == ""
    then record r { global = inc_ack now r.global }
    else inc_ack_for n.bucket_id now r

-- one acknowledgment, as `loop` and `processAcks` handle it: with a proposer the purge is proposed,
-- without one it is applied
unfoldable pub process_ack :
    Bool → ℕ → ClientAck → NotifierWorld → NotifierWorld × List (String × EmitSeq)
unfolding advance_sent count_ack
process_ack proposer now ack d =
    let (mgr, valid) = validate_ack ack.sub_id ack.emit_seq d.world.mgr in
    let n = advance_sent ack.sub_id ack.emit_seq d.notifier in
    let w : World = record { mgr = mgr; metrics = count_ack n now d.world.metrics } in
    if valid
    then if proposer
      then (record { notifier = n; world = w }, (ack.sub_id, ack.emit_seq) ∷ [])
      else (record { notifier = n; world = apply_outbox_purge ack.sub_id ack.emit_seq w }, [])
    else (d, [])

-- processAcks: the queued acknowledgments in order, with the purges proposed
unfoldable pub process_acks :
    Bool → ℕ → List ClientAck → NotifierWorld → NotifierWorld × List (String × EmitSeq)
unfolding process_ack
process_acks proposer now [] d = (d, [])
process_acks proposer now (ack ∷ acks) d =
    let (d', proposed) = process_ack proposer now ack d in
    let (d'', more) = process_acks proposer now acks d' in (d'', append proposed more)

-- what happens to one pending entry
pub data Decision : Type 0 where
  skip stop deliver : Decision

abbrev pub event_of : String → OutboxEntry → DataEvent
event_of sub e = record { sub_id = sub; emit_seq = e.seq; delta = e.delta }

abbrev pub last_sent : Notifier → String → EmitSeq
last_sent n sub = or_zero zero_seq (get n.sent_through sub)

abbrev pub resume_index : Notifier → String → ℕ
resume_index n sub = or_zero 0 (get n.resume_from sub)

-- a nil sender stops the subscription, and so does a failed send
abbrev sends : Option (DataEvent → Bool) → DataEvent → Bool
sends none ev = false
sends (some send) ev = send ev

unfoldable pub decide_entry : Option (DataEvent → Bool) → String → OutboxEntry → Notifier → Decision
decide_entry sender sub e n =
    if regresses e.seq (last_sent n sub)
    then skip
    else if ltb 0 (resume_index n sub) && ltb e.seq.commit_index (resume_index n sub)
    then skip
    else if sends sender (event_of sub e)
    then deliver
    else stop

-- the watermarks after a successful send
unfoldable pub mark_sent : String → OutboxEntry → Notifier → Notifier
mark_sent sub e n = record n {
  sent_through =
      if is_newer e.seq (last_sent n sub) then put n.sent_through sub e.seq else n.sent_through;
  resume_from =
      if ltb 0 (resume_index n sub) && leb (resume_index n sub) e.seq.commit_index
      then remove n.resume_from sub
      else n.resume_from;
}

-- the inner loop of processTick; the events are those that were sent
unfoldable pub send_entries :
    Option (DataEvent → Bool) → String → List OutboxEntry → Notifier → Notifier × List DataEvent
unfolding decide_entry mark_sent
send_entries sender sub [] n = (n, [])
send_entries sender sub (e ∷ es) n = elim (decide_entry sender sub e n) [
  | skip ↦ send_entries sender sub es n
  | stop ↦ (n, [])
  | deliver ↦
      let (n', events) = send_entries sender sub es (mark_sent sub e n) in
      (n', event_of sub e ∷ events)
]

-- the outer loop, over the subscriptions in the order in which the map is visited
unfoldable pub send_subs :
    Option (DataEvent → Bool) → Manager → List String → Notifier → Notifier × List DataEvent
unfolding send_entries
send_subs sender m [] n = (n, [])
send_subs sender m (sub ∷ subs) n =
    let (n', events) = send_entries sender sub (pending m sub) n in
    let (n'', more) = send_subs sender m subs n' in (n'', append events more)

unfoldable pub observe_events :
    Notifier → (DataEvent → ℕ × ℕ) → List DataEvent → MetricsRegistry → MetricsRegistry
unfolding observe_send
observe_events n timing [] r = r
observe_events n timing (ev ∷ evs) r =
    let (now, ms) = timing ev in
    observe_events n timing evs (
      if n.bucket_id == ""
      then record r { global = observe_send now ms r.global }
      else observe_send_for n.bucket_id now ms r)

-- processTick
unfoldable pub process_tick :
    Option (DataEvent → Bool) → (DataEvent → ℕ × ℕ) → NotifierWorld → NotifierWorld × List DataEvent
unfolding send_subs observe_events
process_tick sender timing d =
    let subs = subs_with_pending d.world.mgr in
    let gauged =
      if d.notifier.bucket_id == ""
      then set_subs_with_pending (length subs) d.world.metrics
      else set_subs_with_pending_for d.notifier.bucket_id (length subs) d.world.metrics in
    let (n, events) = send_subs sender d.world.mgr subs d.notifier in
    (
      record {
        notifier = n;
        world = record (d.world) { metrics = observe_events n timing events gauged };
      },
      events,
    )
