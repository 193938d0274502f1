-- ===== src/Emission/Notifier/Delivery.antt =====
-- What one scan of a subscription's pending entries sends, and in which order.
use seven_db.Common.{◌≤◌, ◌≡◌, refl, subst, String, Bool, Option, List, [], ◌∷◌, arith}
use seven_db.Common.Comparable.{string_key}
use seven_db.Common.GoMap.Laws.{get-put, get-remove, eq_self}
use seven_db.Common.Lists.{All}
use seven_db.Emission.Types.{EmitSeq, DataEvent, Precedes}
use seven_db.Emission.Outbox.{OutboxEntry}
use seven_db.Emission.Notifier.{
  Notifier, Decision, skip, stop, deliver, last_sent, resume_index, decide_entry, mark_sent,
  send_entries,
}

-- the positions of the events rise strictly
abbrev pub IsRising : List DataEvent → Type 0
IsRising [] = Unit
IsRising (ev ∷ evs) = All (λ x. Precedes ev.emit_seq x.emit_seq) evs × IsRising evs

module _ (sender : Option (DataEvent → Bool)) (sub : String) where
  -- the three outcomes for one entry
  pub decide_deliver :
      (e : OutboxEntry) (n : Notifier)
      → decide_entry sender sub e n ≡ deliver
      → Precedes (last_sent n sub) e.seq × (resume_index n sub ≤ e.seq.commit_index)
  unfolding decide_entry
  decide_deliver e n h = ground arith

  pub last-mark_sent :
      (e : OutboxEntry) (n : Notifier)
      → Precedes (last_sent n sub) e.seq
      → last_sent (mark_sent sub e n) sub ≡ e.seq
  unfolding mark_sent
  last-mark_sent e n h = ground (arith, get-put n.sent_through sub e.seq sub, eq_self sub)

  pub resume-mark_sent :
      (e : OutboxEntry) (n : Notifier)
      → resume_index n sub ≤ e.seq.commit_index
      → resume_index (mark_sent sub e n) sub ≡ 0
  unfolding mark_sent
  resume-mark_sent e n h = ground (arith, get-remove n.resume_from sub sub, eq_self sub)

  All-after :
      (a b : EmitSeq) (evs : List DataEvent)
      → Precedes a b
      → All (λ x. Precedes b x.emit_seq) evs
      → All (λ x. Precedes a x.emit_seq) evs
  All-after a b [] h k = tt
  All-after a b (ev ∷ evs) h k = (ground arith, All-after a b evs h k.1)

  abbrev events : List OutboxEntry → Notifier → List DataEvent
  events es n = (send_entries sender sub es n).1

  abbrev Rises : List DataEvent → Notifier → Type 0
  Rises evs k = All (λ x. Precedes (last_sent k sub) x.emit_seq) evs × IsRising evs

  -- Every event of a scan is after the watermark of the subscription, and the events rise strictly
  -- by epoch counter and commit index: nothing is sent twice or out of order.
  pub send_entries-IsRising :
      (es : List OutboxEntry) (n : Notifier)
      → All (λ x. Precedes (last_sent n sub) x.emit_seq) (send_entries sender sub es n).1
        × IsRising (send_entries sender sub es n).1
  unfolding send_entries
  send_entries-IsRising [] n = (tt, tt)
  send_entries-IsRising (e ∷ es) n =
      go (decide_entry sender sub e n) refl (send_entries-IsRising es n)
        (send_entries-IsRising es (mark_sent sub e n))
    where
      go :
          (d : Decision)
          → decide_entry sender sub e n ≡ d
          → Rises (send_entries sender sub es n).1 n
          → Rises (send_entries sender sub es (mark_sent sub e n)).1 (mark_sent sub e n)
          → Rises (send_entries sender sub (e ∷ es) n).1 n
      go skip h skipped sent = rw (h, send_entries) skipped
      go stop h skipped sent = rw (h, send_entries) (tt, tt)
      go deliver h skipped sent =
          let after = decide_deliver e n h in
          let rest =
            subst (λ s. All (λ x. Precedes s x.emit_seq) (events es (mark_sent sub e n)))
              (last-mark_sent e n after.0) sent.0 in
          rw (h, send_entries)
            ((after.0, All-after (last_sent n sub) e.seq _ after.0 rest), (rest, sent.1))
