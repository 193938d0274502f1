-- ===== src/Emission/Notifier/Settle.antt =====
-- Scans that follow one another.
use seven_db.Common.{
  ℕ, ◌<◌, ◌≡◌, ◌⊎◌, inl, inr, refl, ap, sym, subst, ◌∙◌, String, Bool, true, Option, List, [], ◌∷◌,
  arith,
}
use seven_db.Common.Lists.{All}
use seven_db.Emission.Types.{DataEvent}
use seven_db.Emission.Outbox.{OutboxEntry}
use seven_db.Emission.Outbox.Ascending.{IsAscending}
use seven_db.Emission.Outbox.Order.{index_of}
use seven_db.Emission.Notifier.{
  Notifier, Decision, skip, stop, deliver, event_of, last_sent, sends, decide_entry, mark_sent,
  send_entries,
}
use seven_db.Emission.Notifier.Delivery.{decide_deliver, last-mark_sent}
use seven_db.Emission.Notifier.Due.{OfEpoch, decide-due}

module _ (sender : Option (DataEvent → Bool)) (sub : String) where
  -- the notifier after a scan
  abbrev scanned : List OutboxEntry → Notifier → Notifier
  scanned es n = (send_entries sender sub es n).0

  after : Decision → OutboxEntry → List OutboxEntry → Notifier → Notifier
  after skip e es n = scanned es n
  after stop e es n = n
  after deliver e es n = scanned es (mark_sent sub e n)

  scanned-cons :
      (e : OutboxEntry) (es : List OutboxEntry) (n : Notifier)
      → scanned (e ∷ es) n ≡ after (decide_entry sender sub e n) e es n
  unfolding send_entries after
  scanned-cons e es n = ground arith

  scanned-nil : (n : Notifier) → scanned [] n ≡ n
  unfolding send_entries
  scanned-nil n = refl

  -- the scan left the watermarks, or the new one is of the epoch and above `k`
  abbrev MovedPast : ℕ → ℕ → Notifier → Notifier → Type 0
  MovedPast c k n n' =
      (n' ≡ n)
      ⊎ (((last_sent n' sub).epoch.epoch_counter ≡ c) × (k < (last_sent n' sub).commit_index))

  scanned-MovedPast :
      (c k : ℕ) (es : List OutboxEntry) (n : Notifier)
      → All (OfEpoch c) es
      → All (λ e. k < index_of e) es
      → MovedPast c k n (scanned es n)
  unfolding after
  scanned-MovedPast c k [] n p a = inl (scanned-nil n)
  scanned-MovedPast c k (e ∷ es) n p a =
      go (decide_entry sender sub e n) refl (scanned-MovedPast c k es n p.1 a.1)
        (scanned-MovedPast c k es (mark_sent sub e n) p.1 a.1)
    where
      go :
          (d : Decision)
          → decide_entry sender sub e n ≡ d
          → MovedPast c k n (scanned es n)
          → MovedPast c k (mark_sent sub e n) (scanned es (mark_sent sub e n))
          → MovedPast c k n (scanned (e ∷ es) n)
      go skip h skipped sent = rw (scanned-cons e es n, h) skipped
      go stop h skipped sent = rw (scanned-cons e es n, h) (inl refl)
      go deliver h skipped (inl same) =
          let marked = last-mark_sent sender sub e n (decide_deliver sender sub e n h).0 in
          rw (scanned-cons e es n, h)
            (inr (ground (arith, same, marked, p.0), ground (arith, same, marked, a.0)))
      go deliver h skipped (inr past) = rw (scanned-cons e es n, h) (inr past)

  abbrev Settled : Notifier → OutboxEntry → Type 0
  Settled n e = decide_entry sender sub e n ≡ skip

  -- an entry that is settled stays so
  Settled-MovedPast :
      (c : ℕ) (e : OutboxEntry) (n n' : Notifier)
      → OfEpoch c e
      → MovedPast c (index_of e) n n'
      → Settled n e
      → Settled n' e
  Settled-MovedPast c e n n' p (inl same) h = subst (λ k. Settled k e) (sym same) h
  Settled-MovedPast c e n n' p (inr past) h = ground (arith, decide-due sender sub e n')

  mark_sent-Settled :
      (e : OutboxEntry) (n : Notifier)
      → decide_entry sender sub e n ≡ deliver
      → Settled (mark_sent sub e n) e
  mark_sent-Settled e n h = ground (
    arith,
    decide-due sender sub e (mark_sent sub e n),
    last-mark_sent sender sub e n (decide_deliver sender sub e n h).0,
  )

  module _ (works : (ev : DataEvent) → sends sender ev ≡ true) where
    scanned-Settled :
        (c : ℕ) (es : List OutboxEntry) (n : Notifier)
        → All (OfEpoch c) es
        → IsAscending index_of es
        → All (Settled (scanned es n)) es
    unfolding after
    scanned-Settled c [] n p a = tt
    scanned-Settled c (e ∷ es) n p a =
        go (decide_entry sender sub e n) refl (scanned-Settled c es n p.1 a.1)
          (scanned-Settled c es (mark_sent sub e n) p.1 a.1)
      where
        to : (d : Decision) → decide_entry sender sub e n ≡ d → after d e es n ≡ scanned (e ∷ es) n
        to d h = sym (scanned-cons e es n ∙ ap (λ x. after x e es n) h)

        go :
            (d : Decision)
            → decide_entry sender sub e n ≡ d
            → All (Settled (scanned es n)) es
            → All (Settled (scanned es (mark_sent sub e n))) es
            → All (Settled (scanned (e ∷ es) n)) (e ∷ es)
        go skip h skipped sent =
            subst (λ k. All (Settled k) (e ∷ es)) (to skip h)
              (
                Settled-MovedPast c e n _ p.0 (scanned-MovedPast c (index_of e) es n p.1 a.0) h,
                skipped,
              )
        go stop h skipped sent =
            absurd (ground (arith, decide-due sender sub e n, works (event_of sub e)))
        go deliver h skipped sent =
            let n' = mark_sent sub e n in
            subst (λ k. All (Settled k) (e ∷ es)) (to deliver h)
              (
                Settled-MovedPast c e n' _ p.0 (scanned-MovedPast c (index_of e) es n' p.1 a.0)
                    (mark_sent-Settled e n h),
                sent,
              )

  scan-Settled :
      (es : List OutboxEntry) (n : Notifier)
      → All (Settled n) es
      → send_entries sender sub es n ≡ (n, [])
  unfolding send_entries
  scan-Settled [] n h = refl
  scan-Settled (e ∷ es) n h = ground (arith, h.0, scan-Settled es n h.1)

  -- While the transport works, a second scan of the same entries, of one epoch and in ascending
  -- order, sends nothing and leaves the watermarks.
  pub send_entries-send_entries :
      ((ev : DataEvent) → sends sender ev ≡ true)
      → (c : ℕ) (es : List OutboxEntry) (n : Notifier) → All (OfEpoch c) es
      → IsAscending index_of es
      → send_entries sender sub es (send_entries sender sub es n).0
        ≡ ((send_entries sender sub es n).0, [])
  send_entries-send_entries works c es n p a =
      scan-Settled es (scanned es n) (scanned-Settled works c es n p a)
