-- ===== src/Emission/Notifier/Due.antt =====
-- A scan against an independent description of what it sends.
use mathlib.Core.List.{map}
use seven_db.Common.{
  ℕ, ◌<◌, ◌≤◌, ◌≡◌, ◌⊎◌, inl, inr, refl, String, Bool, true, Option, List, [], ◌∷◌, arith,
  if◌then◌else◌, leb, ◌&&◌,
}
use seven_db.Common.Lists.{All}
use seven_db.Emission.Types.{EmitSeq, DataEvent, is_newer, Precedes}
use seven_db.Emission.Outbox.{OutboxEntry}
use seven_db.Emission.Outbox.Ascending.{IsAscending}
use seven_db.Emission.Outbox.Order.{index_of}
use seven_db.Emission.Notifier.{
  Notifier, Decision, skip, stop, deliver, event_of, last_sent, resume_index, sends, decide_entry,
  mark_sent, send_entries,
}
use seven_db.Emission.Notifier.Delivery.{decide_deliver, last-mark_sent, resume-mark_sent}

-- an entry is due: newer than the watermark, and from the resume point on
abbrev pub is_due : EmitSeq → ℕ → OutboxEntry → Bool
is_due last resume e = is_newer e.seq last && leb resume e.seq.commit_index

unfoldable pub due_entries : EmitSeq → ℕ → List OutboxEntry → List OutboxEntry
due_entries last resume [] = []
due_entries last resume (e ∷ es) =
    let rest = due_entries last resume es in if is_due last resume e then e ∷ rest else rest

-- the events up to the first one that cannot be sent
unfoldable pub until_fail : (DataEvent → Bool) → List DataEvent → List DataEvent
until_fail ok [] = []
until_fail ok (ev ∷ evs) = let rest = until_fail ok evs in if ok ev then ev ∷ rest else []

abbrev pub OfEpoch : ℕ → OutboxEntry → Type 0
OfEpoch c e = e.seq.epoch.epoch_counter ≡ c

due_entries_all :
    (last : EmitSeq) (resume : ℕ) (es : List OutboxEntry)
    → All (λ f. is_due last resume f ≡ true) es
    → due_entries last resume es ≡ es
unfolding due_entries
due_entries_all last resume [] h = refl
due_entries_all last resume (e ∷ es) h = ground (arith, due_entries_all last resume es h.1)

-- what follows an entry that is due is due
due_after :
    (last : EmitSeq) (resume c : ℕ) (e : OutboxEntry) (es : List OutboxEntry)
    → Precedes last e.seq ⊎ (last ≡ e.seq)
    → resume ≤ index_of e
    → OfEpoch c e
    → All (OfEpoch c) es
    → All (λ f. index_of e < index_of f) es
    → All (λ f. is_due last resume f ≡ true) es
due_after last resume c e [] h r p q a = tt
due_after last resume c e (f ∷ es) h r p q a =
    (ground arith, due_after last resume c e es h r p q.1 a.1)

module _ (sender : Option (DataEvent → Bool)) (sub : String) where
  pub decide-due :
      (e : OutboxEntry) (n : Notifier)
      → decide_entry sender sub e n ≡ (
          if is_due (last_sent n sub) (resume_index n sub) e
          then if sends sender (event_of sub e) then deliver else stop
          else skip)
  unfolding decide_entry
  decide-due e n = ground arith

  -- A scan of entries of one epoch in ascending order sends those that are due, up to the first one
  -- that cannot be sent.
  pub send_entries-until_fail :
      (c : ℕ) (es : List OutboxEntry) (n : Notifier)
      → All (OfEpoch c) es
      → IsAscending index_of es
      → (send_entries sender sub es n).1
        ≡ until_fail
            (sends sender)
            (map (event_of sub) (due_entries (last_sent n sub) (resume_index n sub) es))
  unfolding send_entries until_fail due_entries
  send_entries-until_fail c [] n p a = refl
  send_entries-until_fail c (e ∷ es) n p a =
      go (decide_entry sender sub e n) refl (send_entries-until_fail c es n p.1 a.1)
        (send_entries-until_fail c es (mark_sent sub e n) p.1 a.1)
    where
      spec : Notifier → List DataEvent
      spec k =
          until_fail (sends sender)
            (map (event_of sub) (due_entries (last_sent k sub) (resume_index k sub) es))

      go :
          (d : Decision)
          → decide_entry sender sub e n ≡ d
          → (send_entries sender sub es n).1 ≡ spec n
          → (send_entries sender sub es (mark_sent sub e n)).1 ≡ spec (mark_sent sub e n)
          → (send_entries sender sub (e ∷ es) n).1
            ≡ until_fail
                (sends sender)
                (map (event_of sub) (due_entries (last_sent n sub) (resume_index n sub) (e ∷ es)))
      go skip h skipped sent = rw (h, send_entries) (ground (arith, decide-due e n))
      go stop h skipped sent = rw (h, send_entries) (ground (arith, decide-due e n))
      go deliver h skipped sent =
          let after = decide_deliver sender sub e n h in
          rw (h, send_entries)
            (ground (
              arith,
              decide-due e n,
              last-mark_sent sender sub e n after.0,
              resume-mark_sent sender sub e n after.1,
              due_entries_all e.seq 0 es
                  (due_after e.seq 0 c e es (inr refl) (omega arith) p.0 p.1 a.0),
              due_entries_all (last_sent n sub) (resume_index n sub) es (
                  due_after (last_sent n sub) (resume_index n sub) c e es (inl after.0) after.1 p.0
                    p.1 a.0),
            ))
