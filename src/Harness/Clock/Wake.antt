-- ===== src/Harness/Clock/Wake.antt =====
-- Which waiters a move of the clock wakes, and when a channel gets its time.
use seven_db.Common.{
  ℕ, zero, suc, ◌+◌, ◌≤◌, ◌<◌, ◌≡◌, ◌≢◌, refl, sym, subst, Bool, true, false, none, some, List, [],
  ◌∷◌, ◌++◌, leb, if◌then◌else◌, arith, inl, inr, Bool-cases,
}
use seven_db.Common.Comparable.{◌==◌, nat_key}
use seven_db.Common.GoMap.{GoMap, get, put}
use seven_db.Common.GoMap.Laws.{get-put}
use seven_db.Common.Lists.{All}
use seven_db.Harness.Clock.{
  ℤ, pos, negsuc, Waiter, SimulatedClock, wake, move_by, advance, after_now, after,
}

-- the waiters whose deadline is not reached
unfoldable pub not_due : ℕ → List Waiter → List Waiter
not_due t [] = []
not_due t (w ∷ ws) = let rest = not_due t ws in if leb w.until t then rest else w ∷ rest

-- the channel belongs to a waiter whose deadline is reached
unfoldable pub rings : ℕ → List Waiter → ℕ → Bool
rings t [] ch = false
rings t (w ∷ ws) ch =
    let rest = rings t ws ch in if leb w.until t then if w.ch == ch then true else rest else rest

remaining-wake : (t : ℕ) (ws : List Waiter) (sent : GoMap ℕ ℕ) → (wake t ws sent).0 ≡ not_due t ws
unfolding wake not_due
remaining-wake t [] sent = refl
remaining-wake t (w ∷ ws) sent =
    ground (arith, remaining-wake t ws sent, remaining-wake t ws (put sent w.ch t))

sent-wake :
    (t : ℕ) (ws : List Waiter) (sent : GoMap ℕ ℕ) (ch : ℕ)
    → get (wake t ws sent).1 ch ≡ (if rings t ws ch then some t else get sent ch)
unfolding wake rings
sent-wake t [] sent ch = refl
sent-wake t (w ∷ ws) sent ch =
    ground
      (arith, sent-wake t ws sent ch, sent-wake t ws (put sent w.ch t) ch, get-put sent w.ch t ch)

-- A move of the clock sends the new time to the channels of the waiters whose deadline it reaches,
-- and to no other channel, and keeps the other waiters in their order.
pub move_by-wakes :
    (d : ℕ) (c : SimulatedClock)
    → ((move_by d c).waiters ≡ not_due (c.current + d) c.waiters)
      × ((ch : ℕ)
          → get (move_by d c).sent ch
            ≡ (if rings (c.current + d) c.waiters ch then some (c.current + d) else get c.sent ch))
unfolding move_by
move_by-wakes d c =
    (remaining-wake (c.current + d) c.waiters c.sent, sent-wake (c.current + d) c.waiters c.sent)

-- a waiter waits for a time to come, on a channel that was made and has got no time
abbrev pub Waits : ℕ → GoMap ℕ ℕ → ℕ → Waiter → Type 0
Waits t sent made w = (t < w.until) × (w.ch < made) × (get sent w.ch ≡ none)

abbrev pub Differs : Waiter → Waiter → Type 0
Differs w v = w.ch ≢ v.ch

-- no two waiters share a channel
abbrev pub IsDistinct : List Waiter → Type 0
IsDistinct [] = Unit
IsDistinct (w ∷ ws) = All (Differs w) ws × IsDistinct ws

-- the channels with a time were made
abbrev pub IsMade : GoMap ℕ ℕ → ℕ → Type 0
IsMade sent made = (ch : ℕ) → made ≤ ch → get sent ch ≡ none

pub record IsSound (c : SimulatedClock) : Type 0 where
  pub waits : All (Waits c.current c.sent c.made) c.waiters
  pub distinct : IsDistinct c.waiters
  pub made : IsMade c.sent c.made

rings-apart : (t : ℕ) (w : Waiter) (ws : List Waiter) → All (Differs w) ws → rings t ws w.ch ≡ false
unfolding rings
rings-apart t w [] h = refl
rings-apart t w (v ∷ ws) h = ground (arith, rings-apart t w ws h.1, h.0)

not_due-All : (P : Waiter → Type 0) (t : ℕ) (ws : List Waiter) → All P ws → All P (not_due t ws)
unfolding not_due
not_due-All P t [] h = tt
not_due-All P t (w ∷ ws) h = elim (Bool-cases (leb w.until t)) [
  | inl due ↦ rw due (not_due-All P t ws h.1)
  | inr early ↦ rw early (h.0, not_due-All P t ws h.1)
]

not_due-IsDistinct : (t : ℕ) (ws : List Waiter) → IsDistinct ws → IsDistinct (not_due t ws)
unfolding not_due
not_due-IsDistinct t [] h = tt
not_due-IsDistinct t (w ∷ ws) h = elim (Bool-cases (leb w.until t)) [
  | inl due ↦ rw due (not_due-IsDistinct t ws h.1)
  | inr early ↦ rw early (not_due-All (Differs w) t ws h.0, not_due-IsDistinct t ws h.1)
]

put-Waits :
    (t now made : ℕ) (w : Waiter) (ws : List Waiter) (sent : GoMap ℕ ℕ)
    → All (Differs w) ws
    → All (Waits now sent made) ws
    → All (Waits now (put sent w.ch t) made) ws
put-Waits t now made w [] sent d h = tt
put-Waits t now made w (v ∷ ws) sent d h = (
  (h.0.0, h.0.1, ground (arith, get-put sent w.ch t v.ch, d.0, h.0.2)),
  put-Waits t now made w ws sent d.1 h.1,
)

wake-Waits :
    (t now made : ℕ) (ws : List Waiter) (sent : GoMap ℕ ℕ)
    → All (Waits now sent made) ws
    → IsDistinct ws
    → All (Waits t (wake t ws sent).1 made) (wake t ws sent).0
unfolding wake
wake-Waits t now made [] sent h d = tt
wake-Waits t now made (w ∷ ws) sent h d = elim (Bool-cases (leb w.until t)) [
  | inl due ↦
      rw due
        (wake-Waits t now made ws (put sent w.ch t) (put-Waits t now made w ws sent d.0 h.1) d.1)
  | inr early ↦ rw early (
    (ground arith, h.0.1, ground (arith, sent-wake t ws sent w.ch, rings-apart t w ws d.0, h.0.2)),
    wake-Waits t now made ws sent h.1 d.1,
  )
]

rings-made :
    (t now made : ℕ) (sent : GoMap ℕ ℕ) (ws : List Waiter) (ch : ℕ)
    → All (Waits now sent made) ws
    → made ≤ ch
    → rings t ws ch ≡ false
unfolding rings
rings-made t now made sent [] ch h m = refl
rings-made t now made sent (w ∷ ws) ch h m =
    ground (arith, rings-made t now made sent ws ch h.1 m, h.0.1)

move_by-IsSound : (d : ℕ) (c : SimulatedClock) → IsSound c → IsSound (move_by d c)
unfolding move_by
move_by-IsSound d c s = record {
  waits = wake-Waits (c.current + d) c.current c.made c.waiters c.sent s.waits s.distinct;
  distinct =
      subst IsDistinct (sym (remaining-wake (c.current + d) c.waiters c.sent))
        (not_due-IsDistinct (c.current + d) c.waiters s.distinct);
  made = λ ch m. ground (
    arith,
    sent-wake (c.current + d) c.waiters c.sent ch,
    rings-made (c.current + d) c.current c.made c.sent c.waiters ch s.waits m,
    s.made ch m,
  );
}

-- Advance keeps the clock sound: each waiter waits for a time to come, on a channel of its own
-- that was made and has got no time, and no channel has a time before it is made.
pub advance-IsSound : (d : ℤ) (c : SimulatedClock) → IsSound c → IsSound (advance d c)
unfolding advance
advance-IsSound (pos zero) c s = s
advance-IsSound (pos (suc d)) c s = move_by-IsSound (suc d) c s
advance-IsSound (negsuc d) c s = s

module _ (c : SimulatedClock) (d : ℕ) where
  abbrev added : Waiter
  added = record { until = c.current + suc d; ch = c.made }

  append-Waits :
      (ws : List Waiter)
      → IsMade c.sent c.made
      → All (Waits c.current c.sent c.made) ws
      → All (Waits c.current c.sent (suc c.made)) (ws ++ (added ∷ []))
  append-Waits [] m h = ((omega arith, omega arith, m c.made (omega arith)), tt)
  append-Waits (w ∷ ws) m h = ((h.0.0, omega (arith, h.0.1), h.0.2), append-Waits ws m h.1)

  append-Differs :
      (w : Waiter) (ws : List Waiter)
      → w.ch < c.made
      → All (Differs w) ws
      → All (Differs w) (ws ++ (added ∷ []))
  append-Differs w [] b h = ((λ e. omega arith), tt)
  append-Differs w (v ∷ ws) b h = (h.0, append-Differs w ws b h.1)

  append-IsDistinct :
      (ws : List Waiter)
      → All (Waits c.current c.sent c.made) ws
      → IsDistinct ws
      → IsDistinct (ws ++ (added ∷ []))
  append-IsDistinct [] h d = (tt, tt)
  append-IsDistinct (w ∷ ws) h d = (append-Differs w ws h.0.1 d.0, append-IsDistinct ws h.1 d.1)

after_now-Waits :
    (c : SimulatedClock) (ws : List Waiter)
    → All (Waits c.current c.sent c.made) ws
    → All (Waits c.current (put c.sent c.made c.current) (suc c.made)) ws
after_now-Waits c [] h = tt
after_now-Waits c (w ∷ ws) h = (
  (h.0.0, omega (arith, h.0.1), ground (arith, get-put c.sent c.made c.current w.ch, h.0.1, h.0.2)),
  after_now-Waits c ws h.1,
)

after_now-IsSound : (c : SimulatedClock) → IsSound c → IsSound (after_now c).0
unfolding after_now
after_now-IsSound c s = record {
  waits = after_now-Waits c c.waiters s.waits;
  distinct = s.distinct;
  made = λ ch m. ground (arith, get-put c.sent c.made c.current ch, s.made ch (omega arith));
}

-- After keeps the clock sound, whatever the sign of the duration.
pub after-IsSound : (d : ℤ) (c : SimulatedClock) → IsSound c → IsSound (after d c).0
unfolding after
after-IsSound (negsuc d) c s = after_now-IsSound c s
after-IsSound (pos zero) c s = after_now-IsSound c s
after-IsSound (pos (suc d)) c s = record {
  waits = append-Waits c d c.waiters s.made s.waits;
  distinct = append-IsDistinct c d c.waiters s.waits s.distinct;
  made = λ ch m. s.made ch (omega arith);
}
