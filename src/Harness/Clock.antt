-- ===== src/Harness/Clock.antt =====
-- internal/harness/clock/clock.go: `SimulatedClock`. Times are nanoseconds since some instant, and
-- durations are signed. A channel is known by the number of the call of `After` that made it; it
-- holds at most one time, which is sent before the channel is closed.
pub mod Wake
pub mod Runs
mod Tests
use seven_db.Common.{
  ℕ, zero, suc, ◌+◌, Bool, true, false, List, [], ◌∷◌, ◌++◌, ltb, leb, if◌then◌else◌,
}
use seven_db.Common.Comparable.{nat_key}
use seven_db.Common.GoMap.{GoMap, put}

-- time.Duration
pub data ℤ : Type 0 where
  pos negsuc : ℕ → ℤ

pub record Waiter : Type 0 where
  pub until : ℕ
  pub ch : ℕ

pub record SimulatedClock : Type 0 where
  pub current : ℕ
  pub waiters : List Waiter
  -- the channels that have got their time
  pub sent : GoMap ℕ ℕ
  -- the channels made so far
  pub made : ℕ

-- NewSimulatedClock
abbrev pub new_simulated_clock : ℕ → SimulatedClock
new_simulated_clock start_time = record { current = start_time; waiters = []; sent = []; made = 0 }

-- Now
abbrev pub now : SimulatedClock → ℕ
now c = c.current

-- the loop of Advance: the waiters that remain, and the channels
unfoldable pub wake : ℕ → List Waiter → GoMap ℕ ℕ → List Waiter × GoMap ℕ ℕ
wake t [] sent = ([], sent)
wake t (w ∷ ws) sent =
    let fired = wake t ws (put sent w.ch t) in
    let (remaining, sent') = wake t ws sent in
    if leb w.until t then fired else (w ∷ remaining, sent')

-- the move of the clock by a positive duration
unfoldable pub move_by : ℕ → SimulatedClock → SimulatedClock
move_by d c =
    let (remaining, sent) = wake (c.current + d) c.waiters c.sent in
    record c { current = c.current + d; waiters = remaining; sent = sent }

-- Advance
unfoldable pub advance : ℤ → SimulatedClock → SimulatedClock
advance (pos zero) c = c
advance (pos (suc d)) c = move_by (suc d) c
advance (negsuc d) c = c

-- After, for a duration that is not positive
unfoldable pub after_now : SimulatedClock → SimulatedClock × ℕ
after_now c = (record c { sent = put c.sent c.made c.current; made = suc c.made }, c.made)

-- After: the clock, and the channel
unfoldable pub after : ℤ → SimulatedClock → SimulatedClock × ℕ
unfolding after_now
after (negsuc d) c = after_now c
after (pos zero) c = after_now c
after (pos (suc d)) c = (
  record c {
    waiters = c.waiters ++ (record { until = c.current + suc d; ch = c.made } ∷ []);
    made = suc c.made;
  },
  c.made,
)
