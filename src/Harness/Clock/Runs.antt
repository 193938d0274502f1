-- ===== src/Harness/Clock/Runs.antt =====
-- Sequences of calls of Advance and After.
use seven_db.Common.{ℕ, refl, List, [], ◌∷◌}
use seven_db.Common.Comparable.{nat_key}
use seven_db.Common.GoMap.{get}
use seven_db.Harness.Clock.{ℤ, SimulatedClock, new_simulated_clock, advance, after}
use seven_db.Harness.Clock.Wake.{IsSound, advance-IsSound, after-IsSound}

pub data Use : Type 0 where
  advance_use : ℤ → Use
  after_use : ℤ → Use

unfoldable pub uses : List Use → SimulatedClock → SimulatedClock
uses [] c = c
uses (advance_use d ∷ us) c = uses us (advance d c)
uses (after_use d ∷ us) c = uses us (after d c).0

new-IsSound : (now : ℕ) → IsSound (new_simulated_clock now)
unfolding get
new-IsSound now = record { waits = tt; distinct = tt; made = λ ch m. refl }

uses_from : (us : List Use) (c : SimulatedClock) → IsSound c → IsSound (uses us c)
unfolding uses
uses_from [] c s = s
uses_from (advance_use d ∷ us) c s = uses_from us (advance d c) (advance-IsSound d c s)
uses_from (after_use d ∷ us) c s = uses_from us (after d c).0 (after-IsSound d c s)

-- Whatever is asked of a new clock, with durations of either sign, each waiter waits for a time to come, on a channel of
-- its own that was made and has got no time, and no channel has a time before it is made.
pub uses-IsSound : (us : List Use) (now : ℕ) → IsSound (uses us (new_simulated_clock now))
uses-IsSound us now = uses_from us (new_simulated_clock now) (new-IsSound now)
