-- ===== src/Harness/Clock/Tests.antt =====
-- The theorems on the clock at concrete inputs, and runs of the code.
use seven_db.Common.{[], ◌∷◌, ◌≡◌, refl, none, some}
use seven_db.Harness.Clock.Runs.{uses, after_use, advance_use, uses-IsSound}
use seven_db.Common.Comparable.{nat_key}
use seven_db.Common.GoMap.{get, put}
use seven_db.Harness.Clock.{
  SimulatedClock, new_simulated_clock, pos, negsuc, advance, after, after_now, move_by, wake,
}
use seven_db.Harness.Clock.Wake.{IsSound}

-- channels 0, 1 and 2 for 5, 0 and 3 nanoseconds
abbrev ticking : SimulatedClock
ticking = (after (pos 3) (after (pos 0) (after (pos 5) (new_simulated_clock 100)).0).0).0

ticking_runs :
    (get (advance (pos 4) ticking).sent 2 ≡ some 104)
    × (get (advance (pos 4) ticking).sent 1 ≡ some 100)
    × (get (advance (pos 4) ticking).sent 0 ≡ none)
    × (get (advance (pos 9) (advance (negsuc 3) ticking)).sent 0 ≡ some 109)
unfolding get put advance after after_now move_by wake
ticking_runs = (refl, refl, refl, refl)

uses-IsSound_example : IsSound (
    uses
      (after_use (pos 5) ∷ advance_use (pos 4) ∷ after_use (negsuc 0) ∷ advance_use (pos 1) ∷ [])
      (new_simulated_clock 100))
uses-IsSound_example =
    uses-IsSound
      (after_use (pos 5) ∷ advance_use (pos 4) ∷ after_use (negsuc 0) ∷ advance_use (pos 1) ∷ [])
      100
