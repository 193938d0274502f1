-- ===== src/Emission/Outbox/Tests.antt =====
-- The theorems on the outbox at concrete inputs, and runs of the code.
use seven_db.Common.{ℕ, String, List, ◌≡◌, refl, subst, ◌+◌, none, some, [], ◌∷◌, arith}
use mathlib.Core.Option.{some-injective}
use seven_db.Common.Comparable.{string_key, nat_key}
use seven_db.Common.GoMap.{get, keys}
use seven_db.Common.Lists.{All}
use seven_db.Emission.Outbox.{new_outbox_state, Entries, purge, pending_sorted, sort_ints}
use seven_db.Emission.Outbox.Ascending.{FitsInt}
use seven_db.Emission.Outbox.Count.{total}
use seven_db.Emission.Outbox.Entries.{entry_at}
use seven_db.Emission.Outbox.Refines.{
  Change, written, purged, changes, all_specified, changes-specified,
}
use seven_db.Emission.Outbox.Order.{IsPendingOf, pending_sorted-IsPendingOf}
use seven_db.Emission.Outbox.Valid.{IsValid}
use seven_db.Emission.Samples.{entry, two, two-IsValid}

two-FitsInt : (m : Entries) → get two.by_sub "a:7" ≡ some m → All FitsInt (keys m)
unfolding get
two-FitsInt m h = subst (λ n. All FitsInt (keys n)) (some-injective _ m h) (omega arith)

pending_sorted-IsPendingOf_example : IsPendingOf two "a:7" (pending_sorted two "a:7")
pending_sorted-IsPendingOf_example = pending_sorted-IsPendingOf two "a:7" two-IsValid two-FitsInt

pending_sorted_runs : pending_sorted two "a:7" ≡ entry 5 ∷ entry 9 ∷ []
unfolding pending_sorted get sort_ints
pending_sorted_runs = refl

abbrev history : List Change
history = written (entry 9) ∷ written (entry 5) ∷ purged "a:7" 6 ∷ written (entry 7) ∷ []

changes-specified_example :
    IsValid (changes history new_outbox_state)
    × ((s : String) (i : ℕ)
        → entry_at (changes history new_outbox_state) s i ≡ all_specified history (λ t j. none) s i)
    × (total (purge "a:7" 7 (changes history new_outbox_state)).0
          + (purge "a:7" 7 (changes history new_outbox_state)).1
        ≡ total (changes history new_outbox_state))
changes-specified_example = changes-specified history "a:7" 7
