-- ===== src/Emission/Rebind/Tests.antt =====
-- The theorems on rebinding at concrete inputs, and runs of the code.
use seven_db.Common.{◌≡◌, ◌≢◌, refl, String, some, [], ◌∷◌}
use text.Mathlib.TextEquality.{eq_iff}
use mathlib.Core.Bool.{false≢true}
use seven_db.Common.Comparable.{string_key, nat_key}
use seven_db.Common.GoMap.{get, has}
use seven_db.Common.Strconv.{format_uint}
use seven_db.Emission.Outbox.Entries.{entry_at}
use seven_db.Emission.Manager.{Manager}
use seven_db.Emission.Manager.{new_manager}
use seven_db.Emission.Rebind.{
  move, move_entries, rebind_by_fingerprint, resolve, resolve_suffix, resolve_exact, rebind_to,
}
use seven_db.Emission.Rebind.Move.{relabel, entry_at-move}
use seven_db.Emission.Samples.{epoch, at, entry, two, two-IsValid}

abbrev manager : Manager
manager = record (new_manager "b") {
  ob = two;
  last_ack = ("a:7", at 3) ∷ ("c:7", at 4) ∷ [];
  current_epoch = epoch;
}

apart : ◌≢◌ {A = String} "a:7" "c:7"
apart e = false≢true ((eq_iff "a:7" "c:7").1 e)

entry_at-move_example :
    entry_at (move "a:7" "c:7" manager).0.ob "c:7" 5 ≡ some (relabel "c:7" (entry 5))
unfolding entry_at get
entry_at-move_example = entry_at-move "a:7" "c:7" manager apart "c:7" 5 two-IsValid

rebind_runs : (rebind_by_fingerprint 7 "a" "c" manager).3 ≡ 2
unfolding rebind_by_fingerprint get has resolve resolve_suffix resolve_exact format_uint rebind_to
    move move_entries
rebind_runs = refl
