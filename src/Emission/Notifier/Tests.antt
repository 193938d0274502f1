-- ===== src/Emission/Notifier/Tests.antt =====
-- The theorems on the notifier at concrete inputs, and runs of the code.
use seven_db.Common.{◌≡◌, refl, Bool, true, some, List, [], ◌∷◌, arith}
use mathlib.Core.List.{map}
use seven_db.Common.Comparable.{string_key, nat_key}
use seven_db.Common.GoMap.{get, put, remove}
use seven_db.Common.Lists.{All}
use seven_db.Emission.Types.{DataEvent, Precedes}
use seven_db.Emission.Outbox.{OutboxEntry}
use seven_db.Emission.Notifier.{
  Notifier, new_notifier, send_entries, event_of, last_sent, resume_index,
}
use seven_db.Emission.Notifier.Delivery.{IsRising, send_entries-IsRising}
use seven_db.Emission.Notifier.Due.{due_entries, until_fail, send_entries-until_fail}
use seven_db.Emission.Notifier.Settle.{send_entries-send_entries}
use seven_db.Emission.Samples.{at, entry}

abbrev notifier : Notifier
notifier = record (new_notifier "b") { sent_through = ("a:7", at 5) ∷ [] }

abbrev pending : List OutboxEntry
pending = entry 5 ∷ entry 7 ∷ entry 9 ∷ []

abbrev works : DataEvent → Bool
works ev = true

send_entries-IsRising_example :
    All
      (λ x. Precedes (last_sent notifier "a:7") x.emit_seq)
      (send_entries (some works) "a:7" pending notifier).1
    × IsRising (send_entries (some works) "a:7" pending notifier).1
send_entries-IsRising_example = send_entries-IsRising (some works) "a:7" pending notifier

send_entries-until_fail_example :
    (send_entries (some works) "a:7" pending notifier).1
    ≡ until_fail works (
        map
          (event_of "a:7")
          (due_entries (last_sent notifier "a:7") (resume_index notifier "a:7") pending))
send_entries-until_fail_example =
    send_entries-until_fail (some works) "a:7" 1 pending notifier (omega arith) (omega arith)

send_entries-send_entries_example :
    send_entries (some works) "a:7" pending (send_entries (some works) "a:7" pending notifier).0
    ≡ ((send_entries (some works) "a:7" pending notifier).0, [])
send_entries-send_entries_example =
    send_entries-send_entries (some works) "a:7" (λ ev. refl) 1 pending notifier (omega arith)
      (omega arith)

send_entries_runs :
    (send_entries (some works) "a:7" pending notifier).1
    ≡ event_of "a:7" (entry 7) ∷ event_of "a:7" (entry 9) ∷ []
unfolding send_entries get put remove
send_entries_runs = refl
