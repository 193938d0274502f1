-- ===== src/Emission/Outbox/Refines.antt =====
-- The outbox against its specification: a partial function from positions to entries, and the number
-- of entries that leave it.
use seven_db.Common.{
  ℕ, ◌+◌, ◌≡◌, refl, ap, ◌∙◌, String, ◌&&◌, Option, none, some, List, [], ◌∷◌, if◌then◌else◌, leb,
}
use seven_db.Common.Comparable.{◌==◌, nat_key, string_key}
use seven_db.Common.GoMap.{get}
use seven_db.Emission.Outbox.{OutboxEntry, OutboxState, new_outbox_state, write, purge}
use seven_db.Emission.Outbox.Count.{total, total-purge}
use seven_db.Emission.Outbox.Entries.{entry_at, entry_at-write, entry_at-purge}
use seven_db.Emission.Outbox.Valid.{IsValid, new_outbox_state-IsValid, write-IsValid, purge-IsValid}

pub data Change : Type 0 where
  written : OutboxEntry → Change
  purged : String → ℕ → Change

unfoldable pub change : Change → OutboxState → OutboxState
change (written e) o = (write e o).0
change (purged sub u) o = (purge sub u o).0

unfoldable pub changes : List Change → OutboxState → OutboxState
unfolding change
changes [] o = o
changes (c ∷ cs) o = changes cs (change c o)

-- what a position holds
abbrev pub Positions : Type 0
Positions = String → ℕ → Option OutboxEntry

unfoldable pub specified : Change → Positions → Positions
specified (written e) held s i =
    if (e.sub_id == s) && (e.seq.commit_index == i) then some e else held s i
specified (purged sub u) held s i = if (sub == s) && leb i u then none else held s i

unfoldable pub all_specified : List Change → Positions → Positions
unfolding specified
all_specified [] held = held
all_specified (c ∷ cs) held = all_specified cs (specified c held)

change-IsValid : (c : Change) (o : OutboxState) → IsValid o → IsValid (change c o)
unfolding change
change-IsValid (written e) o v = write-IsValid e v
change-IsValid (purged sub u) o v = purge-IsValid sub u v

specified-change :
    (c : Change) (o : OutboxState) (held : Positions)
    → ((s : String) (i : ℕ) → entry_at o s i ≡ held s i)
    → (s : String) (i : ℕ) → entry_at (change c o) s i ≡ specified c held s i
unfolding change specified
specified-change (written e) o held h s i =
    entry_at-write e o s i
    ∙ ap (λ x. if (e.sub_id == s) && (e.seq.commit_index == i) then some e else x) (h s i)
specified-change (purged sub u) o held h s i =
    entry_at-purge sub u o s i ∙ ap (λ x. if (sub == s) && leb i u then none else x) (h s i)

changes_from :
    (cs : List Change) (o : OutboxState) (held : Positions)
    → IsValid o
    → ((s : String) (i : ℕ) → entry_at o s i ≡ held s i)
    → IsValid (changes cs o)
      × ((s : String) (i : ℕ) → entry_at (changes cs o) s i ≡ all_specified cs held s i)
unfolding changes all_specified
changes_from [] o held v h = (v, h)
changes_from (c ∷ cs) o held v h =
    changes_from cs (change c o) (specified c held) (change-IsValid c o v)
      (specified-change c o held h)

new_outbox_state_empty : (s : String) (i : ℕ) → entry_at new_outbox_state s i ≡ none
unfolding entry_at get
new_outbox_state_empty s i = refl

-- After any writes and purges from the new outbox the outbox is well-formed, each position holds the entry that was last
-- written there and not purged since, and one more purge counts the entries that leave the outbox.
pub changes-specified :
    (cs : List Change) (sub : String) (u : ℕ)
    → IsValid (changes cs new_outbox_state)
      × ((s : String) (i : ℕ)
          → entry_at (changes cs new_outbox_state) s i ≡ all_specified cs (λ t j. none) s i)
      × (total (purge sub u (changes cs new_outbox_state)).0
            + (purge sub u (changes cs new_outbox_state)).1
          ≡ total (changes cs new_outbox_state))
changes-specified cs sub u =
    let reached =
      changes_from cs new_outbox_state (λ t j. none) new_outbox_state-IsValid
        new_outbox_state_empty in
    (reached.0, reached.1, total-purge sub u (changes cs new_outbox_state) reached.0.subs)
