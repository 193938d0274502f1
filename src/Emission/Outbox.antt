-- ===== src/Emission/Outbox.antt =====
-- internal/emission/outbox.go: `outboxState`, the entries that await delivery, by subscription and
-- commit index. The locks make each operation one step. An entry is shared by no two places, so the
-- pointers are values here.
mod Sort
pub mod Entries
pub mod Valid
pub mod Count
pub mod Ascending
pub mod Order
pub mod Refines
mod Tests
unfoldable pub use Sort.*
use seven_db.Common.{
  ℕ, suc, String, Bool, true, false, Option, none, some, List, [], ◌∷◌, if◌then◌else◌, leb, nat_beq,
}
use seven_db.Common.Comparable.{nat_key, string_key}
use seven_db.Common.GoMap.{GoMap, get, put, remove, has, size, keys}
use seven_db.Emission.Types.{EmitSeq, EpochId}

pub record OutboxEntry : Type 0 where
  pub sub_id : String
  pub seq : EmitSeq
  pub delta : List ℕ

-- the entries of one subscription, by commit index
abbrev pub Entries : Type 0
Entries = GoMap ℕ OutboxEntry

pub record OutboxState : Type 0 where
  pub by_sub : GoMap String Entries
  pub epochs : GoMap String EpochId

abbrev pub new_outbox_state : OutboxState
new_outbox_state = record { by_sub = []; epochs = [] }

-- the map of a subscription, made if it is missing
abbrev pub or_make : Option Entries → Entries
or_make none = []
or_make (some m) = m

-- (*outboxState).write; the flag tells that the subscription is new
unfoldable pub write : OutboxEntry → OutboxState → OutboxState × Bool
write e o = (
  record o {
    by_sub = put o.by_sub e.sub_id (put (or_make (get o.by_sub e.sub_id)) e.seq.commit_index e);
  },
  if has o.by_sub e.sub_id then false else true,
)

-- the loop of `purge`: what is left of the map, and how many entries were deleted
unfoldable pub purge_entries : Entries → ℕ → Entries × ℕ
purge_entries [] up_to = ([], 0)
purge_entries ((idx, e) ∷ m) up_to =
    let (rest, removed) = purge_entries m up_to in
    if leb idx up_to then (rest, suc removed) else ((idx, e) ∷ rest, removed)

-- (*outboxState).purge: the number of entries removed, and whether the subscription is emptied
unfoldable pub purge : String → ℕ → OutboxState → OutboxState × ℕ × Bool
unfolding purge_entries
purge sub up_to o = elim (get o.by_sub sub) [
  | none ↦ (o, 0, false)
  | some m ↦
      let (left, removed) = purge_entries m up_to in
      if nat_beq (size left) 0
      then (record o { by_sub = remove o.by_sub sub }, removed, true)
      else (record o { by_sub = put o.by_sub sub left }, removed, false)
]

-- out = append(out, m[uint64(i)]), for each sorted index; each is a key of the map
unfoldable pub pick : Entries → List ℕ → List OutboxEntry
pick m [] = []
pick m (i ∷ is) = let rest = pick m is in elim (get m i) [ none ↦ rest | some e ↦ e ∷ rest ]

-- (*outboxState).pendingSorted
unfoldable pub pending_sorted : OutboxState → String → List OutboxEntry
unfolding pick
pending_sorted o sub = elim (get o.by_sub sub) [ none ↦ [] | some m ↦ pick m (sort_ints (keys m)) ]
