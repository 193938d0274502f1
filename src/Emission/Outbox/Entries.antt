-- ===== src/Emission/Outbox/Entries.antt =====
-- The outbox as a partial map from (subscription, commit index) to entries, and what the operations
-- do to it.
use seven_db.Common.{
  ℕ, ◌+◌, ◌≡◌, refl, String, false, ◌&&◌, Option, none, some, [], ◌∷◌, arith, if◌then◌else◌, leb,
  Option-cases, inl, inr,
}
use seven_db.Common.Comparable.{◌==◌, nat_key, string_key}
use seven_db.Common.GoMap.{get, put, has, size}
use seven_db.Common.GoMap.Laws.{get-put, get-remove}
use seven_db.Common.GoMap.Keys.{IsMap}
use seven_db.Emission.Outbox.{
  OutboxEntry, OutboxState, Entries, or_make, write, purge_entries, purge,
}
use text.Mathlib.TextEquality.{eq_iff}

abbrev pub entry_in : Option Entries → ℕ → Option OutboxEntry
entry_in none i = none
entry_in (some m) i = get m i

unfoldable pub entry_at : OutboxState → String → ℕ → Option OutboxEntry
entry_at o s i = entry_in (get o.by_sub s) i

pub get-purge_entries :
    (m : Entries) (u j : ℕ) → get (purge_entries m u).0 j ≡ (if leb j u then none else get m j)
unfolding get purge_entries
get-purge_entries [] u j = ground arith
get-purge_entries ((i, e) ∷ m) u j = ground (arith, get-purge_entries m u j)

pub has-purge_entries :
    (m : Entries) (u j : ℕ) → has (purge_entries m u).0 j ≡ (if leb j u then false else has m j)
unfolding has purge_entries
has-purge_entries [] u j = ground arith
has-purge_entries ((i, e) ∷ m) u j = ground (arith, has-purge_entries m u j)

pub size-purge_entries :
    (m : Entries) (u : ℕ) → size (purge_entries m u).0 + (purge_entries m u).1 ≡ size m
unfolding purge_entries
size-purge_entries [] u = omega arith
size-purge_entries ((i, e) ∷ m) u = ground (arith, size-purge_entries m u)

pub purge_entries-IsMap : (m : Entries) (u : ℕ) → IsMap m → IsMap (purge_entries m u).0
unfolding purge_entries
purge_entries-IsMap [] u h = tt
purge_entries-IsMap ((i, e) ∷ m) u h =
    ground (arith, has-purge_entries m u i, purge_entries-IsMap m u h.1)

pub get-empty : (m : Entries) (i : ℕ) → size m ≡ 0 → get m i ≡ none
unfolding get
get-empty [] i h = refl
get-empty (x ∷ m) i h = absurd (omega arith)

-- After a write the position of the entry holds it, and every other position is as it was.
pub entry_at-write :
    (e : OutboxEntry) (o : OutboxState) (s : String) (i : ℕ)
    → entry_at (write e o).0 s i
      ≡ (if (e.sub_id == s) && (e.seq.commit_index == i) then some e else entry_at o s i)
unfolding entry_at write get
entry_at-write e o s i = ground (
  arith,
  eq_iff e.sub_id s,
  get-put o.by_sub e.sub_id (put (or_make (get o.by_sub e.sub_id)) e.seq.commit_index e) s,
  get-put (or_make (get o.by_sub e.sub_id)) e.seq.commit_index e i,
)

-- After a purge the positions of the subscription up to the index are free, and every other
-- position is as it was.
pub entry_at-purge :
    (sub : String) (u : ℕ) (o : OutboxState) (s : String) (i : ℕ)
    → entry_at (purge sub u o).0 s i ≡ (if (sub == s) && leb i u then none else entry_at o s i)
unfolding entry_at purge
entry_at-purge sub u o s i = elim (Option-cases (get o.by_sub sub)) [
  | inl absent ↦ ground (arith, eq_iff sub s)
  | inr (m, found) ↦ ground (
    arith,
    eq_iff sub s,
    get-put o.by_sub sub (purge_entries m u).0 s,
    get-remove o.by_sub sub s,
    get-purge_entries m u i,
    get-empty (purge_entries m u).0 i,
  )
]
