-- ===== src/Emission/Outbox/Count.antt =====
-- How many entries an outbox holds, and what the operations report about it.
use seven_db.Common.{
  ℕ, ◌+◌, ◌≡◌, refl, String, false, not, ◌&&◌, none, [], ◌∷◌, arith, if◌then◌else◌, Option-cases,
  inl, inr,
}
use seven_db.Common.Comparable.{nat_key, string_key}
use seven_db.Common.GoMap.{GoMap, get, put, remove, has, size}
use seven_db.Common.GoMap.Laws.{has-get, size-put, is_some, eq_self}
use seven_db.Common.GoMap.Keys.{IsMap, has-put, has-remove, size-remove}
use seven_db.Emission.Outbox.{
  OutboxEntry, OutboxState, Entries, or_make, write, purge_entries, purge,
}
use seven_db.Emission.Outbox.Entries.{entry_at, size-purge_entries}
use text.Mathlib.TextEquality.{eq_iff}

unfoldable pub total_in : GoMap String Entries → ℕ
total_in [] = 0
total_in ((s, m) ∷ b) = size m + total_in b

-- the number of entries that await delivery
abbrev pub total : OutboxState → ℕ
total o = total_in o.by_sub

total_in-put :
    (b : GoMap String Entries) (s : String) (m : Entries)
    → total_in (put b s m) + size (or_make (get b s)) ≡ total_in b + size m
unfolding total_in put get
total_in-put [] s m = omega arith
total_in-put ((r, n) ∷ b) s m = ground (arith, total_in-put b s m)

total_in-absent : (b : GoMap String Entries) (s : String) → has b s ≡ false → get b s ≡ none
unfolding get has
total_in-absent [] s h = refl
total_in-absent ((r, n) ∷ b) s h = ground (arith, total_in-absent b s)

total_in-remove :
    (b : GoMap String Entries) (s : String)
    → IsMap b
    → total_in (remove b s) + size (or_make (get b s)) ≡ total_in b
unfolding total_in remove get
total_in-remove [] s h = omega arith
total_in-remove ((r, n) ∷ b) s h =
    ground (arith, total_in-remove b s h.1, eq_iff r s, total_in-absent b s)

-- A write adds one entry, unless it replaces one.
pub total-write :
    (e : OutboxEntry) (o : OutboxState)
    → total (write e o).0
      ≡ (if is_some (entry_at o e.sub_id e.seq.commit_index) then total o else total o + 1)
unfolding write entry_at get
total-write e o = ground (
  arith,
  total_in-put o.by_sub e.sub_id (put (or_make (get o.by_sub e.sub_id)) e.seq.commit_index e),
  size-put (or_make (get o.by_sub e.sub_id)) e.seq.commit_index e,
  has-get (or_make (get o.by_sub e.sub_id)) e.seq.commit_index,
)

module _ (sub : String) (u : ℕ) (o : OutboxState) where
  -- A purge reports the number of entries that it removes.
  pub total-purge : IsMap o.by_sub → total (purge sub u o).0 + (purge sub u o).1 ≡ total o
  unfolding purge
  total-purge v = elim (Option-cases (get o.by_sub sub)) [
    | inl absent ↦ ground arith
    | inr (m, found) ↦ ground (
      arith,
      total_in-put o.by_sub sub (purge_entries m u).0,
      total_in-remove o.by_sub sub v,
      size-purge_entries m u,
    )
  ]

  -- The flag of a purge tells that the subscription had entries and has none now.
  pub purge_emptied :
      (purge sub u o).2 ≡ (has o.by_sub sub && not (has (purge sub u o).0.by_sub sub))
  unfolding purge
  purge_emptied = elim (Option-cases (get o.by_sub sub)) [
    | inl absent ↦ ground (arith, has-get o.by_sub sub)
    | inr (m, found) ↦ ground (
      arith,
      has-get o.by_sub sub,
      has-put o.by_sub sub (purge_entries m u).0 sub,
      has-remove o.by_sub sub sub,
      eq_self sub,
    )
  ]

  -- The number of subscriptions falls by one with the flag, and else stays.
  pub size-purge :
      IsMap o.by_sub
      → size (purge sub u o).0.by_sub + (if (purge sub u o).2 then 1 else 0) ≡ size o.by_sub
  unfolding purge
  size-purge v = elim (Option-cases (get o.by_sub sub)) [
    | inl absent ↦ ground arith
    | inr (m, found) ↦ ground (
      arith,
      has-get o.by_sub sub,
      size-put o.by_sub sub (purge_entries m u).0,
      size-remove o.by_sub sub v,
    )
  ]

pub size-write :
    (e : OutboxEntry) (o : OutboxState)
    → size (write e o).0.by_sub ≡ (if (write e o).1 then size o.by_sub + 1 else size o.by_sub)
unfolding write
size-write e o =
    ground (
      arith,
      size-put o.by_sub e.sub_id (put (or_make (get o.by_sub e.sub_id)) e.seq.commit_index e),
    )
