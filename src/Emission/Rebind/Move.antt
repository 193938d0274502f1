-- ===== src/Emission/Rebind/Move.antt =====
-- What moving a subscription does to the outbox and to the watermarks.
use seven_db.Common.{
  ℕ, ◌≡◌, ◌≢◌, ◌⊎◌, inl, inr, refl, String, false, Option, none, some, [], ◌∷◌, arith,
  if◌then◌else◌, nat_beq_iff, Option-cases, Bool-cases,
}
use seven_db.Common.Comparable.{◌==◌, nat_key, string_key}
use seven_db.Common.GoMap.{GoMap, get, put}
use seven_db.Common.GoMap.Laws.{get-put, get-remove, has-get}
use seven_db.Common.GoMap.Keys.{IsMap}
use seven_db.Emission.Types.{EmitSeq, is_newer, Upto}
use seven_db.Emission.Outbox.{OutboxEntry, Entries, or_make}
use seven_db.Emission.Outbox.Entries.{entry_at}
use seven_db.Emission.Outbox.Valid.{IsValid}
use seven_db.Emission.Manager.{Manager}
use seven_db.Emission.Rebind.{merge, move_entries, move_mark, newer_than, move}
use text.Mathlib.TextEquality.{eq_iff}

abbrev pub relabel : String → OutboxEntry → OutboxEntry
relabel new e = record e { sub_id = new }

-- the old entry under its new label, or else the entry that was there
abbrev pub moved_or : String → Option OutboxEntry → Option OutboxEntry → Option OutboxEntry
moved_or new none there = there
moved_or new (some e) there = some (relabel new e)

get-merge :
    (new : String) (m target : Entries) (i : ℕ)
    → IsMap m
    → get (merge new m target) i ≡ moved_or new (get m i) (get target i)
unfolding merge get
get-merge new [] target i v = refl
get-merge new ((j, e) ∷ m) target i v = ground (
  arith,
  nat_beq_iff j i,
  has-get m j,
  get-put target j (relabel new e) i,
  get-merge new m (put target j (relabel new e)) i v.1,
)

module _ (old new : String) (m : Manager) (apart : old ≢ new) where
  -- the same as an equation of Booleans
  apart' : (old == new) ≡ false
  apart' = ground (arith, eq_iff old new)

  -- After a move, the old subscription has no entries, the new one has those of both, an entry of
  -- the old one taking the place of one with the same index, and all others are as they were.
  pub entry_at-move :
      (s : String) (i : ℕ)
      → IsValid m.ob
      → entry_at (move old new m).0.ob s i ≡ (
          if old == s
          then none
          else if new == s
          then moved_or new (entry_at m.ob old i) (entry_at m.ob new i)
          else entry_at m.ob s i)
  unfolding move move_entries entry_at get
  entry_at-move s i v = elim (Option-cases (get m.ob.by_sub old)) [
    | inl absent ↦ ground (arith, eq_iff old s, eq_iff new s)
    | inr (es, found) ↦
        let merged = merge new es (or_make (get m.ob.by_sub new)) in
        ground (
          arith,
          eq_iff old s,
          eq_iff new s,
          get-remove (put m.ob.by_sub new merged) old s,
          get-put m.ob.by_sub new merged s,
          get-merge new es (or_make (get m.ob.by_sub new)) i (v.maps old es found),
        )
  ]

  -- a watermark after the move, for every subscription
  pub get-move_mark :
      (marks : GoMap String EmitSeq) (s : String)
      → get (move_mark old new marks) s ≡ (
          if old == s
          then none
          else if new == s
          then elim (get marks old) [
            | none ↦ get marks new
            | some v ↦ if newer_than v (get marks new) then some v else get marks new
          ]
          else get marks s)
  unfolding move_mark
  get-move_mark marks s = elim (Option-cases (get marks old)) [
    | inl absent ↦ ground (arith, eq_iff old s, eq_iff new s)
    | inr (v, found) ↦ ground (
      arith,
      eq_iff old s,
      eq_iff new s,
      get-remove (put marks new v) old s,
      get-remove marks old s,
      get-put marks new v s,
    )
  ]

  -- A move leaves no watermark of the old subscription, and the one of the new subscription is not
  -- before either of the two that it replaces.
  pub move_mark_rises :
      (marks : GoMap String EmitSeq) (v : EmitSeq)
      → (get marks old ≡ some v) ⊎ (get marks new ≡ some v)
      → (get (move_mark old new marks) old ≡ none)
        × ((w : EmitSeq) × (get (move_mark old new marks) new ≡ some w) × Upto v w)
  move_mark_rises marks v h = (
    ground (arith, get-move_mark marks old, eq_iff old old),
    elim (Option-cases (get marks old)) [
      | inl absent ↦
          (v, ground (arith, get-move_mark marks new, apart', eq_iff new new), ground arith)
      | inr (a, here) ↦ elim (Option-cases (get marks new)) [
        | inl fresh ↦
            (a, ground (arith, get-move_mark marks new, apart', eq_iff new new), ground arith)
        | inr (b, there) ↦ elim (Bool-cases (is_newer a b)) [
          | inl newer ↦
              (a, ground (arith, get-move_mark marks new, apart', eq_iff new new), ground arith)
          | inr older ↦
              (b, ground (arith, get-move_mark marks new, apart', eq_iff new new), ground arith)
        ]
      ]
    ],
  )
