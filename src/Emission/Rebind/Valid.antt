-- ===== src/Emission/Rebind/Valid.antt =====
-- Well-formed outboxes under the move of a subscription.
use seven_db.Common.{
  ◌≡◌, ◌≢◌, inl, inr, refl, String, Option, none, some, [], ◌∷◌, arith, Option-cases,
}
use seven_db.Common.Comparable.{nat_key, string_key}
use seven_db.Common.GoMap.{GoMap, get, put, remove, size}
use seven_db.Common.GoMap.Laws.{size-put, put-Values, remove-Values, Values}
use seven_db.Common.GoMap.Keys.{IsMap, put-IsMap, remove-IsMap}
use seven_db.Emission.Outbox.{Entries, or_make}
use seven_db.Emission.Outbox.Entries.{entry_at}
use seven_db.Emission.Outbox.Valid.{IsValid, or_make-IsMap}
use seven_db.Emission.Manager.{Manager}
use seven_db.Emission.Rebind.{merge, move_entries, move}
use seven_db.Emission.Rebind.Move.{relabel, entry_at-move}
use text.Mathlib.TextEquality.{eq_iff}

merge-IsMap : (new : String) (m target : Entries) → IsMap target → IsMap (merge new m target)
unfolding merge
merge-IsMap new [] target v = v
merge-IsMap new ((j, e) ∷ m) target v =
    merge-IsMap new m (put target j (relabel new e)) (put-IsMap target j (relabel new e) v)

size-le-merge :
    (new : String) (m target : Entries) → size target ≢ 0 → size (merge new m target) ≢ 0
unfolding merge
size-le-merge new [] target h = h
size-le-merge new ((j, e) ∷ m) target h =
    size-le-merge new m (put target j (relabel new e))
      (ground (arith, size-put target j (relabel new e)))

size-merge-ne-zero :
    (new : String) (m target : Entries) → size m ≢ 0 → size (merge new m target) ≢ 0
unfolding merge put
size-merge-ne-zero new [] target h = absurd (omega arith)
size-merge-ne-zero new ((j, e) ∷ m) [] h =
    size-le-merge new m (put [] j (relabel new e)) (omega arith)
size-merge-ne-zero new ((j, e) ∷ m) (x ∷ target) h =
    size-le-merge new m (put (x ∷ target) j (relabel new e))
      (ground (arith, size-put (x ∷ target) j (relabel new e)))

module _ (old new : String) (m : Manager) (apart : old ≢ new) (v : IsValid m.ob) where
  -- the subscriptions after a move, on both branches
  move-shape :
      (P : GoMap String Entries → Type 0)
      → P m.ob.by_sub
      → ((es : Entries)
          → get m.ob.by_sub old ≡ some es
          → P (remove (put m.ob.by_sub new (merge new es (or_make (get m.ob.by_sub new)))) old))
      → P (move old new m).0.ob.by_sub
  unfolding move move_entries
  move-shape P same moved = go (get m.ob.by_sub old) refl
    where
      go : (x : Option Entries) → get m.ob.by_sub old ≡ x → P (move old new m).0.ob.by_sub
      go none h = rw (h, move_entries) same
      go (some es) h = rw (h, move_entries) (moved es h)

  module _ (es : Entries) (found : get m.ob.by_sub old ≡ some es) where
    abbrev target : Entries
    target = or_make (get m.ob.by_sub new)

    moved-Values :
        (P : Entries → Type 0)
        → Values P m.ob.by_sub
        → P (merge new es target)
        → Values P (remove (put m.ob.by_sub new (merge new es target)) old)
    moved-Values P h p =
        remove-Values P (put m.ob.by_sub new (merge new es target)) old
          (put-Values P m.ob.by_sub new (merge new es target) p h)

  -- A move keeps the outbox well-formed.
  pub move-IsValid : IsValid (move old new m).0.ob
  move-IsValid = record {
    subs =
        move-shape IsMap v.subs (λ es h. remove-IsMap _ old (put-IsMap m.ob.by_sub new _ v.subs));
    maps =
        move-shape (Values IsMap) v.maps
          (λ es h. moved-Values es h IsMap v.maps (merge-IsMap new es _ (or_make-IsMap new v)));
    filled = move-shape (Values (λ n. size n ≢ 0)) v.filled (λ es h.
        moved-Values es h (λ n. size n ≢ 0) v.filled
          (size-merge-ne-zero new es _ (v.filled old es h)));
    own_sub = λ s i e h. elim (Option-cases (entry_at m.ob old i)) [
      | inl absent ↦
          ground (arith, entry_at-move old new m apart s i v, eq_iff new s, v.own_sub s i e)
      | inr (x, found) ↦
          ground (arith, entry_at-move old new m apart s i v, eq_iff new s, v.own_sub s i e)
    ];
    own_index = λ s i e h. elim (Option-cases (entry_at m.ob old i)) [
      | inl absent ↦
          ground (arith, entry_at-move old new m apart s i v, eq_iff new s, v.own_index s i e)
      | inr (x, found) ↦ ground (
        arith,
        entry_at-move old new m apart s i v,
        eq_iff new s,
        v.own_index s i e,
        v.own_index old i x,
      )
    ];
  }
