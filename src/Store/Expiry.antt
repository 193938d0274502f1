-- ===== src/Store/Expiry.antt =====
-- What a reader sees, lazily and after the expired keys were deleted.
use seven_db.Common.{
  ℕ, ◌≡◌, sym, ap, subst, ◌∙◌, String, Bool, true, false, Option, none, some, [], ◌∷◌, ◌⊎◌,
  if◌then◌else◌, arith, Option-cases, Bool-cases, inl, inr, nat_beq, nat_beq_iff,
}
use seven_db.Common.Lists.{All}
use seven_db.Common.Comparable.{◌==◌, string_key, nat_key}
use seven_db.Common.GoMap.{GoMap, get}
use seven_db.Common.GoMap.Laws.{get-remove}
use seven_db.Store.{
  Store, reg_delete, notify_watch_manager, get_expiry, expired_by, has_expired, delete_key,
  remove_key, get_helper,
}
use text.Mathlib.TextEquality.{eq_iff}

module _ {V : Type 0} where
  -- no two keys have the same object
  abbrev pub IsUnshared : Store V → Type 0
  IsUnshared s =
      (j k : String) (obj : ℕ) → get s.store.m j ≡ some obj → get s.store.m k ≡ some obj → j ≡ k

  -- what Get returns
  abbrev pub seen_at : ℕ → Store V → Option ℕ → Option ℕ
  seen_at now s none = none
  seen_at now s (some obj) = if has_expired now obj s then none else some obj

  unfoldable pub seen : ℕ → String → Store V → Option ℕ
  seen now k s = seen_at now s (get s.store.m k)

  pub get_helper-seen :
      (now : ℕ) (touches : Bool) (k : String) (s : Store V)
      → (get_helper now touches k s).0 ≡ seen now k s
  unfolding get_helper seen
  get_helper-seen now touches k s = ground arith

  notify_keeps :
      (c k : String) (s : Store V)
      → ((notify_watch_manager c k s).store ≡ s.store)
        × ((notify_watch_manager c k s).expires ≡ s.expires)
  unfolding notify_watch_manager
  notify_keeps c k s = (ground arith, ground arith)

  pub get-delete_key :
      (c j k : String) (obj : ℕ) (s : Store V)
      → get (delete_key c j obj s).store.m k ≡ (if j == k then none else get s.store.m k)
  unfolding delete_key remove_key reg_delete
  get-delete_key c j k obj s =
      ap (λ r. get r.m k) (notify_keeps c j (remove_key j obj s)).0 ∙ get-remove s.store.m j k

  pub expiry-delete_key :
      (c j : String) (obj o : ℕ) (s : Store V)
      → get_expiry o (delete_key c j obj s) ≡ (if obj == o then none else get_expiry o s)
  unfolding delete_key remove_key reg_delete
  expiry-delete_key c j obj o s =
      ap (λ r. get r.m o) (notify_keeps c j (remove_key j obj s)).1 ∙ get-remove s.expires.m obj o

  -- two keys with objects have two objects
  apart :
      (j k : String) (obj o : ℕ) (s : Store V)
      → IsUnshared s
      → get s.store.m j ≡ some obj
      → get s.store.m k ≡ some o
      → (j == k) ≡ false
      → nat_beq obj o ≡ false
  apart j k obj o s unshared found held there = elim (Bool-cases (nat_beq obj o)) [
    | inl same ↦ absurd (
        ground (
          arith,
          (eq_iff j k).1
              (unshared j k obj found (held ∙ ap some (sym ((nat_beq_iff obj o).0 same)))),
        ))
    | inr other ↦ other
  ]

  -- deleting an expired key is not seen
  pub seen-delete_key :
      (now : ℕ) (c j k : String) (obj : ℕ) (s : Store V)
      → IsUnshared s
      → get s.store.m j ≡ some obj
      → has_expired now obj s ≡ true
      → seen now k (delete_key c j obj s) ≡ seen now k s
  unfolding seen
  seen-delete_key now c j k obj s unshared found expired = elim (Bool-cases (j == k)) [
    | inl here ↦
        ap (seen_at now (delete_key c j obj s))
          (get-delete_key c j k obj s ∙ ap (λ t. if t then none else get s.store.m k) here)
        ∙ sym (
            ap (seen_at now s) (subst (λ i. get s.store.m i ≡ some obj) ((eq_iff j k).0 here) found)
            ∙ ap (λ t. if t then none else some obj) expired)
    | inr there ↦
        let kept =
          get-delete_key c j k obj s ∙ ap (λ t. if t then none else get s.store.m k) there in
        elim (Option-cases (get s.store.m k)) [
          | inl absent ↦
              ap (seen_at now (delete_key c j obj s)) (kept ∙ absent)
              ∙ sym (ap (seen_at now s) absent)
          | inr (o, held) ↦
              ap (seen_at now (delete_key c j obj s)) (kept ∙ held)
              ∙ ap (λ x. if expired_by now x then none else some o)
                  (expiry-delete_key c j obj o s
                    ∙ ap (λ t. if t then none else get_expiry o s)
                        (apart j k obj o s unshared found held there))
              ∙ sym (ap (seen_at now s) held)
        ]
  ]

  pub delete_key-IsUnshared :
      (c j : String) (obj : ℕ) (s : Store V) → IsUnshared s → IsUnshared (delete_key c j obj s)
  delete_key-IsUnshared c j obj s unshared i k o a b = unshared i k o (kept i o a) (kept k o b)
    where
      kept :
          (x : String) (y : ℕ)
          → get (delete_key c j obj s).store.m x ≡ some y
          → get s.store.m x ≡ some y
      kept x y a = ground (arith, a, get-delete_key c j x obj s)

  -- the map has no key that an earlier one had not, and the same objects
  unfoldable pub Shrinks : GoMap String ℕ → Store V → Type 0
  Shrinks m s = All (λ e. (get s.store.m e.0 ≡ none) ⊎ (get s.store.m e.0 ≡ some e.1)) m

  pub delete_key-Shrinks :
      (c j : String) (obj : ℕ) (s : Store V) (m : GoMap String ℕ)
      → Shrinks m s
      → Shrinks m (delete_key c j obj s)
  unfolding Shrinks
  delete_key-Shrinks c j obj s [] h = tt
  delete_key-Shrinks c j obj s ((k, o) ∷ m) h = (
    elim (Bool-cases (j == k)) [
      | inl here ↦
          inl (get-delete_key c j k obj s ∙ ap (λ t. if t then none else get s.store.m k) here)
      | inr there ↦
          subst (λ x. (x ≡ none) ⊎ (x ≡ some o))
            (sym (get-delete_key c j k obj s ∙ ap (λ t. if t then none else get s.store.m k) there))
            h.0
    ],
    delete_key-Shrinks c j obj s m h.1,
  )
