-- ===== src/Store/Sweep.antt =====
-- Deleting the expired keys, over all entries of the map.
use seven_db.Common.{
  ℕ, ◌≡◌, refl, sym, ap, subst, ◌∙◌, String, Bool, true, false, none, some, [], ◌∷◌, ◌⊎◌,
  if◌then◌else◌, arith, Option-cases, Bool-cases, inl, inr,
}
use mathlib.Core.Option.{some-injective}
use seven_db.Common.Comparable.{◌==◌, string_key, nat_key}
use seven_db.Common.GoMap.{GoMap, get, has}
use seven_db.Common.GoMap.Laws.{has-get, is_some, eq_self}
use seven_db.Common.GoMap.Keys.{IsMap}
use seven_db.Store.{
  Store, expired_by, has_expired, delete_key, del, get_helper, delete_expired, delete_expired_keys,
}
use text.Mathlib.TextEquality.{eq_iff}
use seven_db.Store.Expiry.{
  IsUnshared, seen_at, seen, get_helper-seen, get-delete_key, expiry-delete_key, seen-delete_key,
  delete_key-IsUnshared, Shrinks, delete_key-Shrinks,
}

module _ {V : Type 0} where
  -- a key that is still in the map has not expired, or is still to come
  Left : ℕ → GoMap String ℕ → Store V → Type 0
  Left now m s =
      (k : String) (obj : ℕ)
      → get s.store.m k ≡ some obj
      → (has_expired now obj s ≡ false) ⊎ (has m k ≡ true)

  -- one turn of the loop
  abbrev turn : ℕ → String → ℕ → Store V → Store V
  turn now k obj s = if has_expired now obj s then (del "DEL" k s).1 else s

  alive_after :
      (now : ℕ) (c j : String) (obj o : ℕ) (s : Store V)
      → has_expired now o s ≡ false
      → has_expired now o (delete_key c j obj s) ≡ false
  alive_after now c j obj o s alive =
      ap (expired_by now) (expiry-delete_key c j obj o s) ∙ ground (arith, alive)

  delete_key-Left :
      (now : ℕ) (c j : String) (obj : ℕ) (m : GoMap String ℕ) (s : Store V)
      → Left now ((j, obj) ∷ m) s
      → Left now m (delete_key c j obj s)
  unfolding Left has
  delete_key-Left now c j obj m s left k o held = elim (Bool-cases (j == k)) [
    | inl here ↦ absurd (ground (arith, held, here, get-delete_key c j k obj s))
    | inr there ↦
        elim (left k o (
          sym (get-delete_key c j k obj s ∙ ap (λ t. if t then none else get s.store.m k) there)
          ∙ held)) [
            | inl alive ↦ inl (alive_after now c j obj o s alive)
            | inr later ↦ inr (ground (arith, later, there))
          ]
  ]

  skip-Left :
      (now : ℕ) (j : String) (obj : ℕ) (m : GoMap String ℕ) (s : Store V)
      → Left now ((j, obj) ∷ m) s
      → ((o : ℕ) → get s.store.m j ≡ some o → has_expired now o s ≡ false)
      → Left now m s
  unfolding Left has
  skip-Left now j obj m s left gone k o held = elim (Bool-cases (j == k)) [
    | inl here ↦
        inl (gone o (subst (λ i. get s.store.m i ≡ some o) (sym ((eq_iff j k).0 here)) held))
    | inr there ↦ elim (left k o held) [
      | inl alive ↦ inl alive
      | inr later ↦ inr (ground (arith, later, there))
    ]
  ]

  -- what a turn keeps, with the entries that are still to come
  abbrev Going : ℕ → GoMap String ℕ → Store V → Type 0
  Going now m s = IsUnshared s × Shrinks m s × Left now m s

  turn-Going :
      (now : ℕ) (j : String) (obj : ℕ) (m : GoMap String ℕ) (s : Store V)
      → Going now ((j, obj) ∷ m) s
      → Going now m (turn now j obj s)
        × ((k : String) → seen now k (turn now j obj s) ≡ seen now k s)
  unfolding del Shrinks
  turn-Going now j obj m s g = elim (Bool-cases (has_expired now obj s)) [
    | inl expired ↦ elim g.1.0 [
      | inl absent ↦
          rw (expired, absent, del)
            (
              (
                g.0,
                g.1.1,
                skip-Left now j obj m s g.2 (λ o held. absurd (ground (arith, absent, held))),
              ),
              λ k. refl,
            )
      | inr held ↦
          rw (expired, held, del)
            (
              (
                delete_key-IsUnshared "DEL" j obj s g.0,
                delete_key-Shrinks "DEL" j obj s m g.1.1,
                delete_key-Left now "DEL" j obj m s g.2,
              ),
              λ k. seen-delete_key now "DEL" j k obj s g.0 held expired,
            )
    ]
    | inr alive ↦ rw alive (
      (
        g.0,
        g.1.1,
        skip-Left now j obj m s g.2 (λ o held. elim g.1.0 [
          | inl absent ↦ absurd (ground (arith, absent, held))
          | inr there ↦
              subst (λ x. has_expired now x s ≡ false) (some-injective obj o (sym there ∙ held))
                alive
        ]),
      ),
      λ k. refl,
    )
  ]

  delete_expired-Going :
      (now : ℕ) (m : GoMap String ℕ) (s : Store V)
      → Going now m s
      → Going now [] (delete_expired now m s)
        × ((k : String) → seen now k (delete_expired now m s) ≡ seen now k s)
  unfolding delete_expired
  delete_expired-Going now [] s g = (g, λ k. refl)
  delete_expired-Going now ((j, obj) ∷ m) s g =
      let next = turn-Going now j obj m s g in
      let rest = delete_expired-Going now m (turn now j obj s) next.0 in
      (rest.0, λ k. rest.1 k ∙ next.1 k)

  all-Shrinks :
      (m : GoMap String ℕ) (s : Store V)
      → IsMap m
      → ((k : String) (o : ℕ) → get m k ≡ some o → get s.store.m k ≡ some o)
      → Shrinks m s
  unfolding Shrinks get
  all-Shrinks [] s d h = tt
  all-Shrinks ((k, o) ∷ m) s d h = (
    inr (h k o (ap (λ t. if t then some o else get m k) (eq_self k))),
    all-Shrinks m s d.1 (λ j x e. h j x (ground (arith, e, eq_iff k j, d.0, has-get m k))),
  )

  -- Where the map has each key once and no two keys share an object, after DeleteExpiredKeys the map has at each key what
  -- Get would have returned before: the objects that have expired are gone, and all others are there.
  pub get-delete_expired_keys :
      (now : ℕ) (touches : Bool) (k : String) (s : Store V)
      → IsMap s.store.m
      → IsUnshared s
      → get (delete_expired_keys now s).store.m k ≡ (get_helper now touches k s).0
  unfolding delete_expired_keys Left seen has
  get-delete_expired_keys now touches k s d unshared =
      let swept = delete_expired-Going now s.store.m s (
        unshared,
        all-Shrinks s.store.m s d (λ j o e. e),
        λ j o held. inr (has-get s.store.m j ∙ ap is_some held),
      ) in
      all_seen (delete_expired now s.store.m s) swept.0.2
      ∙ swept.1 k
      ∙ sym (get_helper-seen now touches k s)
    where
      all_seen : (t : Store V) → Left now [] t → get t.store.m k ≡ seen_at now t (get t.store.m k)
      all_seen t left = elim (Option-cases (get t.store.m k)) [
        | inl absent ↦ rw absent refl
        | inr (o, held) ↦ elim (left k o held) [
          | inl alive ↦ rw (held, alive) refl
          | inr later ↦ absurd (ground (arith, later))
        ]
      ]
