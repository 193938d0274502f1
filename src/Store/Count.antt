-- ===== src/Store/Count.antt =====
-- The counter of keys against the keys of the map.
use seven_db.Common.{
  ℕ, suc, ◌%◌, ◌^◌, ◌≡◌, sym, ap, subst, ◌∙◌, String, Bool, true, false, some, List, [], ◌∷◌,
  if◌then◌else◌, ltb, arith, Option-cases, Bool-cases, inl, inr,
}
use seven_db.Common.Comparable.{string_key, nat_key}
use seven_db.Common.GoMap.{GoMap, get, has, put, remove, size}
use seven_db.Common.GoMap.Laws.{has-get, is_some, size-put}
use seven_db.Common.GoMap.Keys.{IsMap, put-IsMap, remove-IsMap, size-remove, has-remove}
use seven_db.Store.{
  plus_one, minus_one, Store, EvictionStrategy, PutOptions, reg_put, reg_delete,
  notify_watch_manager, set_unix_time_expiry, del_expiry, touch, has_expired, delete_key,
  remove_key, place, del, evict, move_ttl, count_key, make_room, before_put, put_helper, get_helper,
}

-- each key is in the map once, and the counter is the number of keys in 64 bits
abbrev pub IsTally : GoMap String ℕ → ℕ → Type 0
IsTally m n = IsMap m × (n ≡ size m % 2 ^ 64)

put-IsTally :
    (m : GoMap String ℕ) (k : String) (v : ℕ) (n : ℕ)
    → IsTally m n
    → IsTally (put m k v) (if has m k then n else plus_one n)
put-IsTally m k v n h = (put-IsMap m k v h.0, ground (arith, h.1, size-put m k v))

pub remove-IsTally :
    (m : GoMap String ℕ) (k : String) (n : ℕ)
    → has m k ≡ true
    → IsTally m n
    → IsTally (remove m k) (minus_one n)
remove-IsTally m k n p h = (remove-IsMap m k h.0, ground (arith, p, h.1, size-remove m k h.0))

module _ {V : Type 0} where
  abbrev pub IsCounted : Store V → Type 0
  IsCounted s = IsTally s.store.m s.num_keys

  -- what does not touch the keys
  abbrev pub SameKeys : Store V → Store V → Type 0
  SameKeys s t = (t.store ≡ s.store) × (t.num_keys ≡ s.num_keys)

  pub same-IsCounted : (s t : Store V) → SameKeys s t → IsCounted s → IsCounted t
  same-IsCounted s t e h =
      subst (λ r. IsTally r.m t.num_keys) (sym e.0) (subst (IsTally s.store.m) (sym e.1) h)

  pub notify-SameKeys : (c k : String) (s : Store V) → SameKeys s (notify_watch_manager c k s)
  unfolding notify_watch_manager
  notify-SameKeys c k s = (ground arith, ground arith)

  pub touch-SameKeys : (now obj : ℕ) (s : Store V) → SameKeys s (touch now obj s)
  unfolding touch
  touch-SameKeys now obj s = (ground arith, ground arith)

  pub move_ttl-SameKeys :
      (keep : Bool) (cur obj : ℕ) (s : Store V) → SameKeys s (move_ttl keep cur obj s)
  unfolding move_ttl del_expiry set_unix_time_expiry
  move_ttl-SameKeys keep cur obj s = (ground arith, ground arith)

  pub delete_key-IsCounted :
      (c k : String) (obj : ℕ) (s : Store V)
      → get s.store.m k ≡ some obj
      → IsCounted s
      → IsCounted (delete_key c k obj s)
  unfolding delete_key remove_key reg_delete
  delete_key-IsCounted c k obj s found h =
      same-IsCounted (remove_key k obj s) (delete_key c k obj s)
        (notify-SameKeys c k (remove_key k obj s))
        (remove-IsTally s.store.m k s.num_keys (has-get s.store.m k ∙ ap is_some found) h)

  pub del-IsCounted : (c k : String) (s : Store V) → IsCounted s → IsCounted (del c k s).1
  unfolding del
  del-IsCounted c k s h = elim (Option-cases (get s.store.m k)) [
    | inl absent ↦ rw (absent, del) h
    | inr (obj, found) ↦ rw (found, del) (delete_key-IsCounted c k obj s found h)
  ]

  evict-IsCounted : (ks : List String) (s : Store V) → IsCounted s → IsCounted (evict ks s)
  unfolding evict
  evict-IsCounted [] s h = h
  evict-IsCounted (k ∷ ks) s h =
      evict-IsCounted ks (del "EVICT" k s).1 (del-IsCounted "EVICT" k s h)

  pub get_helper-IsCounted :
      (now : ℕ) (touches : Bool) (k : String) (s : Store V)
      → IsCounted s
      → IsCounted (get_helper now touches k s).1
  unfolding get_helper
  get_helper-IsCounted now touches k s h = elim (Option-cases (get s.store.m k)) [
    | inl absent ↦ rw (absent, get_helper) h
    | inr (obj, found) ↦ elim (Bool-cases (has_expired now obj s)) [
      | inl expired ↦ rw (found, get_helper, expired) (delete_key-IsCounted "DEL" k obj s found h)
      | inr alive ↦ elim touches as (λ t. IsCounted (get_helper now t k s).1) [
        | true ↦
            rw (found, get_helper, alive)
              (same-IsCounted s (touch now obj s) (touch-SameKeys now obj s) h)
        | false ↦ rw (found, get_helper, alive) h
      ]
    ]
  ]

  -- the counter counts the key that is to be placed
  abbrev IsReady : String → Store V → Type 0
  IsReady k t =
      IsMap t.store.m
      × (t.num_keys ≡ (if has t.store.m k then size t.store.m else suc (size t.store.m)) % 2 ^ 64)

  place-IsCounted : (k : String) (obj : ℕ) (t : Store V) → IsReady k t → IsCounted (place k obj t)
  unfolding place reg_put
  place-IsCounted k obj t h =
      (put-IsMap t.store.m k obj h.0, ground (arith, h.1, size-put t.store.m k obj))

  delete_key_absent :
      (c j k : String) (obj : ℕ) (s : Store V)
      → has s.store.m k ≡ false
      → has (delete_key c j obj s).store.m k ≡ false
  unfolding delete_key remove_key reg_delete
  delete_key_absent c j k obj s h =
      ap (λ r. has r.m k) (notify-SameKeys c j (remove_key j obj s)).0
      ∙ ground (arith, h, has-remove s.store.m j k)

  evict_absent :
      (ks : List String) (k : String) (s : Store V)
      → has s.store.m k ≡ false
      → has (evict ks s).store.m k ≡ false
  unfolding evict del
  evict_absent [] k s h = h
  evict_absent (j ∷ ks) k s h =
      evict_absent ks k (del "EVICT" j s).1 (elim (Option-cases (get s.store.m j)) [
        | inl absent ↦ rw (absent, del) h
        | inr (obj, found) ↦ rw (found, del) (delete_key_absent "EVICT" j k obj s h)
      ])

  module _ (strategy : EvictionStrategy V) where
    make_room-IsReady :
        (k : String) (s : Store V)
        → has s.store.m k ≡ false
        → IsCounted s
        → IsReady k (make_room strategy s)
    unfolding make_room count_key
    make_room-IsReady k s new h = elim (Bool-cases (ltb 0 (strategy.should_evict s))) [
      | inl full ↦ rw full (
        (evict-IsCounted (strategy.victims s (strategy.should_evict s)) s h).0,
        rw (evict_absent (strategy.victims s (strategy.should_evict s)) k s new)
            (omega (arith, (evict-IsCounted (strategy.victims s (strategy.should_evict s)) s h).1)),
      )
      | inr room ↦ rw room (h.0, rw new (omega (arith, h.1)))
    ]

    before_put-IsReady :
        (opts : PutOptions) (k : String) (obj : ℕ) (s : Store V)
        → IsCounted s
        → IsReady k (before_put strategy opts (get s.store.m k) obj s)
    unfolding before_put
    before_put-IsReady opts k obj s h = elim (Option-cases (get s.store.m k)) [
      | inl absent ↦ rw absent (make_room-IsReady k s (has-get s.store.m k ∙ ap is_some absent) h)
      | inr (cur, found) ↦
          let same = move_ttl-SameKeys opts.keep_ttl cur obj s in
          let counted = same-IsCounted s (move_ttl opts.keep_ttl cur obj s) same h in
          rw found (
            counted.0,
            rw (ap (λ r. has r.m k) same.0 ∙ has-get s.store.m k ∙ ap is_some found) counted.1,
          )
    ]

    pub put_helper-IsCounted :
        (now : ℕ) (opts : PutOptions) (k : String) (obj : ℕ) (s : Store V)
        → IsCounted s
        → IsCounted (put_helper strategy now opts k obj s)
    unfolding put_helper
    put_helper-IsCounted now opts k obj s h =
        let touched = touch now obj s in
        let ready = before_put strategy opts (get touched.store.m k) obj touched in
        same-IsCounted (place k obj ready) (put_helper strategy now opts k obj s)
          (notify-SameKeys opts.put_cmd k (place k obj ready))
          (place-IsCounted k obj ready (
            before_put-IsReady opts k obj touched
              (same-IsCounted s touched (touch-SameKeys now obj s) h)))
