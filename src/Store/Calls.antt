-- ===== src/Store/Calls.antt =====
-- Calls in any order keep the counter of keys right.
use seven_db.Common.{
  ℕ, ◌≡◌, refl, ap, ◌∙◌, String, Bool, true, Option, none, some, List, [], ◌∷◌, if◌then◌else◌,
  arith, Option-cases, Bool-cases, inl, inr,
}
use seven_db.Common.Comparable.{◌==◌, string_key, nat_key}
use seven_db.Common.GoMap.{GoMap, get, has}
use seven_db.Common.GoMap.Laws.{has-get, is_some}
use seven_db.Common.GoMap.Keys.{has-put}
use seven_db.Store.{
  Store, EvictionStrategy, PutOptions, default_put_options, reg_put, reg_delete, reset_store,
  notify_watch_manager, set_unix_time_expiry, set_expiry, new_obj, touch, has_expired, place,
  drop_source, del, count_key, make_room, before_put, put_helper, put_all, rename, get_helper,
  get_all, get_del, delete_expired, delete_expired_keys, allocate,
}
use seven_db.Store.Count.{
  IsCounted, remove-IsTally, same-IsCounted, notify-SameKeys, touch-SameKeys, move_ttl-SameKeys,
  delete_key-IsCounted, del-IsCounted, get_helper-IsCounted, put_helper-IsCounted, SameKeys,
}

module _ {V : Type 0} where
  get_all-IsCounted :
      (now : ℕ) (ks : List String) (s : Store V) → IsCounted s → IsCounted (get_all now ks s).1
  unfolding get_all
  get_all-IsCounted now [] s h = h
  get_all-IsCounted now (k ∷ ks) s h =
      get_all-IsCounted now ks (get_helper now true k s).1 (get_helper-IsCounted now true k s h)

  get_del-IsCounted :
      (now : ℕ) (k : String) (s : Store V) → IsCounted s → IsCounted (get_del now k s).1
  unfolding get_del
  get_del-IsCounted now k s h = elim (Option-cases (get s.store.m k)) [
    | inl absent ↦ rw (absent, get_del) h
    | inr (obj, found) ↦ rw (found, get_del) (delete_key-IsCounted "DEL" k obj s found h)
  ]

  delete_expired-IsCounted :
      (now : ℕ) (m : GoMap String ℕ) (s : Store V)
      → IsCounted s
      → IsCounted (delete_expired now m s)
  unfolding delete_expired
  delete_expired-IsCounted now [] s h = h
  delete_expired-IsCounted now ((k, obj) ∷ m) s h =
      delete_expired-IsCounted now m (if has_expired now obj s then (del "DEL" k s).1 else s)
        (elim (Bool-cases (has_expired now obj s)) [
          | inl expired ↦ rw expired (del-IsCounted "DEL" k s h)
          | inr alive ↦ rw alive h
        ])

  set_unix_time_expiry-SameKeys :
      (obj t : ℕ) (s : Store V) → SameKeys s (set_unix_time_expiry obj t s)
  unfolding set_unix_time_expiry
  set_unix_time_expiry-SameKeys obj t s = (refl, refl)

  new_obj-SameKeys :
      (now : ℕ) (v : V) (o : Option ℕ) (t : ℕ) (s : Store V) → SameKeys s (new_obj now v o t s).1
  unfolding new_obj allocate set_expiry set_unix_time_expiry
  new_obj-SameKeys now v none t s = (refl, refl)
  new_obj-SameKeys now v (some ms) t s = (refl, refl)

  reset_store-IsCounted : (s : Store V) → IsCounted (reset_store s)
  unfolding reset_store
  reset_store-IsCounted s = (tt, refl)

  module _ (strategy : EvictionStrategy V) where
    -- where nothing is evicted, a put changes one key
    pub put_helper-store :
        (now : ℕ) (opts : PutOptions) (k : String) (obj : ℕ) (s : Store V)
        → strategy.should_evict (touch now obj s) ≡ 0
        → (put_helper strategy now opts k obj s).store ≡ reg_put k obj s.store
    unfolding put_helper place before_put make_room count_key
    put_helper-store now opts k obj s spared =
        let touched = touch now obj s in
        let ready = before_put strategy opts (get touched.store.m k) obj touched in
        (notify-SameKeys opts.put_cmd k (place k obj ready)).0
        ∙ ap (reg_put k obj) (elim (Option-cases (get touched.store.m k)) [
          | inl absent ↦ rw (absent, before_put, spared) (touch-SameKeys now obj s).0
          | inr (cur, found) ↦
              rw (found, before_put)
                ((move_ttl-SameKeys opts.keep_ttl cur obj touched).0 ∙ (touch-SameKeys now obj s).0)
        ])

    drop_source-IsCounted :
        (src : String) (s : Store V)
        → has s.store.m src ≡ true
        → IsCounted s
        → IsCounted (drop_source src s)
    unfolding drop_source reg_delete
    drop_source-IsCounted src s h c = remove-IsTally s.store.m src s.num_keys h c

    rename-IsCounted :
        (now : ℕ) (src dst : String) (s : Store V)
        → ((obj : ℕ) → get s.store.m src ≡ some obj → strategy.should_evict (touch now obj s) ≡ 0)
        → IsCounted s
        → IsCounted (rename strategy now src dst s).1
    unfolding rename reg_put
    rename-IsCounted now src dst s spared h = elim (Bool-cases (src == dst)) [
      | inl same ↦ rw (same, rename) h
      | inr differ ↦ elim (Option-cases (get s.store.m src)) [
        | inl absent ↦ rw (differ, rename, absent) h
        | inr (obj, found) ↦ elim (Bool-cases (has_expired now obj s)) [
          | inl expired ↦
              rw (differ, rename, found, expired) (delete_key-IsCounted "RENAME" src obj s found h)
          | inr alive ↦
              let placed = put_helper strategy now default_put_options dst obj s in
              rw (differ, rename, found, alive)
                (same-IsCounted (drop_source src placed)
                  (notify_watch_manager "RENAME" src (drop_source src placed))
                  (notify-SameKeys "RENAME" src (drop_source src placed))
                  (drop_source-IsCounted src placed
                    (ap (λ r. has r.m src)
                        (put_helper-store now default_put_options dst obj s (spared obj found))
                      ∙ ground (
                        arith,
                        has-put s.store.m dst obj src,
                        has-get s.store.m src ∙ ap is_some found,
                      ))
                    (put_helper-IsCounted strategy now default_put_options dst obj s h)))
        ]
      ]
    ]

    put_all-IsCounted :
        (now : ℕ) (entries : List (String × ℕ)) (s : Store V)
        → IsCounted s
        → IsCounted (put_all strategy now entries s)
    unfolding put_all
    put_all-IsCounted now [] s h = h
    put_all-IsCounted now ((k, obj) ∷ entries) s h =
        put_all-IsCounted now entries (put_helper strategy now default_put_options k obj s)
          (put_helper-IsCounted strategy now default_put_options k obj s h)

pub data StoreCall (V : Type 0) : Type 0 where
  put_call : PutOptions → String → ℕ → StoreCall V
  put_all_call : List (String × ℕ) → StoreCall V
  get_call : Bool → String → StoreCall V
  get_all_call : List String → StoreCall V
  del_call : String → StoreCall V
  get_del_call : String → StoreCall V
  rename_call : String → String → StoreCall V
  new_obj_call : V → Option ℕ → ℕ → StoreCall V
  expire_call : ℕ → ℕ → StoreCall V
  delete_expired_call : StoreCall V
  reset_call : StoreCall V

-- where Rename is called, the strategy evicts nothing from the store at that moment
abbrev pub Spares : {V : Type 0} → EvictionStrategy V → ℕ → StoreCall V → Store V → Type 0
Spares strategy now (rename_call src dst) s =
    (obj : ℕ) → get s.store.m src ≡ some obj → strategy.should_evict (touch now obj s) ≡ 0
Spares strategy now _ s = Unit

module _ {V : Type 0} (strategy : EvictionStrategy V) where
  unfoldable pub store_call : ℕ → StoreCall V → Store V → Store V
  store_call now (put_call opts k obj) s = put_helper strategy now opts k obj s
  store_call now (put_all_call entries) s = put_all strategy now entries s
  store_call now (get_call touches k) s = (get_helper now touches k s).1
  store_call now (get_all_call ks) s = (get_all now ks s).1
  store_call now (del_call k) s = (del "DEL" k s).1
  store_call now (get_del_call k) s = (get_del now k s).1
  store_call now (rename_call src dst) s = (rename strategy now src dst s).1
  store_call now (new_obj_call v o t) s = (new_obj now v o t s).1
  store_call now (expire_call obj t) s = set_unix_time_expiry obj t s
  store_call now delete_expired_call s = delete_expired_keys now s
  store_call now reset_call s = reset_store s

  -- calls with their times
  unfoldable pub store_calls : List (ℕ × StoreCall V) → Store V → Store V
  unfolding store_call
  store_calls [] s = s
  store_calls ((now, c) ∷ cs) s = store_calls cs (store_call now c s)

  -- at each Rename among the calls, nothing is evicted
  abbrev pub RenamesSpare : List (ℕ × StoreCall V) → Store V → Type 0
  RenamesSpare [] s = Unit
  RenamesSpare ((now, c) ∷ cs) s = Spares strategy now c s × RenamesSpare cs (store_call now c s)

  store_call-IsCounted :
      (now : ℕ) (c : StoreCall V) (s : Store V)
      → Spares strategy now c s
      → IsCounted s
      → IsCounted (store_call now c s)
  unfolding store_call delete_expired_keys
  store_call-IsCounted now (put_call opts k obj) s p h =
      put_helper-IsCounted strategy now opts k obj s h
  store_call-IsCounted now (put_all_call entries) s p h = put_all-IsCounted strategy now entries s h
  store_call-IsCounted now (get_call touches k) s p h = get_helper-IsCounted now touches k s h
  store_call-IsCounted now (get_all_call ks) s p h = get_all-IsCounted now ks s h
  store_call-IsCounted now (del_call k) s p h = del-IsCounted "DEL" k s h
  store_call-IsCounted now (get_del_call k) s p h = get_del-IsCounted now k s h
  store_call-IsCounted now (rename_call src dst) s p h = rename-IsCounted strategy now src dst s p h
  store_call-IsCounted now (new_obj_call v o t) s p h =
      same-IsCounted s (new_obj now v o t s).1 (new_obj-SameKeys now v o t s) h
  store_call-IsCounted now (expire_call obj t) s p h =
      same-IsCounted s (set_unix_time_expiry obj t s) (set_unix_time_expiry-SameKeys obj t s) h
  store_call-IsCounted now delete_expired_call s p h = delete_expired-IsCounted now s.store.m s h
  store_call-IsCounted now reset_call s p h = reset_store-IsCounted s

  -- Calls in any order keep the counter of keys at the number of keys, evictions included, if at the
  -- moment of each Rename of a key that is there the strategy evicts nothing.
  pub store_calls-IsCounted :
      (cs : List (ℕ × StoreCall V)) (s : Store V)
      → RenamesSpare cs s
      → IsCounted s
      → IsCounted (store_calls cs s)
  unfolding store_calls
  store_calls-IsCounted [] s p h = h
  store_calls-IsCounted ((now, c) ∷ cs) s p h =
      store_calls-IsCounted cs (store_call now c s) p.1 (store_call-IsCounted now c s p.0 h)
