-- ===== src/Store/Overwrite.antt =====
-- Putting an object at a key that has one.
use seven_db.Common.{
  ℕ, suc, ◌%◌, ◌^◌, ◌≡◌, refl, ap, ◌∙◌, String, Bool, Option, none, some, ◌&&◌, if◌then◌else◌, ltb,
  arith, Option-cases, Bool-cases, inl, inr, nat_beq,
}
use seven_db.Common.Comparable.{string_key, nat_key}
use seven_db.Common.GoMap.{get, put, size}
use seven_db.Common.GoMap.Laws.{get-remove, get-put, has-get, is_some, size-put}
use seven_db.Store.{
  Store, EvictionStrategy, PutOptions, reg_put, reg_delete, notify_watch_manager, get_expiry,
  set_unix_time_expiry, del_expiry, move_ttl, touch, place, before_put, put_helper, get_db_size,
}

-- the expiry that KEEPTTL carries over, or the one that the object had
abbrev pub kept_ttl : Bool → Option ℕ → Option ℕ → Option ℕ
kept_ttl keep none own = own
kept_ttl keep (some v) own = if keep && ltb 0 v then some v else own

module _ {V : Type 0} where
  touch_keeps :
      (now obj : ℕ) (s : Store V)
      → ((touch now obj s).store ≡ s.store) × ((touch now obj s).expires ≡ s.expires)
  unfolding touch
  touch_keeps now obj s = (ground arith, ground arith)

  notify_keeps :
      (c k : String) (s : Store V)
      → ((notify_watch_manager c k s).store ≡ s.store)
        × ((notify_watch_manager c k s).expires ≡ s.expires)
  unfolding notify_watch_manager
  notify_keeps c k s = (ground arith, ground arith)

  get_expiry-move_ttl :
      (keep : Bool) (cur obj o : ℕ) (s : Store V)
      → get_expiry o (move_ttl keep cur obj s) ≡ (
          if nat_beq cur o
          then none
          else if nat_beq obj o
          then kept_ttl keep (get_expiry cur s) (get_expiry o s)
          else get_expiry o s)
  unfolding move_ttl del_expiry set_unix_time_expiry reg_put reg_delete
  get_expiry-move_ttl keep cur obj o s = elim (Option-cases (get_expiry cur s)) [
    | inl absent ↦ rw (move_ttl, absent) (ground (arith, get-remove s.expires.m cur o))
    | inr (v, held) ↦ elim (Bool-cases (keep && ltb 0 v)) [
      | inl keeps ↦
          rw (move_ttl, held, keeps)
            (ground (arith, get-remove (put s.expires.m obj v) cur o, get-put s.expires.m obj v o))
      | inr drops ↦ rw (move_ttl, held, drops) (ground (arith, get-remove s.expires.m cur o))
    ]
  ]

  move_ttl-store :
      (keep : Bool) (cur obj : ℕ) (s : Store V) → (move_ttl keep cur obj s).store ≡ s.store
  unfolding move_ttl del_expiry set_unix_time_expiry
  move_ttl-store keep cur obj s = ground arith

  module _ (strategy : EvictionStrategy V) (now : ℕ) (opts : PutOptions) (k : String) (obj cur : ℕ)
      (s : Store V) (held : get s.store.m k ≡ some cur) where
    before_put_over :
        before_put strategy opts (get (touch now obj s).store.m k) obj (touch now obj s)
        ≡ move_ttl opts.keep_ttl cur obj (touch now obj s)
    unfolding before_put
    before_put_over = rw (ap (λ r. get r.m k) (touch_keeps now obj s).0 ∙ held) refl

    put_over :
        put_helper strategy now opts k obj s
        ≡ notify_watch_manager opts.put_cmd k
            (place k obj (move_ttl opts.keep_ttl cur obj (touch now obj s)))
    unfolding put_helper
    put_over = ap (λ t. notify_watch_manager opts.put_cmd k (place k obj t)) before_put_over

    -- Where a put replaces the object of a key, the replaced object has no expiry afterwards, also where it is put again; the
    -- new object takes over its expiry under KEEPTTL, if that is positive, and keeps its own otherwise; and no other
    -- object's expiry changes.
    pub put_helper-get_expiry :
        (o : ℕ)
        → get_expiry o (put_helper strategy now opts k obj s) ≡ (
            if nat_beq cur o
            then none
            else if nat_beq obj o
            then kept_ttl opts.keep_ttl (get_expiry cur s) (get_expiry o s)
            else get_expiry o s)
    unfolding place
    put_helper-get_expiry o =
        let t = touch now obj s in
        let moved = move_ttl opts.keep_ttl cur obj t in
        ap (get_expiry o) put_over
        ∙ ap (λ r. get r.m o) (notify_keeps opts.put_cmd k (place k obj moved)).1
        ∙ get_expiry-move_ttl opts.keep_ttl cur obj o t
        ∙ ap
            (λ r.
              if nat_beq cur o
              then none
              else if nat_beq obj o
              then kept_ttl opts.keep_ttl (get r.m cur) (get r.m o)
              else get r.m o)
            (touch_keeps now obj s).1

    -- Where a put replaces the object of a key, the size that GetDBSize returns grows by one, and the number of keys does not.
    pub put_helper-get_db_size :
        (get_db_size (put_helper strategy now opts k obj s) ≡ suc (get_db_size s) % 2 ^ 64)
        × (size (put_helper strategy now opts k obj s).store.m ≡ size s.store.m)
    unfolding place reg_put
    put_helper-get_db_size =
        let t = touch now obj s in
        let moved = move_ttl opts.keep_ttl cur obj t in
        let stored =
          ap (λ r. r.store) put_over
          ∙ (notify_keeps opts.put_cmd k (place k obj moved)).0
          ∙ ap (reg_put k obj)
              (move_ttl-store opts.keep_ttl cur obj t ∙ (touch_keeps now obj s).0) in
        (
          ap (λ r. r.count) stored,
          ap (λ r. size r.m) stored
              ∙ size-put s.store.m k obj
              ∙ ap (λ b. if b then size s.store.m else suc (size s.store.m))
                  (has-get s.store.m k ∙ ap is_some held),
        )
