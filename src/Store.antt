-- ===== src/Store.antt =====
-- internal/store/store.go and expire.go, over internal/common/regmap.go. An object is a number, the
-- pointer to it; its value is a parameter. Times are milliseconds and not negative; the clock is an
-- argument. An eviction strategy says how many keys to evict and which, and evicts them by Del.
pub mod Count
pub mod Calls
pub mod Expiry
pub mod Sweep
pub mod Overwrite
pub mod SetExpiry
pub mod Eviction
mod Tests
use seven_db.Common.{
  ℕ, suc, ◌+◌, ◌%◌, ◌^◌, String, Bool, true, false, Option, none, some, List, [], ◌∷◌, ◌++◌, ◌&&◌,
  ◌||◌, not, if◌then◌else◌, ltb, leb,
}
use seven_db.Common.Comparable.{Comparable, ◌==◌, string_key, nat_key}
use seven_db.Common.GoMap.{GoMap, get, has, put, remove, or_zero}

-- RegMap, its count as an int64 in 64 bits
pub record RegMap (K : Type 0) (V : Type 0) : Type 0 where
  pub m : GoMap K V
  pub count : ℕ

abbrev pub plus_one : ℕ → ℕ
plus_one n = suc n % 2 ^ 64

abbrev pub minus_one : ℕ → ℕ
minus_one n = (n + 18446744073709551615) % 2 ^ 64

-- Obj
pub record Obj (V : Type 0) : Type 0 where
  pub value : V
  pub obj_type : ℕ
  pub last_accessed_at : ℕ

-- CmdWatchEvent
pub record CmdWatchEvent : Type 0 where
  pub cmd : String
  pub affected_key : String

-- Store, with the objects behind the pointers and what was sent on the channel, if there is one
pub record Store (V : Type 0) : Type 0 where
  pub store : RegMap String ℕ
  pub expires : RegMap ℕ ℕ
  pub num_keys : ℕ
  pub objects : GoMap ℕ (Obj V)
  pub next_object : ℕ
  pub has_watch_chan : Bool
  pub events : List CmdWatchEvent

pub record EvictionStrategy (V : Type 0) : Type 0 where
  pub should_evict : Store V → ℕ
  pub victims : Store V → ℕ → List String

-- PutOptions
pub record PutOptions : Type 0 where
  pub keep_ttl : Bool
  pub put_cmd : String

abbrev pub default_put_options : PutOptions
default_put_options = record { keep_ttl = false; put_cmd = "SET" }

module _ {K V : Type 0} ⦃key : Comparable K⦄ where
  unfoldable pub reg_put : K → V → RegMap K V → RegMap K V
  reg_put k v t = record { m = put t.m k v; count = plus_one t.count }

  unfoldable pub reg_delete : K → RegMap K V → RegMap K V
  reg_delete k t = record { m = remove t.m k; count = minus_one t.count }

abbrev pub expired_by : ℕ → Option ℕ → Bool
expired_by now none = false
expired_by now (some exp) = leb exp now

module _ {V : Type 0} where
  unfoldable pub reset_store : Store V → Store V
  reset_store s = record s {
    num_keys = 0;
    store = record { m = []; count = 0 };
    expires = record { m = []; count = 0 };
  }

  unfoldable pub notify_watch_manager : String → String → Store V → Store V
  notify_watch_manager c k s =
      if s.has_watch_chan
      then record s { events = s.events ++ (record { cmd = c; affected_key = k } ∷ []) }
      else s

  unfoldable pub set_unix_time_expiry : ℕ → ℕ → Store V → Store V
  set_unix_time_expiry obj t s = record s { expires = reg_put obj t s.expires }

  unfoldable pub set_expiry : ℕ → ℕ → ℕ → Store V → Store V
  unfolding set_unix_time_expiry
  set_expiry now obj ms s = set_unix_time_expiry obj (now + ms) s

  unfoldable pub del_expiry : ℕ → Store V → Store V
  del_expiry obj s = record s { expires = reg_delete obj s.expires }

  abbrev pub get_expiry : ℕ → Store V → Option ℕ
  get_expiry obj s = get s.expires.m obj

  unfoldable pub allocate : ℕ → V → ℕ → Store V → Store V
  allocate now v t s = record s {
    next_object = suc s.next_object;
    objects =
        put s.objects s.next_object (record { value = v; obj_type = t; last_accessed_at = now });
  }

  -- NewObj; no duration stands for a negative one
  unfoldable pub new_obj : ℕ → V → Option ℕ → ℕ → Store V → ℕ × Store V
  unfolding set_expiry allocate
  new_obj now v none t s = (s.next_object, allocate now v t s)
  new_obj now v (some ms) t s =
      (s.next_object, set_expiry now s.next_object ms (allocate now v t s))

  -- obj.LastAccessedAt = now
  unfoldable pub touch : ℕ → ℕ → Store V → Store V
  touch now obj s = elim (get s.objects obj) [
    | none ↦ s
    | some o ↦ record s { objects = put s.objects obj (record o { last_accessed_at = now }) }
  ]

  abbrev pub has_expired : ℕ → ℕ → Store V → Bool
  has_expired now obj s = expired_by now (get_expiry obj s)

  -- the key and the expiry of its object leave the maps
  unfoldable pub remove_key : String → ℕ → Store V → Store V
  remove_key k obj s = record s {
    store = reg_delete k s.store;
    expires = reg_delete obj s.expires;
    num_keys = minus_one s.num_keys;
  }

  unfoldable pub delete_key : String → String → ℕ → Store V → Store V
  unfolding remove_key
  delete_key c k obj s = notify_watch_manager c k (remove_key k obj s)

  unfoldable pub del : String → String → Store V → Bool × Store V
  unfolding delete_key
  del c k s = elim (get s.store.m k) [ none ↦ (false, s) | some obj ↦ (true, delete_key c k obj s) ]

  -- EvictVictims, of the keys chosen
  unfoldable pub evict : List String → Store V → Store V
  unfolding del
  evict [] s = s
  evict (k ∷ ks) s = evict ks (del "EVICT" k s).1

  -- putHelper where the key has an object
  unfoldable pub move_ttl : Bool → ℕ → ℕ → Store V → Store V
  unfolding del_expiry set_unix_time_expiry
  move_ttl keep cur obj s = elim (get_expiry cur s) [
    | none ↦ del_expiry cur s
    | some v ↦ del_expiry cur (if keep && ltb 0 v then set_unix_time_expiry obj v s else s)
  ]

  unfoldable pub count_key : Store V → Store V
  count_key s = record s { num_keys = plus_one s.num_keys }

  unfoldable pub place : String → ℕ → Store V → Store V
  place k obj s = record s { store = reg_put k obj s.store }

  -- the end of Rename
  unfoldable pub drop_source : String → Store V → Store V
  drop_source src s = record s { store = reg_delete src s.store; num_keys = minus_one s.num_keys }

  module _ (strategy : EvictionStrategy V) where
    -- putHelper where the key is new
    unfoldable pub make_room : Store V → Store V
    unfolding count_key
    make_room s =
        let n = strategy.should_evict s in
        count_key (if ltb 0 n then evict (strategy.victims s n) s else s)

    unfoldable pub before_put : PutOptions → Option ℕ → ℕ → Store V → Store V
    unfolding make_room
    before_put opts none obj s = make_room s
    before_put opts (some cur) obj s = move_ttl opts.keep_ttl cur obj s

    unfoldable pub put_helper : ℕ → PutOptions → String → ℕ → Store V → Store V
    unfolding before_put place
    put_helper now opts k obj s =
        let touched = touch now obj s in
        notify_watch_manager opts.put_cmd k
          (place k obj (before_put opts (get touched.store.m k) obj touched))

    unfoldable pub put_all : ℕ → List (String × ℕ) → Store V → Store V
    unfolding put_helper
    put_all now [] s = s
    put_all now ((k, obj) ∷ data_) s =
        put_all now data_ (put_helper now default_put_options k obj s)

    unfoldable pub rename : ℕ → String → String → Store V → Bool × Store V
    unfolding put_helper drop_source
    rename now src dst s = if src == dst then (true, s) else elim (get s.store.m src) [
      | none ↦ (false, s)
      | some obj ↦
          if has_expired now obj s
          then (false, delete_key "RENAME" src obj s)
          else let placed = put_helper now default_put_options dst obj s in
            (true, notify_watch_manager "RENAME" src (drop_source src placed))
    ]

  unfoldable pub get_helper : ℕ → Bool → String → Store V → Option ℕ × Store V
  unfolding touch
  get_helper now touches k s = elim (get s.store.m k) [
    | none ↦ (none, s)
    | some obj ↦
        if has_expired now obj s
        then (none, delete_key "DEL" k obj s)
        else (some obj, if touches then touch now obj s else s)
  ]

  unfoldable pub get_all : ℕ → List String → Store V → List (Option ℕ) × Store V
  unfolding get_helper
  get_all now [] s = ([], s)
  get_all now (k ∷ ks) s =
      let first = get_helper now true k s in
      let rest = get_all now ks first.1 in (first.0 ∷ rest.0, rest.1)

  unfoldable pub get_del : ℕ → String → Store V → Option ℕ × Store V
  get_del now k s = elim (get s.store.m k) [
    | none ↦ (none, s)
    | some obj ↦ (if has_expired now obj s then none else some obj, delete_key "DEL" k obj s)
  ]

  abbrev pub get_db_size : Store V → ℕ
  get_db_size s = s.store.count

  abbrev pub get_key_count : Store V → ℕ
  get_key_count s = s.num_keys

  -- deleteAllExpiredKeys, over the entries of the map
  unfoldable pub delete_expired : ℕ → GoMap String ℕ → Store V → Store V
  unfolding del
  delete_expired now [] s = s
  delete_expired now ((k, obj) ∷ m) s =
      delete_expired now m (if has_expired now obj s then (del "DEL" k s).1 else s)

  unfoldable pub delete_expired_keys : ℕ → Store V → Store V
  unfolding delete_expired
  delete_expired_keys now s = delete_expired now s.store.m s
