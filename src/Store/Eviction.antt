-- ===== src/Store/Eviction.antt =====
-- internal/store/batchevictionlru.go. The max-heap of container/heap is the list of its items from the
-- greatest to the least. The target of the eviction, computed in floating point, is a parameter.
pub mod Heap
pub mod Least
use seven_db.Common.{
  ℕ, zero, suc, ◌+◌, ◌-◌, ◌≡◌, ◌≤◌, ◌<◌, refl, sym, ap, ◌∙◌, String, Bool, true, false, Option,
  none, some, List, [], ◌∷◌, if◌then◌else◌, ltb, leb, arith, ◌⊎◌, inl, inr, Bool-cases,
}
use seven_db.Common.Comparable.{string_key, nat_key}
use seven_db.Common.GoMap.{GoMap, get}
use seven_db.Common.Lists.{length, All}
use seven_db.Store.{Store, Obj, EvictionStrategy}

-- evictionItem
pub record EvictionItem : Type 0 where
  pub key : String
  pub last_accessed : ℕ

-- push
unfoldable pub push : EvictionItem → List EvictionItem → List EvictionItem
push x [] = x ∷ []
push x (h ∷ hs) =
    let rest = push x hs in if ltb h.last_accessed x.last_accessed then x ∷ h ∷ hs else h ∷ rest

-- a turn of the loop over the store, with h[0] and pop at the head of a heap that is full
unfoldable pub consider : ℕ → EvictionItem → List EvictionItem → List EvictionItem
unfolding push
consider n x [] = push x []
consider n x (h ∷ hs) =
    if ltb (length (h ∷ hs)) n
    then push x (h ∷ hs)
    else if ltb x.last_accessed h.last_accessed
    then push x hs
    else h ∷ hs

unfoldable pub choose : ℕ → List EvictionItem → List EvictionItem → List EvictionItem
unfolding consider
choose n [] heap = heap
choose n (x ∷ xs) heap = choose n xs (consider n x heap)

abbrev pub item_keys : List EvictionItem → List String
item_keys [] = []
item_keys (x ∷ xs) = x.key ∷ item_keys xs

module _ {V : Type 0} where
  abbrev pub accessed : Option (Obj V) → ℕ
  accessed none = 0
  accessed (some o) = o.last_accessed_at

  abbrev pub items : GoMap ℕ (Obj V) → GoMap String ℕ → List EvictionItem
  items objects [] = []
  items objects ((k, obj) ∷ m) =
      record { key = k; last_accessed = accessed (get objects obj) } ∷ items objects m

  -- the keys that EvictVictims deletes, in the order of pop
  unfoldable pub chosen_keys : Store V → ℕ → List String
  unfolding choose
  chosen_keys s zero = []
  chosen_keys s (suc n) = item_keys (choose (suc n) (items s.objects s.store.m) [])

  -- ShouldEvict
  unfoldable pub should_evict_over : ℕ → ℕ → Store V → ℕ
  should_evict_over max_keys target s =
      if ltb s.num_keys max_keys
      then 0
      else if ltb (s.num_keys - target) 1
      then 1
      else s.num_keys - target

  -- PrimitiveEvictionStrategy
  abbrev pub primitive_strategy : ℕ → ℕ → EvictionStrategy V
  primitive_strategy max_keys target = record {
    should_evict = should_evict_over max_keys target;
    victims = chosen_keys;
  }
