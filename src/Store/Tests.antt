-- ===== src/Store/Tests.antt =====
-- Runs of the store, and its theorems at concrete stores.
use seven_db.Common.{
  ℕ, ◌≡◌, refl, true, none, some, List, [], ◌∷◌, if◌then◌else◌, arith, nat_beq, leb, inr,
}
use seven_db.Common.Comparable.{string_key, nat_key}
use seven_db.Common.GoMap.{get, put, remove, size, has}
use seven_db.Store.{
  Store, Obj, EvictionStrategy, PutOptions, default_put_options, put_helper, rename, get_helper,
  delete_expired_keys, get_expiry, touch, evict, del, delete_key, remove_key, notify_watch_manager,
  make_room, before_put, place, count_key, reg_put, reg_delete, drop_source,
}
use seven_db.Store.Eviction.{
  EvictionItem, item_keys, choose, consider, push, primitive_strategy, should_evict_over,
  chosen_keys,
}
use seven_db.Store.Eviction.Least.{choose-IsDecided}
use seven_db.Store.Eviction.Heap.{Elem, AtMost}
use seven_db.Common.Lists.{length}
use seven_db.Common.{ltb, ◌⊎◌}
use seven_db.Store.Count.{IsCounted}
use seven_db.Store.Calls.{
  StoreCall, put_call, rename_call, del_call, store_calls, store_call, RenamesSpare,
  store_calls-IsCounted,
}
use seven_db.Store.Expiry.{IsUnshared}
use seven_db.Store.Sweep.{get-delete_expired_keys}
use seven_db.Store.Overwrite.{kept_ttl, put_helper-get_expiry}
use seven_db.Store.SetExpiry.{
  evaluate_and_set_expiry, settle, set_expiry_of, scan_options, add_option,
}
use seven_db.Store.SetExpiry.Verdict.{evaluate_and_set_expiry-verdict}
use text.Mathlib.TextEquality.{eq_iff}

abbrev object_at : ℕ → Obj ℕ
object_at t = record { value = 7; obj_type = 0; last_accessed_at = t }

-- the object 1 of "a" expires at 50, the object 2 of "b" does not, and the object 3 is new
abbrev shop : Store ℕ
shop = record {
  store = record { m = ("a", 1) ∷ ("b", 2) ∷ []; count = 2 };
  expires = record { m = (1, 50) ∷ []; count = 1 };
  num_keys = 2;
  objects = (1, object_at 5) ∷ (2, object_at 6) ∷ (3, object_at 7) ∷ [];
  next_object = 4;
  has_watch_chan = true;
  events = [];
}

abbrev no_eviction : EvictionStrategy ℕ
no_eviction = record { should_evict = λ s. 0; victims = λ s n. [] }

-- from two keys on "a" has to go
abbrev evict_a : EvictionStrategy ℕ
evict_a = record {
  should_evict = λ s. if leb 2 s.num_keys then 1 else 0;
  victims = λ s n. "a" ∷ [];
}

-- Rename to a new key evicts the source and counts it out twice: two keys, of which one is counted.
rename_runs :
    ((rename evict_a 9 "a" "c" shop).1.num_keys ≡ 1)
    × (size (rename evict_a 9 "a" "c" shop).1.store.m ≡ 2)
unfolding rename put_helper before_put make_room count_key evict del delete_key remove_key place
    drop_source notify_watch_manager touch reg_put reg_delete get put remove
rename_runs = (refl, refl)

abbrev keep : PutOptions
keep = record { keep_ttl = true; put_cmd = "SET" }

shop-IsCounted : IsCounted shop
unfolding has
shop-IsCounted = ((refl, (refl, tt)), refl)

-- at most three keys: the put of "d" evicts, and the call of Rename comes after the key is deleted
abbrev at_most_three : EvictionStrategy ℕ
at_most_three = primitive_strategy 3 2

abbrev evicting_calls : List (ℕ × StoreCall ℕ)
evicting_calls =
    (10, put_call default_put_options "c" 3)
    ∷ (11, put_call default_put_options "d" 3)
    ∷ (12, del_call "d")
    ∷ (13, rename_call "c" "e")
    ∷ []

evicting_calls-RenamesSpare : RenamesSpare at_most_three evicting_calls shop
unfolding store_call put_helper before_put make_room count_key evict del delete_key remove_key place
    notify_watch_manager touch reg_put reg_delete get put remove should_evict_over chosen_keys
    choose consider push
evicting_calls-RenamesSpare = (tt, (tt, (tt, ((λ obj held. ground (arith, held)), tt))))

store_calls-IsCounted_example : IsCounted (store_calls at_most_three evicting_calls shop)
store_calls-IsCounted_example =
    store_calls-IsCounted at_most_three evicting_calls shop evicting_calls-RenamesSpare
      shop-IsCounted

shop-IsUnshared : IsUnshared shop
unfolding get
shop-IsUnshared j k obj a b = ground (arith, eq_iff "a" j, eq_iff "b" j, eq_iff "a" k, eq_iff "b" k)

get-delete_expired_keys_example :
    get (delete_expired_keys 70 shop).store.m "a" ≡ (get_helper 70 true "a" shop).0
get-delete_expired_keys_example =
    get-delete_expired_keys 70 true "a" shop shop-IsCounted.0 shop-IsUnshared

a_held : get shop.store.m "a" ≡ some 1
unfolding get
a_held = refl

put_helper-get_expiry_example : get_expiry 3 (put_helper no_eviction 10 keep "a" 3 shop) ≡ (
    if nat_beq 1 3
    then none
    else if nat_beq 3 3
    then kept_ttl true (get_expiry 1 shop) (get_expiry 3 shop)
    else get_expiry 3 shop)
put_helper-get_expiry_example = put_helper-get_expiry no_eviction 10 keep "a" 3 1 shop a_held 3

a_seen : (get_helper 10 true "a" shop).0 ≡ some 1
unfolding get_helper get
a_seen = refl

evaluate_and_set_expiry-verdict_example :
    ((evaluate_and_set_expiry (λ c. c) 10 ("XX" ∷ "GT" ∷ []) 40 "a" shop).0 ≡ inr true)
    × ((j : ℕ)
        → get_expiry j (evaluate_and_set_expiry (λ c. c) 10 ("XX" ∷ "GT" ∷ []) 40 "a" shop).1
          ≡ (if nat_beq 1 j then some 40 else get_expiry j shop))
unfolding get
evaluate_and_set_expiry-verdict_example =
    evaluate_and_set_expiry-verdict (λ c. c) 10 "XX" ("GT" ∷ []) 40 "a" shop 1 a_seen

-- XX and GT with an earlier time: the expiry of 50 is set back to 40.
set_expiry_runs : (evaluate_and_set_expiry (λ c. c) 10 ("XX" ∷ "GT" ∷ []) 40 "a" shop).0 ≡ inr true
unfolding evaluate_and_set_expiry set_expiry_of scan_options add_option settle get_helper get
set_expiry_runs = refl

abbrev three : List EvictionItem
three =
    record { key = "a"; last_accessed = 5 }
    ∷ record { key = "b"; last_accessed = 9 }
    ∷ record { key = "c"; last_accessed = 3 }
    ∷ []

choose_runs : item_keys (choose 2 three []) ≡ "a" ∷ "c" ∷ []
unfolding choose consider push
choose_runs = refl

choose-IsDecided_example :
    (length (choose 2 three []) ≡ (if ltb 3 2 then 3 else 2))
    × ((z : EvictionItem) → Elem z (choose 2 three []) → Elem z three)
    × ((z : EvictionItem)
        → Elem z three
        → Elem z (choose 2 three []) ⊎ AtMost z.last_accessed (choose 2 three []))
choose-IsDecided_example = choose-IsDecided 2 three (omega arith)
