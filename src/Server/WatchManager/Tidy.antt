-- ===== src/Server/WatchManager/Tidy.antt =====
-- Tidy maps: each fingerprint stands once, with at least one client.
use seven_db.Common.{
  ℕ, ◌≡◌, ◌≢◌, refl, String, Bool, true, false, List, [], ◌∷◌, nat_beq, arith, Bool-cases, inl, inr,
}
use seven_db.Common.Comparable.{nat_key, string_key}
use seven_db.Common.GoMap.{GoMap, get, has, put, remove, size}
use seven_db.Common.GoMap.Laws.{Values, put-Values, remove-Values}
use seven_db.Common.GoMap.Keys.{IsMap, put-IsMap, remove-IsMap}
use seven_db.Server.WatchManager.{
  Cmd, IoThread, Clients, WatchManager, clients_of, register, register_thread, drop_client,
  rebind_client_for_fp, rebind_one, rebind_fps, rebind_client_for_key, cleanup_clients, replaced_by,
  cleanup_thread,
}
use seven_db.Server.WatchManager.Clients.{subscribes, watching}

abbrev pub Filled : Clients → Type 0
Filled cs = size cs ≢ 0

pub record IsTidy (w : WatchManager) : Type 0 where
  pub once : IsMap w.fp_client_map
  pub filled : Values Filled w.fp_client_map

-- the operations that change who is subscribed
pub data Change : Type 0 where
  on_register : String → ℕ → String → Cmd → Change
  on_drop : ℕ → String → Change
  on_rebind_fp : ℕ → String → Change
  on_rebind_key : String → String → String → Change
  on_cleanup on_thread : IoThread → Change

unfoldable pub change : Change → WatchManager → WatchManager
change (on_register key fp client c) w = register key fp client c w
change (on_drop fp client) w = drop_client fp client w
change (on_rebind_fp fp client) w = rebind_client_for_fp fp client w
change (on_rebind_key key old new) w = rebind_client_for_key key old new w
change (on_cleanup t) w = (cleanup_thread t w).0
change (on_thread t) w = register_thread t w

put-Filled : (m : Clients) (c : String) (b : Bool) → Filled (put m c b)
unfolding put
put-Filled [] c b e = omega arith
put-Filled (x ∷ m) c b e = ground arith

has-cleanup_clients :
    (client : String) (m : GoMap ℕ Clients) (f : ℕ)
    → has m f ≡ false
    → has (cleanup_clients client m) f ≡ false
unfolding cleanup_clients has
has-cleanup_clients client [] f h = refl
has-cleanup_clients client ((fp, cs) ∷ m) f h = ground (arith, has-cleanup_clients client m f)

cleanup_clients-IsMap :
    (client : String) (m : GoMap ℕ Clients) → IsMap m → IsMap (cleanup_clients client m)
unfolding cleanup_clients
cleanup_clients-IsMap client [] h = tt
cleanup_clients-IsMap client ((fp, cs) ∷ m) h =
    elim (Bool-cases (nat_beq (size (remove cs client)) 0)) [
      | inl empty ↦ rw empty (cleanup_clients-IsMap client m h.1)
      | inr left ↦ rw left (has-cleanup_clients client m fp h.0, cleanup_clients-IsMap client m h.1)
    ]

cleanup_clients-Filled :
    (client : String) (m : GoMap ℕ Clients) → Values Filled (cleanup_clients client m)
unfolding cleanup_clients get
cleanup_clients-Filled client [] j x g = absurd (ground arith)
cleanup_clients-Filled client ((fp, cs) ∷ m) j x g =
    ground (arith, cleanup_clients-Filled client m j x)

register-IsTidy :
    (key : String) (fp : ℕ) (client : String) (c : Cmd) (w : WatchManager)
    → IsTidy w
    → IsTidy (register key fp client c w)
unfolding register
register-IsTidy key fp client c w h = record {
  once = put-IsMap w.fp_client_map fp (put (clients_of w fp) client true) h.once;
  filled =
      put-Values Filled w.fp_client_map fp (put (clients_of w fp) client true)
        (put-Filled (clients_of w fp) client true) h.filled;
}

drop_client-IsTidy :
    (fp : ℕ) (client : String) (w : WatchManager) → IsTidy w → IsTidy (drop_client fp client w)
unfolding drop_client
drop_client-IsTidy fp client w h =
    elim (Bool-cases (nat_beq (size (remove (clients_of w fp) client)) 0)) [
      | inl empty ↦
          rw (empty, drop_client)
            (record {
              once = remove-IsMap w.fp_client_map fp h.once;
              filled = remove-Values Filled w.fp_client_map fp h.filled;
            })
      | inr left ↦
          rw (left, drop_client)
            (record {
              once = put-IsMap w.fp_client_map fp (remove (clients_of w fp) client) h.once;
              filled =
                  put-Values Filled w.fp_client_map fp (remove (clients_of w fp) client)
                    (λ e. ground (arith, left)) h.filled;
            })
    ]

rebind_one-IsTidy :
    (old new : String) (fp : ℕ) (w : WatchManager) → IsTidy w → IsTidy (rebind_one old new fp w)
unfolding rebind_one
rebind_one-IsTidy old new fp w h = elim (Bool-cases (subscribes w fp old)) [
  | inl held ↦
      rw (held, rebind_one)
        (record {
          once = put-IsMap w.fp_client_map fp (put (remove (clients_of w fp) old) new true) h.once;
          filled =
              put-Values Filled w.fp_client_map fp (put (remove (clients_of w fp) old) new true)
                (put-Filled (remove (clients_of w fp) old) new true) h.filled;
        })
  | inr free ↦ rw (free, rebind_one) h
]

rebind_fps-IsTidy :
    (old new : String) (fps : List ℕ) (w : WatchManager)
    → IsTidy w
    → IsTidy (rebind_fps old new fps w)
unfolding rebind_fps
rebind_fps-IsTidy old new [] w h = h
rebind_fps-IsTidy old new (fp ∷ fps) w h =
    rebind_fps-IsTidy old new fps (rebind_one old new fp w) (rebind_one-IsTidy old new fp w h)

cleanup_thread-IsTidy : (t : IoThread) (w : WatchManager) → IsTidy w → IsTidy (cleanup_thread t w).0
unfolding cleanup_thread
cleanup_thread-IsTidy t w h =
    elim (Bool-cases (replaced_by t (get w.client_watch_thread_map t.client_id))) [
      | inl gone ↦ rw (gone, cleanup_thread) h
      | inr own ↦
          rw (own, cleanup_thread)
            (record {
              once = cleanup_clients-IsMap t.client_id w.fp_client_map h.once;
              filled = cleanup_clients-Filled t.client_id w.fp_client_map;
            })
    ]

-- Every operation that changes subscriptions keeps the map of fingerprints tidy: it holds each
-- fingerprint once, and none without a client.
pub change-IsTidy : (ch : Change) (w : WatchManager) → IsTidy w → IsTidy (change ch w)
unfolding change rebind_client_for_fp rebind_client_for_key register_thread
change-IsTidy (on_register key fp client c) w h = register-IsTidy key fp client c w h
change-IsTidy (on_drop fp client) w h = drop_client-IsTidy fp client w h
change-IsTidy (on_rebind_fp fp client) w h = record {
  once = put-IsMap w.fp_client_map fp ((client, true) ∷ []) h.once;
  filled = put-Values Filled w.fp_client_map fp ((client, true) ∷ []) (λ e. omega arith) h.filled;
}
change-IsTidy (on_rebind_key key old new) w h = rebind_fps-IsTidy old new (watching w key) w h
change-IsTidy (on_cleanup t) w h = cleanup_thread-IsTidy t w h
change-IsTidy (on_thread t) w h = record { once = h.once; filled = h.filled }
