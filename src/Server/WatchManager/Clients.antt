-- ===== src/Server/WatchManager/Clients.antt =====
-- The nested maps as a relation between fingerprints and clients, and what the operations do to it.
use seven_db.Common.{
  ℕ, ◌≡◌, refl, ◌⊎◌, inl, inr, String, Bool, true, false, not, Option, none, some, List, [], ◌∷◌,
  if◌then◌else◌, ◌&&◌, ◌||◌, arith, Bool-cases, Option-cases,
}
use seven_db.Common.Comparable.{◌==◌, nat_key, string_key}
use seven_db.Common.GoMap.{GoMap, get, put, remove, size, keys, or_zero}
use seven_db.Common.GoMap.Laws.{get-put, get-remove, has-get}
use seven_db.Common.GoMap.Keys.{IsMap}
use seven_db.Common.Strconv.{format_uint}
use seven_db.Server.WatchManager.{
  Cmd, IoThread, Clients, WatchManager, clients_of, key_of, text_of, register, register_thread,
  drop_client, make_durable, handle_watch, remove_subscription, rebind_one, rebind_fps,
  rebind_client_for_key, cleanup_clients, replaced_by, cleanup_thread,
}
use text.Mathlib.TextEquality.{eq_iff}

-- the client is subscribed to the fingerprint
abbrev pub subscribes : WatchManager → ℕ → String → Bool
subscribes w fp client = or_zero false (get (clients_of w fp) client)

get-empty : (m : Clients) (c : String) → size m ≡ 0 → get m c ≡ none
unfolding get
get-empty [] c h = refl
get-empty (x ∷ m) c h = absurd (omega arith)

subscribes-register :
    (key : String) (fp : ℕ) (client : String) (c : Cmd) (w : WatchManager) (f : ℕ) (d : String)
    → subscribes (register key fp client c w) f d
      ≡ (if (fp == f) && (client == d) then true else subscribes w f d)
unfolding register
subscribes-register key fp client c w f d = ground (
  arith,
  get-put w.fp_client_map fp (put (clients_of w fp) client true) f,
  get-put (clients_of w fp) client true d,
  eq_iff client d,
)

pub stored-register :
    (key : String) (fp : ℕ) (client : String) (c : Cmd) (w : WatchManager)
    → get (register key fp client c w).fp_cmd_map fp ≡ some c
unfolding register
stored-register key fp client c w = ground (arith, get-put w.fp_cmd_map fp c fp)

subscribes-drop_client :
    (fp : ℕ) (client : String) (w : WatchManager) (f : ℕ) (d : String)
    → subscribes (drop_client fp client w) f d
      ≡ (if (fp == f) && (client == d) then false else subscribes w f d)
unfolding drop_client
subscribes-drop_client fp client w f d = ground (
  arith,
  get-put w.fp_client_map fp (remove (clients_of w fp) client) f,
  get-remove w.fp_client_map fp f,
  get-remove (clients_of w fp) client d,
  get-empty (remove (clients_of w fp) client) d,
  get-empty [] d refl,
  eq_iff client d,
)

subscribes-rebind_one :
    (old new : String) (fp : ℕ) (w : WatchManager) (f : ℕ) (d : String)
    → subscribes (rebind_one old new fp w) f d ≡ (
        if (fp == f) && subscribes w f old
        then (new == d) || (not (old == d) && subscribes w f d)
        else subscribes w f d)
unfolding rebind_one
subscribes-rebind_one old new fp w f d = ground (
  arith,
  get-put w.fp_client_map fp (put (remove (clients_of w fp) old) new true) f,
  get-put (remove (clients_of w fp) old) new true d,
  get-remove (clients_of w fp) old d,
  eq_iff old d,
  eq_iff new d,
)

get-cleanup_clients :
    (client : String) (m : GoMap ℕ Clients) (f : ℕ) (d : String)
    → IsMap m
    → or_zero false (get (or_zero [] (get (cleanup_clients client m) f)) d)
      ≡ (if client == d then false else or_zero false (get (or_zero [] (get m f)) d))
unfolding cleanup_clients get
get-cleanup_clients client [] f d h = ground arith
get-cleanup_clients client ((fp, cs) ∷ m) f d h = ground (
  arith,
  get-cleanup_clients client m f d h.1,
  get-remove cs client d,
  get-empty (remove cs client) d,
  has-get m fp,
  eq_iff client d,
)

unfoldable pub member : ℕ → List ℕ → Bool
member f [] = false
member f (fp ∷ fps) = let rest = member f fps in if fp == f then true else rest

-- the subscription of `d` to a fingerprint at which `old` gives way to `new`
abbrev pub handed_over : String → String → Bool → String → Bool
handed_over old new held d = (new == d) || (not (old == d) && held)

subscribes-rebind_fps :
    (old new : String) (fps : List ℕ) (w : WatchManager) (f : ℕ) (d : String)
    → subscribes (rebind_fps old new fps w) f d ≡ (
        if member f fps && subscribes w f old
        then handed_over old new (subscribes w f d) d
        else subscribes w f d)
unfolding rebind_fps member
subscribes-rebind_fps old new [] w f d = refl
subscribes-rebind_fps old new (fp ∷ fps) w f d = ground (
  arith,
  subscribes-rebind_fps old new fps (rebind_one old new fp w) f d,
  subscribes-rebind_one old new fp w f d,
  subscribes-rebind_one old new fp w f old,
  eq_iff old d,
  eq_iff new d,
  eq_iff new old,
)

-- the fingerprints that watch the key
abbrev pub watching : WatchManager → String → List ℕ
watching w key = keys (or_zero [] (get w.key_fp_map key))

-- RebindClientForKey replaces the old client by the new one at each fingerprint of the key to which
-- the old one was subscribed, and changes no other subscription.
pub subscribes-rebind_client_for_key :
    (key old new : String) (w : WatchManager) (f : ℕ) (d : String)
    → subscribes (rebind_client_for_key key old new w) f d ≡ (
        if member f (watching w key) && subscribes w f old
        then handed_over old new (subscribes w f d) d
        else subscribes w f d)
unfolding rebind_client_for_key
subscribes-rebind_client_for_key key old new w f d =
    subscribes-rebind_fps old new (watching w key) w f d

-- RemoveSubscription ends the subscription of the client to the fingerprint and no other, also where
-- it deletes the fingerprint.
pub subscribes-remove_subscription :
    (client : String) (fp : ℕ) (w : WatchManager) (f : ℕ) (d : String)
    → subscribes (remove_subscription client fp w) f d
      ≡ (if (fp == f) && (client == d) then false else subscribes w f d)
unfolding remove_subscription
subscribes-remove_subscription client fp w f d = subscribes-drop_client fp client w f d

-- Where the map of fingerprints has each key once, the cleanup of a thread ends all subscriptions of
-- its client and no other, unless another thread has taken the client over: then it changes nothing
-- and answers false.
pub subscribes-cleanup_thread :
    (t : IoThread) (w : WatchManager)
    → IsMap w.fp_client_map
    → (((cleanup_thread t w) ≡ (w, false))
        × (replaced_by t (get w.client_watch_thread_map t.client_id) ≡ true))
      ⊎ (((cleanup_thread t w).1 ≡ true)
          × ((f : ℕ) (d : String)
              → subscribes (cleanup_thread t w).0 f d
                ≡ (if t.client_id == d then false else subscribes w f d)))
unfolding cleanup_thread
subscribes-cleanup_thread t w h =
    elim (Bool-cases (replaced_by t (get w.client_watch_thread_map t.client_id))) [
      | inl gone ↦ inl (rw gone refl, gone)
      | inr own ↦
          inr (rw own refl, λ f d. rw own (get-cleanup_clients t.client_id w.fp_client_map f d h))
    ]

module _ (log : String → List String → Option String) (sync : Option String) (farm : String → ℕ)
    (c : Cmd) (t : IoThread) (w : WatchManager) where
  abbrev pub subscribe_args : List String
  subscribe_args = t.client_id ∷ text_of c ∷ format_uint (farm (text_of c)) ∷ []

  -- HandleWatch either makes its record durable and then subscribes the client to the fingerprint of
  -- the command, keeping every other subscription and storing the command, or it answers the error
  -- of the log and changes nothing.
  pub subscribes-handle_watch :
      ((e : String) × (make_durable log sync c.is_replay "SUBSCRIBE" subscribe_args ≡ some e)
        × (handle_watch log sync farm c t w ≡ (w, some e)))
      ⊎ ((make_durable log sync c.is_replay "SUBSCRIBE" subscribe_args ≡ none)
          × ((handle_watch log sync farm c t w).1 ≡ none)
          × (get (handle_watch log sync farm c t w).0.fp_cmd_map (farm (text_of c)) ≡ some c)
          × ((f : ℕ) (d : String)
              → subscribes (handle_watch log sync farm c t w).0 f d ≡ (
                  if (farm (text_of c) == f) && (t.client_id == d)
                  then true
                  else subscribes w f d)))
  unfolding handle_watch register_thread
  subscribes-handle_watch =
      elim (Option-cases (make_durable log sync c.is_replay "SUBSCRIBE" subscribe_args)) [
        | inl done ↦ inr (
          done,
          rw (done, handle_watch) refl,
          rw (done, handle_watch)
              (stored-register (key_of c.args) (farm (text_of c)) t.client_id c w),
          λ f d.
              rw (done, handle_watch)
                (subscribes-register (key_of c.args) (farm (text_of c)) t.client_id c w f d),
        )
        | inr (e, failed) ↦ inl (e, failed, rw (failed, handle_watch) refl)
      ]
