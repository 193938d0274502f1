-- ===== src/Server/WatchManager/Replay.antt =====
-- The replay of a logged subscription, against the subscription itself.
use seven_db.Common.{true, ℕ, ◌≡◌, refl, ap, String, Option, none, some, List}
use seven_db.Common.Comparable.{nat_key}
use seven_db.Common.GoMap.{get}
use seven_db.Common.Strconv.Fields.{IsWord, AllWords, is_ascii, all_ascii, fields-space}
use seven_db.Server.WatchManager.{
  Cmd, IoThread, WatchManager, text_of, key_of, register, register_thread, make_durable,
  handle_watch, restore_fields, restore_subscription,
}
use seven_db.Server.WatchManager.Clients.{subscribe_args, stored-register}

-- the command as the replay rebuilds it
abbrev pub replayed : Cmd → Cmd
replayed c = record { name = c.name; args = c.args; is_replay = true }

restore_subscription-text_of :
    (fields_func : String → List String) (client : String) (c : Cmd) (fp : ℕ) (w : WatchManager)
    → IsWord c.name
    → AllWords c.args
    → is_ascii c.name ≡ true
    → all_ascii c.args ≡ true
    → restore_subscription fields_func client (text_of c) fp w
      ≡ register (key_of c.args) fp client (replayed c) w
unfolding restore_subscription restore_fields
restore_subscription-text_of fields_func client c fp w name args name_ascii args_ascii =
    ap (λ ws. restore_fields client ws fp w)
      (fields-space fields_func c.name c.args name args name_ascii args_ascii)

module _ (fields_func : String → List String) (log : String → List String → Option String)
    (sync : Option String) (farm : String → ℕ) (c : Cmd) (t : IoThread) (w : WatchManager) where
  -- If the name and the arguments of a command are ASCII words without spaces, then replaying the record
  -- that a successful HandleWatch logs (the client, the text of the command and its fingerprint)
  -- gives the same maps of fingerprints and of clients as HandleWatch gives, and stores the command
  -- marked as replayed.
  pub restore_subscription-handle_watch :
      IsWord c.name
      → AllWords c.args
      → is_ascii c.name ≡ true
      → all_ascii c.args ≡ true
      → make_durable log sync c.is_replay "SUBSCRIBE" (subscribe_args log sync farm c t w) ≡ none
      → ((restore_subscription fields_func t.client_id (text_of c) (farm (text_of c)) w).key_fp_map
          ≡ (handle_watch log sync farm c t w).0.key_fp_map)
        × ((restore_subscription fields_func t.client_id
              (text_of c)
              (farm (text_of c))
              w).fp_client_map
            ≡ (handle_watch log sync farm c t w).0.fp_client_map)
        × (get
              (restore_subscription fields_func t.client_id
                (text_of c)
                (farm (text_of c))
                w).fp_cmd_map
              (farm (text_of c))
            ≡ some (replayed c))
  unfolding handle_watch register_thread register
  restore_subscription-handle_watch name args name_ascii args_ascii logged =
      rw
        (
          restore_subscription-text_of fields_func t.client_id c (farm (text_of c)) w name args
              name_ascii args_ascii,
          logged,
          handle_watch,
        )
        (refl, refl, stored-register (key_of c.args) (farm (text_of c)) t.client_id (replayed c) w)
