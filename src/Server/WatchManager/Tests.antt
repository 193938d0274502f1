-- ===== src/Server/WatchManager/Tests.antt =====
-- The theorems on the watch manager at concrete inputs, and runs of the code.
use seven_db.Common.{◌≡◌, refl, String, true, false, Option, none, some, List, [], ◌∷◌, arith}
use seven_db.Common.Comparable.{nat_key, string_key}
use seven_db.Common.GoMap.{get, put, remove}
use seven_db.Server.WatchManager.{
  Cmd, IoThread, WatchManager, new_watch_manager, register, handle_watch, make_durable,
  remove_subscription, drop_client, rebind_client_for_key, rebind_fps, rebind_one,
  get_fingerprint_for_client,
}
use seven_db.Server.WatchManager.{restore_subscription, text_of}
use seven_db.Common.Strconv.Fields.{no_space, is_ascii, all_ascii}
use seven_db.Server.WatchManager.Replay.{replayed, restore_subscription-handle_watch}
use seven_db.Server.WatchManager.Clients.{subscribes}
use seven_db.Server.WatchManager.Tidy.{IsTidy, on_drop, on_register, change, change-IsTidy}

abbrev command : Cmd
command = record { name = "GET"; args = "k" ∷ []; is_replay = false }

abbrev thread : IoThread
thread = record { client_id = "a"; id = 1 }

-- text that is not ASCII has no words
abbrev no_words : String → List String
no_words s = []

-- clients a and b at the fingerprint 7 of the key k
abbrev watched : WatchManager
watched = register "k" 7 "b" command (register "k" 7 "a" command new_watch_manager)

abbrev log_all : String → List String → Option String
log_all name args = none

watch_runs :
    ((handle_watch log_all none (λ s. 7) command thread new_watch_manager).1 ≡ none)
    × (subscribes (remove_subscription "a" 7 watched) 7 "a" ≡ false)
    × (subscribes (remove_subscription "a" 7 watched) 7 "b" ≡ true)
    × (get_fingerprint_for_client "k" "c" (rebind_client_for_key "k" "a" "c" watched) ≡ 7)
unfolding handle_watch make_durable remove_subscription drop_client register get put remove
    rebind_client_for_key rebind_fps rebind_one get_fingerprint_for_client
watch_runs = (refl, refl, refl, refl)

new-IsTidy : IsTidy new_watch_manager
unfolding get
new-IsTidy = record { once = tt; filled = λ j x g. ground arith }

watched-IsTidy : IsTidy watched
unfolding change
watched-IsTidy =
    change-IsTidy (on_register "k" 7 "b" command) (register "k" 7 "a" command new_watch_manager)
      (change-IsTidy (on_register "k" 7 "a" command) new_watch_manager new-IsTidy)

change-IsTidy_example : IsTidy (change (on_drop 7 "a") watched)
change-IsTidy_example = change-IsTidy (on_drop 7 "a") watched watched-IsTidy

restore_subscription-handle_watch_example :
    ((restore_subscription no_words "a" (text_of command) 7 new_watch_manager).key_fp_map
      ≡ (handle_watch log_all none (λ s. 7) command thread new_watch_manager).0.key_fp_map)
    × ((restore_subscription no_words "a" (text_of command) 7 new_watch_manager).fp_client_map
        ≡ (handle_watch log_all none (λ s. 7) command thread new_watch_manager).0.fp_client_map)
    × (get (restore_subscription no_words "a" (text_of command) 7 new_watch_manager).fp_cmd_map 7
        ≡ some (replayed command))
unfolding no_space make_durable is_ascii all_ascii
restore_subscription-handle_watch_example =
    restore_subscription-handle_watch no_words log_all none (λ s. 7) command thread
      new_watch_manager refl (refl, tt) refl refl refl
