-- ===== src/Server/WatchManager.antt =====
-- internal/server/ironhawk/watch_manager.go: `WatchManager`, which keeps the subscriptions in memory:
-- the fingerprints of each key, the clients and the command of each fingerprint, and the thread of
-- each client. A thread is known by a number. Parameters are the fingerprint function of the farm
-- package and the write-ahead log, which answers nil or the text of an error.
pub mod Clients
pub mod Tidy
pub mod Replay
mod Tests
use Prim.Native.String.{◌++◌}
use seven_db.Common.{
  ℕ, String, Bool, true, false, not, Option, none, some, List, [], ◌∷◌, if◌then◌else◌, ◌&&◌,
  nat_beq,
}
use seven_db.Common.Comparable.{◌==◌, nat_key, string_key}
use seven_db.Common.GoMap.{GoMap, get, put, remove, size, keys, or_zero}
use seven_db.Common.Strconv.Fields.{fields, join}
use seven_db.Common.Strconv.{Parsed, parsed, syntax_error, range_error, parse_uint, format_uint}

-- cmd.Cmd, with the wire command in it: the fields that the watch manager reads
pub record Cmd : Type 0 where
  pub name : String
  pub args : List String
  pub is_replay : Bool

pub record IoThread : Type 0 where
  pub client_id : String
  pub id : ℕ

abbrev pub Clients : Type 0
Clients = GoMap String Bool

pub record WatchManager : Type 0 where
  pub client_watch_thread_map : GoMap String IoThread
  pub key_fp_map : GoMap String (GoMap ℕ Bool)
  pub fp_client_map : GoMap ℕ Clients
  pub fp_cmd_map : GoMap ℕ Cmd

-- NewWatchManager
abbrev pub new_watch_manager : WatchManager
new_watch_manager = record {
  client_watch_thread_map = [];
  key_fp_map = [];
  fp_client_map = [];
  fp_cmd_map = [];
}

-- (*Cmd).String
abbrev pub text_of : Cmd → String
text_of c = c.name ++ (" " ++ join c.args)

-- (*Cmd).Key
unfoldable pub key_of : List String → String
key_of [] = ""
key_of (k ∷ ks) = k

-- m.fpClientMap[fp], nil where there is none
abbrev pub clients_of : WatchManager → ℕ → Clients
clients_of w fp = or_zero [] (get w.fp_client_map fp)

-- w.keyFPMap[key][fp] = true; w.fpClientMap[fp][clientID] = true; w.fpCmdMap[fp] = c
unfoldable pub register : String → ℕ → String → Cmd → WatchManager → WatchManager
register key fp client c w = record w {
  key_fp_map = put w.key_fp_map key (put (or_zero [] (get w.key_fp_map key)) fp true);
  fp_client_map = put w.fp_client_map fp (put (clients_of w fp) client true);
  fp_cmd_map = put w.fp_cmd_map fp c;
}

-- RegisterThread
unfoldable pub register_thread : IoThread → WatchManager → WatchManager
register_thread t w = record w {
  client_watch_thread_map = put w.client_watch_thread_map t.client_id t;
}

-- delete(w.fpClientMap[fp], clientID), and the fingerprint with its command when it has no client
unfoldable pub drop_client : ℕ → String → WatchManager → WatchManager
drop_client fp client w =
    let left = remove (clients_of w fp) client in
    if nat_beq (size left) 0
    then record w { fp_client_map = remove w.fp_client_map fp; fp_cmd_map = remove w.fp_cmd_map fp }
    else record w { fp_client_map = put w.fp_client_map fp left }

-- the records that the log is asked to make durable, each by LogCommand and then Sync
module _ (log : String → List String → Option String) (sync : Option String) where
  -- the two calls, if the log is there and the command is no replay
  unfoldable pub make_durable : Bool → String → List String → Option String
  make_durable true name args = none
  make_durable false name args = elim (log name args) [ none ↦ sync | some e ↦ some e ]

  -- HandleWatch: the manager, and an error
  unfoldable pub handle_watch :
      (String → ℕ) → Cmd → IoThread → WatchManager → WatchManager × Option String
  handle_watch farm c t w =
      let fp = farm (text_of c) in
      elim (make_durable c.is_replay "SUBSCRIBE" (t.client_id ∷ text_of c ∷ format_uint fp ∷ [])) [
        | some e ↦ (w, some e)
        | none ↦ (register_thread t (register (key_of c.args) fp t.client_id c w), none)
      ]

  unfoldable pub unwatch_fp : Cmd → IoThread → Parsed → WatchManager → WatchManager × Option String
  unwatch_fp c t syntax_error w = (w, some "invalid syntax")
  unwatch_fp c t range_error w = (w, some "value out of range")
  unwatch_fp c t (parsed fp) w =
      elim (make_durable c.is_replay "UNSUBSCRIBE" (t.client_id ∷ format_uint fp ∷ [])) [
        | some e ↦ (w, some e)
        | none ↦ (drop_client fp t.client_id w, none)
      ]

  -- HandleUnwatch
  unfoldable pub handle_unwatch : Cmd → IoThread → WatchManager → WatchManager × Option String
  handle_unwatch c t w = elim c.args [
    | [] ↦ (w, none)
    | a ∷ rest ↦ elim rest [ [] ↦ unwatch_fp c t (parse_uint a) w | b ∷ more ↦ (w, none) ]
  ]

-- the parts of the command line; no part at all restores nothing
unfoldable pub restore_fields : String → List String → ℕ → WatchManager → WatchManager
restore_fields client [] fp w = w
restore_fields client (name ∷ args) fp w =
    register (key_of args) fp client (record { name = name; args = args; is_replay = true }) w

-- RestoreSubscription, with strings.FieldsFunc for text that is not ASCII
unfoldable pub restore_subscription :
    (String → List String) → String → String → ℕ → WatchManager → WatchManager
unfolding restore_fields
restore_subscription fields_func client command_str fp w =
    restore_fields client (fields fields_func command_str) fp w

-- RemoveSubscription
unfoldable pub remove_subscription : String → ℕ → WatchManager → WatchManager
unfolding drop_client
remove_subscription client fp w = drop_client fp client w

-- RebindClientForFP
unfoldable pub rebind_client_for_fp : ℕ → String → WatchManager → WatchManager
rebind_client_for_fp fp new_client w = record w {
  fp_client_map = put w.fp_client_map fp ((new_client, true) ∷ []);
}

-- one fingerprint in the loop of RebindClientForKey
unfoldable pub rebind_one : String → String → ℕ → WatchManager → WatchManager
rebind_one old new fp w =
    if or_zero false (get (clients_of w fp) old)
    then record w {
      fp_client_map = put w.fp_client_map fp (put (remove (clients_of w fp) old) new true);
    }
    else w

unfoldable pub rebind_fps : String → String → List ℕ → WatchManager → WatchManager
rebind_fps old new [] w = w
rebind_fps old new (fp ∷ fps) w = rebind_fps old new fps (rebind_one old new fp w)

-- RebindClientForKey
unfoldable pub rebind_client_for_key : String → String → String → WatchManager → WatchManager
rebind_client_for_key key old new w =
    rebind_fps old new (keys (or_zero [] (get w.key_fp_map key))) w

-- the loop of CleanupThreadWatchSubscriptions over the fingerprints
unfoldable pub cleanup_clients : String → GoMap ℕ Clients → GoMap ℕ Clients
cleanup_clients client [] = []
cleanup_clients client ((fp, cs) ∷ m) =
    let rest = cleanup_clients client m in
    let left = remove cs client in if nat_beq (size left) 0 then rest else (fp, left) ∷ rest

-- another thread has taken the client over
unfoldable pub replaced_by : IoThread → Option IoThread → Bool
replaced_by t none = false
replaced_by t (some existing) = not (nat_beq existing.id t.id)

-- CleanupThreadWatchSubscriptions
unfoldable pub cleanup_thread : IoThread → WatchManager → WatchManager × Bool
unfolding cleanup_clients
cleanup_thread t w =
    if replaced_by t (get w.client_watch_thread_map t.client_id) then (w, false) else (
      record w {
        client_watch_thread_map = remove w.client_watch_thread_map t.client_id;
        fp_client_map = cleanup_clients t.client_id w.fp_client_map;
      },
      true,
    )

-- the loop of GetFingerprintForClient
unfoldable pub find_fp : WatchManager → String → List ℕ → ℕ
find_fp w client [] = 0
find_fp w client (fp ∷ fps) =
    let rest = find_fp w client fps in
    if or_zero false (get (clients_of w fp) client) then fp else rest

-- GetFingerprintForClient
unfoldable pub get_fingerprint_for_client : String → String → WatchManager → ℕ
unfolding find_fp
get_fingerprint_for_client key client w =
    find_fp w client (keys (or_zero [] (get w.key_fp_map key)))
