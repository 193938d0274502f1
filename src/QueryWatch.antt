-- ===== src/QueryWatch.antt =====
-- internal/watchmanager/watch_manager.go: who watches which key by which command. Channels are
-- numbers, and a set is a map to the one value. The fingerprint of a command, a hash, is a parameter.
pub mod Consistent
pub mod Requests
pub mod Listen
mod Tests
use seven_db.Common.{
  ℕ, String, Bool, true, false, Option, none, some, List, [], ◌∷◌, ◌++◌, if◌then◌else◌, nat_beq,
}
use seven_db.Common.Comparable.{Comparable, ◌==◌, string_key, nat_key}
use seven_db.Common.GoMap.{GoMap, get, has, put, remove, size, keys, or_zero}

-- DiceDBCmd
pub record DiceDbCmd : Type 0 where
  pub cmd : String
  pub args : List String

-- DiceDBCmd.Key
abbrev pub first_arg : List String → String
first_arg [] = ""
first_arg (a ∷ rest) = a

abbrev pub key_of : DiceDbCmd → String
key_of cmd = first_arg cmd.args

-- Manager, with what was sent on the clients' channels
pub record Manager : Type 0 where
  pub query_subscriptions : GoMap String (GoMap ℕ Unit)
  pub tcp_subscriptions : GoMap ℕ (GoMap ℕ Unit)
  pub fingerprint_cmds : GoMap ℕ DiceDbCmd
  pub sent : List (ℕ × DiceDbCmd)

unfoldable pub new_manager : Manager
new_manager = record {
  query_subscriptions = [];
  tcp_subscriptions = [];
  fingerprint_cmds = [];
  sent = [];
}

module _ {K : Type 0} ⦃c : Comparable K⦄ where
  -- `x` joins the set at `k`
  unfoldable pub add_at : K → ℕ → GoMap K (GoMap ℕ Unit) → GoMap K (GoMap ℕ Unit)
  add_at k x m = put m k (put (or_zero [] (get m k)) x tt)

  -- the set at `k`, or no set if it is empty
  unfoldable pub put_set : K → GoMap ℕ Unit → GoMap K (GoMap ℕ Unit) → GoMap K (GoMap ℕ Unit)
  put_set k set_ m = if nat_beq (size set_) 0 then remove m k else put m k set_

  -- `x` leaves the set at `k`
  unfoldable pub drop_at : K → ℕ → GoMap K (GoMap ℕ Unit) → GoMap K (GoMap ℕ Unit)
  unfolding put_set
  drop_at k x m = elim (get m k) [ none ↦ m | some set_ ↦ put_set k (remove set_ x) m ]

unfoldable pub handle_subscription : (DiceDbCmd → ℕ) → ℕ → DiceDbCmd → Manager → Manager
handle_subscription fingerprint client cmd m = record {
  query_subscriptions = add_at (key_of cmd) (fingerprint cmd) m.query_subscriptions;
  tcp_subscriptions = add_at (fingerprint cmd) client m.tcp_subscriptions;
  fingerprint_cmds = put m.fingerprint_cmds (fingerprint cmd) cmd;
  sent = m.sent;
}

-- the end of handleUnsubscription, for a fingerprint without clients
unfoldable pub drop_command : ℕ → Manager → Manager
drop_command f m = elim (get m.fingerprint_cmds f) [
  | none ↦ m
  | some cmd ↦ record m {
    query_subscriptions = drop_at (key_of cmd) f m.query_subscriptions;
    fingerprint_cmds = remove m.fingerprint_cmds f;
  }
]

unfoldable pub handle_unsubscription : ℕ → ℕ → Manager → Manager
unfolding drop_command drop_at
handle_unsubscription client f m = elim (get m.tcp_subscriptions f) [
  | none ↦ drop_command f m
  | some clients ↦
      let left = record m { tcp_subscriptions = drop_at f client m.tcp_subscriptions } in
      if nat_beq (size (remove clients client)) 0 then drop_command f left else left
]

-- affectedCmdMap
abbrev pub affects : String → String → Bool
affects event watched =
    if event == "SET"
    then watched == "GET"
    else if event == "DEL"
    then watched == "GET"
    else if event == "RENAME"
    then watched == "GET"
    else if event == "ZADD"
    then watched == "ZRANGE"
    else if event == "PFADD"
    then watched == "PFCOUNT"
    else if event == "PFMERGE"
    then watched == "PFCOUNT"
    else false

-- notifyClients
unfoldable pub send_all : List ℕ → DiceDbCmd → Manager → Manager
send_all [] cmd m = m
send_all (c ∷ cs) cmd m = send_all cs cmd (record m { sent = m.sent ++ ((c, cmd) ∷ []) })

unfoldable pub notify_clients : ℕ → DiceDbCmd → Manager → Manager
unfolding send_all
notify_clients f cmd m = send_all (keys (or_zero [] (get m.tcp_subscriptions f))) cmd m

-- the loop over the fingerprints of the key; one without a command would be a nil pointer there
unfoldable pub notify_fingerprints : String → List ℕ → Manager → Manager
unfolding notify_clients
notify_fingerprints event [] m = m
notify_fingerprints event (f ∷ fs) m =
    notify_fingerprints event fs (elim (get m.fingerprint_cmds f) [
      | none ↦ m
      | some cmd ↦ if affects event cmd.cmd then notify_clients f cmd m else m
    ])

unfoldable pub handle_watch_event : String → String → Manager → Manager
unfolding notify_fingerprints
handle_watch_event event key m =
    notify_fingerprints event (keys (or_zero [] (get m.query_subscriptions key))) m
