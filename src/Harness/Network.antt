-- ===== src/Harness/Network.antt =====
-- internal/harness/network/network.go: `SimulatedNetwork`, an in-memory message bus. A node id and a
-- message are a string and a list of bytes; a message is copied by `Send`, so it is a value here.
pub mod Delivery
mod Tests
use seven_db.Common.{
  ℕ, ◌≡◌, ◌↔◌, String, Bool, true, false, Option, none, some, List, [], ◌∷◌, ◌++◌, ◌&&◌, arith,
  if◌then◌else◌,
}
use seven_db.Common.Comparable.{Comparable, ◌==◌, string_key}
use seven_db.Common.GoMap.{GoMap, get, put, remove, or_zero}
use seven_db.Common.Lists.{length}
use text.Mathlib.TextEquality.{eq_iff}

abbrev pub NodeId : Type 0
NodeId = String

abbrev pub Message : Type 0
Message = List ℕ

pub record Queued : Type 0 where
  pub from : NodeId
  pub msg : Message

pub pair_equal_iff : (a b : NodeId × NodeId) → (((a.0 == b.0) && (a.1 == b.1)) ≡ true) ↔ (a ≡ b)
pair_equal_iff a b = ground (arith, eq_iff a.0 b.0, eq_iff a.1 b.1)

-- [2]NodeID{src, dst} as a key
instance abbrev pub pair_key : Comparable (NodeId × NodeId)
pair_key = record { equal = λ a b. (a.0 == b.0) && (a.1 == b.1); equal_iff = pair_equal_iff }

pub record SimulatedNetwork : Type 0 where
  pub mailboxes : GoMap NodeId (List Queued)
  pub blocked : GoMap (NodeId × NodeId) Bool

-- NewSimulatedNetwork
abbrev pub new_simulated_network : SimulatedNetwork
new_simulated_network = record { mailboxes = []; blocked = [] }

-- n.mailboxes[dst], nil where there is none
abbrev pub mailbox : SimulatedNetwork → NodeId → List Queued
mailbox n dst = or_zero [] (get n.mailboxes dst)

-- n.blocked[[2]NodeID{src, dst}]
abbrev pub is_blocked : SimulatedNetwork → NodeId → NodeId → Bool
is_blocked n src dst = or_zero false (get n.blocked (src, dst))

-- Send
unfoldable pub send : NodeId → NodeId → Message → SimulatedNetwork → SimulatedNetwork
send src dst msg n = if is_blocked n src dst then n else record n {
  mailboxes = put n.mailboxes dst (mailbox n dst ++ (record { from = src; msg = msg } ∷ []));
}

-- what is left of a mailbox whose head is popped: an emptied one is deleted
unfoldable pub pop_head : NodeId → List Queued → SimulatedNetwork → SimulatedNetwork
pop_head dst [] n = record n { mailboxes = remove n.mailboxes dst }
pop_head dst (q ∷ qs) n = record n { mailboxes = put n.mailboxes dst (q ∷ qs) }

unfoldable pub recv_from :
    NodeId → List Queued → SimulatedNetwork → SimulatedNetwork × Option Queued
recv_from dst [] n = (n, none)
recv_from dst (q ∷ qs) n = (pop_head dst qs n, some q)

-- Recv
unfoldable pub recv : NodeId → SimulatedNetwork → SimulatedNetwork × Option Queued
recv dst n = recv_from dst (mailbox n dst) n

-- DropAll
unfoldable pub drop_all : NodeId → SimulatedNetwork → SimulatedNetwork
drop_all dst n = record n { mailboxes = remove n.mailboxes dst }

-- DeliverOne
unfoldable pub deliver_one : NodeId → SimulatedNetwork → SimulatedNetwork × Option Queued
deliver_one dst n = recv_from dst (mailbox n dst) n

-- MailboxSize
unfoldable pub mailbox_size : NodeId → SimulatedNetwork → ℕ
mailbox_size dst n = length (mailbox n dst)

-- Block
unfoldable pub block : NodeId → NodeId → SimulatedNetwork → SimulatedNetwork
block src dst n = record n { blocked = put n.blocked (src, dst) true }

-- Unblock
unfoldable pub unblock : NodeId → NodeId → SimulatedNetwork → SimulatedNetwork
unblock src dst n = record n { blocked = remove n.blocked (src, dst) }
