-- ===== src/Harness/Network/Delivery.antt =====
-- Mailboxes under sends, receipts, partitions and their repair, in any sequence.
use mathlib.Core.List.{append-nil, append_assoc}
use seven_db.Common.{
  ◌≡◌, ◌≢◌, refl, sym, ap, ◌∙◌, not, Option, none, some, List, [], ◌∷◌, ◌++◌, ◌&&◌, arith,
  if◌then◌else◌, inl, inr, Bool-cases,
}
use seven_db.Common.Comparable.{◌==◌, string_key}
use seven_db.Common.GoMap.Laws.{get-put, get-remove, Values, put-Values, remove-Values}
use seven_db.Harness.Network.{
  NodeId, Message, Queued, SimulatedNetwork, mailbox, is_blocked, send, pop_head, recv_from, recv,
  drop_all, deliver_one, block, unblock, pair_key,
}
use text.Mathlib.TextEquality.{eq_iff}

-- a call of the network
pub data Call : Type 0 where
  call_send : NodeId → NodeId → Message → Call
  call_recv call_deliver_one call_drop_all : NodeId → Call
  call_block call_unblock : NodeId → NodeId → Call

unfoldable pub call : Call → SimulatedNetwork → SimulatedNetwork
call (call_send src dst msg) n = send src dst msg n
call (call_recv dst) n = (recv dst n).0
call (call_deliver_one dst) n = (deliver_one dst n).0
call (call_drop_all dst) n = drop_all dst n
call (call_block src dst) n = block src dst n
call (call_unblock src dst) n = unblock src dst n

abbrev pub to_list {ℓ} : {A : Type ℓ} → Option A → List A
to_list none = []
to_list (some a) = a ∷ []

module _ (dst : NodeId) where
  -- what the call adds to the mailbox of `dst`: a message to it over a link that is not blocked
  abbrev pub accepted : Call → SimulatedNetwork → List Queued
  accepted (call_send src d msg) n =
      if (d == dst) && not (is_blocked n src d) then record { from = src; msg = msg } ∷ [] else []
  accepted _ n = []

  -- what the call hands to `dst`
  abbrev pub received : Call → SimulatedNetwork → List Queued
  received (call_recv d) n = if d == dst then to_list (recv d n).1 else []
  received (call_deliver_one d) n = if d == dst then to_list (deliver_one d n).1 else []
  received _ n = []

  abbrev pub IsKept : Call → Type 0
  IsKept (call_drop_all d) = d ≢ dst
  IsKept _ = Unit

  mailbox-send :
      (src d : NodeId) (msg : Message) (n : SimulatedNetwork)
      → mailbox (send src d msg n) dst ≡ mailbox n dst ++ accepted (call_send src d msg) n
  unfolding send
  mailbox-send src d msg n = ground (
    arith,
    append-nil (mailbox n dst),
    eq_iff d dst,
    get-put n.mailboxes d (mailbox n d ++ (record { from = src; msg = msg } ∷ [])) dst,
  )

  mailbox-recv_from :
      (d : NodeId) (q : List Queued) (n : SimulatedNetwork)
      → mailbox n d ≡ q
      → (if d == dst then to_list (recv_from d q n).1 else []) ++ mailbox (recv_from d q n).0 dst
        ≡ mailbox n dst
  unfolding recv_from pop_head
  mailbox-recv_from d [] n e = ground (arith, eq_iff d dst)
  mailbox-recv_from d (x ∷ []) n e = ground (arith, eq_iff d dst, get-remove n.mailboxes d dst)
  mailbox-recv_from d (x ∷ (y ∷ q)) n e =
      ground (arith, eq_iff d dst, get-put n.mailboxes d (y ∷ q) dst)

  -- One call: what it hands over and then the mailbox is the mailbox before and what it adds.
  call-mailbox :
      (c : Call) (n : SimulatedNetwork)
      → IsKept c
      → received c n ++ mailbox (call c n) dst ≡ mailbox n dst ++ accepted c n
  unfolding call recv deliver_one drop_all block unblock
  call-mailbox (call_send src d msg) n k = mailbox-send src d msg n
  call-mailbox (call_recv d) n k =
      mailbox-recv_from d (mailbox n d) n refl ∙ sym (append-nil (mailbox n dst))
  call-mailbox (call_deliver_one d) n k =
      mailbox-recv_from d (mailbox n d) n refl ∙ sym (append-nil (mailbox n dst))
  call-mailbox (call_drop_all d) n k =
      ground (arith, eq_iff d dst, get-remove n.mailboxes d dst, append-nil (mailbox n dst))
  call-mailbox (call_block src d) n k = sym (append-nil (mailbox n dst))
  call-mailbox (call_unblock src d) n k = sym (append-nil (mailbox n dst))

  -- the same of a sequence of calls
  unfoldable pub calls : List Call → SimulatedNetwork → SimulatedNetwork
  calls [] n = n
  calls (c ∷ cs) n = calls cs (call c n)

  unfoldable pub all_accepted : List Call → SimulatedNetwork → List Queued
  all_accepted [] n = []
  all_accepted (c ∷ cs) n = accepted c n ++ all_accepted cs (call c n)

  unfoldable pub all_received : List Call → SimulatedNetwork → List Queued
  all_received [] n = []
  all_received (c ∷ cs) n = received c n ++ all_received cs (call c n)

  abbrev pub AllKept : List Call → Type 0
  AllKept [] = Unit
  AllKept (c ∷ cs) = IsKept c × AllKept cs

  -- Delivery is reliable and in order: over any sequence of calls that does not drop the mailbox of
  -- `dst`, what `dst` received, and then its mailbox, is its mailbox at the start and then the
  -- messages sent to it over links that were not blocked at that moment, in the order of the sends.
  pub calls-mailbox :
      (cs : List Call) (n : SimulatedNetwork)
      → AllKept cs
      → all_received cs n ++ mailbox (calls cs n) dst ≡ mailbox n dst ++ all_accepted cs n
  unfolding calls all_accepted all_received
  calls-mailbox [] n k = sym (append-nil (mailbox n dst))
  calls-mailbox (c ∷ cs) n k =
      append_assoc (received c n) (all_received cs (call c n)) (mailbox (calls cs (call c n)) dst)
      ∙ ap (λ q. received c n ++ q) (calls-mailbox cs (call c n) k.1)
      ∙ sym (append_assoc (received c n) (mailbox (call c n) dst) (all_accepted cs (call c n)))
      ∙ ap (λ q. q ++ all_accepted cs (call c n)) (call-mailbox c n k.0)
      ∙ append_assoc (mailbox n dst) (accepted c n) (all_accepted cs (call c n))

-- a mailbox that is kept holds a message
abbrev pub NonEmpty : List Queued → Type 0
NonEmpty q = q ≢ []

abbrev pub IsTrim : SimulatedNetwork → Type 0
IsTrim n = Values NonEmpty n.mailboxes

recv_from-IsTrim :
    (d : NodeId) (q : List Queued) (n : SimulatedNetwork) → IsTrim n → IsTrim (recv_from d q n).0
unfolding recv_from pop_head
recv_from-IsTrim d [] n h = h
recv_from-IsTrim d (x ∷ []) n h = remove-Values NonEmpty n.mailboxes d h
recv_from-IsTrim d (x ∷ (y ∷ q)) n h =
    put-Values NonEmpty n.mailboxes d (y ∷ q) (λ e. ground arith) h

snoc-NonEmpty : (q : List Queued) (x : Queued) → NonEmpty (q ++ (x ∷ []))
snoc-NonEmpty [] x e = ground arith
snoc-NonEmpty (y ∷ q) x e = ground arith

send-IsTrim :
    (src d : NodeId) (msg : Message) (n : SimulatedNetwork) → IsTrim n → IsTrim (send src d msg n)
unfolding send
send-IsTrim src d msg n h = elim (Bool-cases (is_blocked n src d)) [
  | inl shut ↦ rw shut h
  | inr free ↦ rw free (
      put-Values NonEmpty n.mailboxes d (mailbox n d ++ (record { from = src; msg = msg } ∷ []))
        (snoc-NonEmpty (mailbox n d) (record { from = src; msg = msg })) h)
]

-- No call leaves an empty mailbox behind in the map.
pub call-IsTrim : (c : Call) (n : SimulatedNetwork) → IsTrim n → IsTrim (call c n)
unfolding call recv deliver_one drop_all block unblock
call-IsTrim (call_send src d msg) n h = send-IsTrim src d msg n h
call-IsTrim (call_recv d) n h = recv_from-IsTrim d (mailbox n d) n h
call-IsTrim (call_deliver_one d) n h = recv_from-IsTrim d (mailbox n d) n h
call-IsTrim (call_drop_all d) n h = remove-Values NonEmpty n.mailboxes d h
call-IsTrim (call_block src d) n h = h
call-IsTrim (call_unblock src d) n h = h
