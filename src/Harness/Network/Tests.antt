-- ===== src/Harness/Network/Tests.antt =====
-- The theorems on the network at concrete inputs, and runs of the code.
use seven_db.Common.{◌≡◌, refl, List, [], ◌∷◌, ◌++◌}
use seven_db.Common.Comparable.{string_key}
use seven_db.Common.GoMap.{get, put, remove}
use seven_db.Harness.Network.{
  new_simulated_network, mailbox, mailbox_size, pair_key, send, recv, recv_from, pop_head, block,
  unblock, deliver_one,
}
use seven_db.Harness.Network.Delivery.{
  Call, call_send, call_recv, call_block, call_unblock, call_deliver_one, call, calls, all_accepted,
  all_received, calls-mailbox,
}

abbrev script : List Call
script =
    call_send "a" "b" (1 ∷ [])
    ∷ call_block "a" "b"
    ∷ call_send "a" "b" (2 ∷ [])
    ∷ call_send "c" "b" (3 ∷ [])
    ∷ call_recv "b"
    ∷ call_unblock "a" "b"
    ∷ call_send "a" "b" (4 ∷ [])
    ∷ call_deliver_one "b"
    ∷ []

script_runs :
    (all_received "b" script new_simulated_network
      ≡ record { from = "a"; msg = 1 ∷ [] } ∷ record { from = "c"; msg = 3 ∷ [] } ∷ [])
    × (mailbox_size "b" (calls "b" script new_simulated_network) ≡ 1)
unfolding all_received calls call send recv deliver_one recv_from pop_head block unblock get put
    remove mailbox_size
script_runs = (refl, refl)

calls-mailbox_example :
    all_received "b" script new_simulated_network
      ++ mailbox (calls "b" script new_simulated_network) "b"
    ≡ mailbox new_simulated_network "b" ++ all_accepted "b" script new_simulated_network
calls-mailbox_example =
    calls-mailbox "b" script new_simulated_network
      (tt, (tt, (tt, (tt, (tt, (tt, (tt, (tt, tt))))))))
