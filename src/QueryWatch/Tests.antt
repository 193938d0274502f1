-- ===== src/QueryWatch/Tests.antt =====
-- Runs of the watch manager, and its theorems at concrete requests.
use seven_db.Common.{
  ℕ, ◌≡◌, ◌≢◌, refl, ap, sym, ◌∙◌, String, List, [], ◌∷◌, if◌then◌else◌, arith, ◌⊎◌, inl, inr,
}
use seven_db.Common.Comparable.{◌==◌, string_key, nat_key}
use seven_db.Common.GoMap.{get, put, remove}
use seven_db.QueryWatch.{
  DiceDbCmd, key_of, new_manager, handle_subscription, handle_unsubscription, handle_watch_event,
  add_at, drop_at, put_set, drop_command, notify_fingerprints, notify_clients, send_all,
}
use seven_db.QueryWatch.Consistent.{IsConsistent}
use seven_db.QueryWatch.Requests.{KeyIsHashed}
use seven_db.QueryWatch.Listen.{
  Request, subscription, unsubscription, watch_event, listen, listen-IsConsistent,
}

abbrev get_of : String → DiceDbCmd
get_of k = record { cmd = "GET"; args = k ∷ [] }

abbrev number : String → ℕ
number k = if ◌==◌ {K = String} k "a" then 1 else 2

abbrev hash : DiceDbCmd → ℕ
hash c = number (key_of c)

number-ab : number "a" ≢ number "b"
number-ab e = omega (arith, e)

-- commands on two keys
abbrev OnTwoKeys : DiceDbCmd → Type 0
OnTwoKeys c = (key_of c ≡ "a") ⊎ (key_of c ≡ "b")

hash-KeyIsHashed : KeyIsHashed hash OnTwoKeys
hash-KeyIsHashed a b (inl p) (inl q) e = ground (arith, p, q)
hash-KeyIsHashed a b (inl p) (inr q) e = absurd (number-ab (sym (ap number p) ∙ e ∙ ap number q))
hash-KeyIsHashed a b (inr p) (inl q) e =
    absurd (number-ab (sym (ap number q) ∙ sym e ∙ ap number p))
hash-KeyIsHashed a b (inr p) (inr q) e = ground (arith, p, q)

abbrev requests : List Request
requests =
    subscription 7 (get_of "a")
    ∷ subscription 8 (get_of "a")
    ∷ subscription 8 (get_of "b")
    ∷ watch_event "SET" "a"
    ∷ unsubscription 7 1
    ∷ watch_event "EVICT" "a"
    ∷ []

listen-IsConsistent_example : IsConsistent hash OnTwoKeys (listen hash requests new_manager)
listen-IsConsistent_example =
    listen-IsConsistent hash OnTwoKeys hash-KeyIsHashed requests
      (inl refl, (inl refl, (inr refl, (tt, (tt, (tt, tt))))))

-- Both clients of "a" get the command after a SET, and none after an eviction.
listen_runs : (listen hash requests new_manager).sent ≡ (7, get_of "a") ∷ (8, get_of "a") ∷ []
unfolding listen new_manager handle_subscription handle_unsubscription handle_watch_event add_at
    drop_at put_set drop_command notify_fingerprints notify_clients send_all get put remove
listen_runs = refl
