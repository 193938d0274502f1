-- ===== src/QueryWatch/Listen.antt =====
-- Subscriptions, unsubscriptions and events in any order keep the maps consistent.
use seven_db.Common.{ℕ, refl, String, List, [], ◌∷◌, arith}
use seven_db.Common.Comparable.{string_key, nat_key}
use seven_db.Common.GoMap.{get, has, or_zero}
use seven_db.QueryWatch.{
  DiceDbCmd, Manager, handle_subscription, handle_unsubscription, new_manager, handle_watch_event,
}
use seven_db.QueryWatch.Consistent.{IsConsistent}
use seven_db.Common.GoMap.{keys}
use seven_db.Common.Lists.{All}
use seven_db.QueryWatch.Requests.{
  KeyIsHashed, handle_subscription-IsConsistent, handle_unsubscription-IsConsistent,
  notify_fingerprints-IsConsistent,
}

-- what listenForEvents receives
pub data Request : Type 0 where
  subscription : ℕ → DiceDbCmd → Request
  unsubscription : ℕ → ℕ → Request
  watch_event : String → String → Request

-- the command of a subscription is known
abbrev pub KnowsRequest : (DiceDbCmd → Type 0) → Request → Type 0
KnowsRequest Known (subscription client cmd) = Known cmd
KnowsRequest Known (unsubscription client f) = Unit
KnowsRequest Known (watch_event event key) = Unit

module _ (fingerprint : DiceDbCmd → ℕ) where
  unfoldable pub listen : List Request → Manager → Manager
  listen [] m = m
  listen (subscription client cmd ∷ rs) m = listen rs (handle_subscription fingerprint client cmd m)
  listen (unsubscription client f ∷ rs) m = listen rs (handle_unsubscription client f m)
  listen (watch_event event key ∷ rs) m = listen rs (handle_watch_event event key m)

module _ (fingerprint : DiceDbCmd → ℕ) (Known : DiceDbCmd → Type 0) where
  listen_from :
      KeyIsHashed fingerprint Known
      → (rs : List Request) (m : Manager) → All (KnowsRequest Known) rs
      → IsConsistent fingerprint Known m
      → IsConsistent fingerprint Known (listen fingerprint rs m)
  unfolding listen handle_watch_event
  listen_from hashed [] m k h = h
  listen_from hashed (subscription client cmd ∷ rs) m k h =
      listen_from hashed rs (handle_subscription fingerprint client cmd m) k.1
        (handle_subscription-IsConsistent fingerprint Known hashed client cmd m k.0 h)
  listen_from hashed (unsubscription client f ∷ rs) m k h =
      listen_from hashed rs (handle_unsubscription client f m) k.1
        (handle_unsubscription-IsConsistent fingerprint Known client f m h)
  listen_from hashed (watch_event event key ∷ rs) m k h =
      listen_from hashed rs (handle_watch_event event key m) k.1 (
        notify_fingerprints-IsConsistent fingerprint Known event
          (keys (or_zero [] (get m.query_subscriptions key))) m h)

  new_manager-IsConsistent : IsConsistent fingerprint Known new_manager
  unfolding new_manager get has
  new_manager-IsConsistent = record {
    lists = λ k f. refl;
    own = λ f cmd e. absurd (ground (arith, e));
    clients = λ f. refl;
  }

  -- Where the commands of the subscriptions are known, and known commands on different keys have different fingerprints, any
  -- requests to a new manager leave it consistent: a key lists a fingerprint just where the command that stands at it is
  -- on the key, that command has the fingerprint, and the fingerprints with clients are those with a command.
  pub listen-IsConsistent :
      KeyIsHashed fingerprint Known
      → (rs : List Request) → All (KnowsRequest Known) rs
      → IsConsistent fingerprint Known (listen fingerprint rs new_manager)
  listen-IsConsistent hashed rs k = listen_from hashed rs new_manager k new_manager-IsConsistent
