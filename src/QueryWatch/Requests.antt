-- ===== src/QueryWatch/Requests.antt =====
-- A subscription, an unsubscription and an event each keep the maps consistent.
use seven_db.Common.{
  ℕ, ◌≡◌, refl, sym, ap, subst, ◌∙◌, String, false, not, some, List, [], ◌∷◌, ◌++◌, if◌then◌else◌,
  nat_beq, arith, Option-cases, Bool-cases, inl, inr,
}
use mathlib.Core.Option.{some-injective}
use seven_db.Common.Comparable.{string_key, nat_key}
use seven_db.Common.GoMap.{GoMap, get, has, put, remove, size, or_zero}
use seven_db.Common.GoMap.Laws.{get-put, get-remove, has-get, is_some}
use seven_db.Common.GoMap.Keys.{has-put}
use seven_db.QueryWatch.{
  DiceDbCmd, key_of, Manager, add_at, drop_at, handle_subscription, drop_command,
  handle_unsubscription, notify_fingerprints, notify_clients, send_all, affects,
}
use seven_db.QueryWatch.Consistent.{
  in_set, in_set-add_at, in_set-drop_at, has-drop_at, IsConsistent, watches,
}
use seven_db.Common.GoMap.{keys}

module _ (fingerprint : DiceDbCmd → ℕ) (Known : DiceDbCmd → Type 0) where
  -- known commands on different keys have different fingerprints
  abbrev pub KeyIsHashed : Type 0
  KeyIsHashed =
      (a b : DiceDbCmd) → Known a → Known b → fingerprint a ≡ fingerprint b → key_of a ≡ key_of b

  own_put :
      (cmd : DiceDbCmd) (m : Manager)
      → Known cmd
      → IsConsistent fingerprint Known m
      → (g : ℕ) (x : DiceDbCmd) → get (put m.fingerprint_cmds (fingerprint cmd) cmd) g ≡ some x
      → (fingerprint x ≡ g) × Known x
  own_put cmd m known h g x e = elim (Bool-cases (nat_beq (fingerprint cmd) g)) [
    | inl same ↦
        let found =
          some-injective cmd x
            (ground (arith, e, same, get-put m.fingerprint_cmds (fingerprint cmd) cmd g)) in
        (ground (arith, same, ap fingerprint found), subst Known found known)
    | inr other ↦
        h.own g x (ground (arith, e, other, get-put m.fingerprint_cmds (fingerprint cmd) cmd g))
  ]

  pub handle_subscription-IsConsistent :
      KeyIsHashed
      → (client : ℕ) (cmd : DiceDbCmd) (m : Manager) → Known cmd
      → IsConsistent fingerprint Known m
      → IsConsistent fingerprint Known (handle_subscription fingerprint client cmd m)
  unfolding handle_subscription add_at
  handle_subscription-IsConsistent hashed client cmd m known h = record {
    lists = λ k g.
        in_set-add_at (key_of cmd) k (fingerprint cmd) g m.query_subscriptions
        ∙ elim (Option-cases (get m.fingerprint_cmds g)) [
          | inl free ↦
              ground (arith, free, h.lists k g, get-put m.fingerprint_cmds (fingerprint cmd) cmd g)
          | inr (old, taken) ↦ ground (
            arith,
            taken,
            h.lists k g,
            (h.own g old taken).0,
            hashed cmd old known (h.own g old taken).1,
            get-put m.fingerprint_cmds (fingerprint cmd) cmd g,
          )
        ];
    own = λ g x e. own_put cmd m known h g x e;
    clients = λ g. ground (
      arith,
      h.clients g,
      get-put m.fingerprint_cmds (fingerprint cmd) cmd g,
      has-put m.tcp_subscriptions (fingerprint cmd)
          (put (or_zero [] (get m.tcp_subscriptions (fingerprint cmd))) client tt) g,
    );
  }

  dropped-IsConsistent :
      (f : ℕ) (cmd : DiceDbCmd) (m : Manager) (t : GoMap ℕ (GoMap ℕ Unit))
      → get m.fingerprint_cmds f ≡ some cmd
      → ((g : ℕ) → has t g ≡ (if nat_beq f g then false else has m.tcp_subscriptions g))
      → IsConsistent fingerprint Known m
      → IsConsistent fingerprint Known (drop_command f (record m { tcp_subscriptions = t }))
  unfolding drop_command
  dropped-IsConsistent f cmd m t held gone h =
      rw (drop_command, held)
        (record {
          lists = λ k g.
              in_set-drop_at (key_of cmd) k f g m.query_subscriptions
              ∙ ground (arith, held, h.lists k g, get-remove m.fingerprint_cmds f g);
          own = λ g x e. h.own g x (ground (arith, e, get-remove m.fingerprint_cmds f g));
          clients = λ g. ground (arith, gone g, h.clients g, get-remove m.fingerprint_cmds f g);
        })

  pub handle_unsubscription-IsConsistent :
      (client f : ℕ) (m : Manager)
      → IsConsistent fingerprint Known m
      → IsConsistent fingerprint Known (handle_unsubscription client f m)
  unfolding handle_unsubscription
  handle_unsubscription-IsConsistent client f m h =
      elim (Option-cases (get m.tcp_subscriptions f)) [
        | inl absent ↦ elim (Option-cases (get m.fingerprint_cmds f)) [
          | inl free ↦ rw (handle_unsubscription, absent, drop_command, free) h
          | inr (cmd, held) ↦
              absurd (ground (arith, held, absent, h.clients f, has-get m.tcp_subscriptions f))
        ]
        | inr (clients, watched) ↦ elim (Option-cases (get m.fingerprint_cmds f)) [
          | inl free ↦
              absurd (ground (arith, free, watched, h.clients f, has-get m.tcp_subscriptions f))
          | inr (cmd, held) ↦ elim (Bool-cases (nat_beq (size (remove clients client)) 0)) [
            | inl last ↦
                rw (handle_unsubscription, watched, last)
                  (dropped-IsConsistent f cmd m (drop_at f client m.tcp_subscriptions) held
                    (λ g.
                      has-drop_at f client g clients m.tcp_subscriptions watched
                      ∙ ap (λ b. if nat_beq f g then not b else has m.tcp_subscriptions g) last)
                    h)
            | inr more ↦
                rw (handle_unsubscription, watched, more)
                  (record {
                    lists = h.lists;
                    own = h.own;
                    clients = λ g.
                        has-drop_at f client g clients m.tcp_subscriptions watched
                        ∙ ground (arith, more, watched, h.clients g, has-get m.tcp_subscriptions g);
                  })
          ]
        ]
      ]

  -- the maps, without what was sent
  abbrev SameMaps : Manager → Manager → Type 0
  SameMaps m n =
      (n.query_subscriptions ≡ m.query_subscriptions)
      × (n.tcp_subscriptions ≡ m.tcp_subscriptions)
      × (n.fingerprint_cmds ≡ m.fingerprint_cmds)

  send_all-SameMaps : (cs : List ℕ) (cmd : DiceDbCmd) (m : Manager) → SameMaps m (send_all cs cmd m)
  unfolding send_all
  send_all-SameMaps [] cmd m = (refl, refl, refl)
  send_all-SameMaps (c ∷ cs) cmd m =
      send_all-SameMaps cs cmd (record m { sent = m.sent ++ ((c, cmd) ∷ []) })

  same-IsConsistent :
      (m n : Manager)
      → SameMaps m n
      → IsConsistent fingerprint Known m
      → IsConsistent fingerprint Known n
  same-IsConsistent m n e h = record {
    lists = λ k f. ap (in_set k f) e.0 ∙ h.lists k f ∙ ap (λ c. watches k (get c f)) (sym e.2);
    own = λ f cmd g. h.own f cmd (ap (λ c. get c f) (sym e.2) ∙ g);
    clients = λ f. ap (λ t. has t f) e.1 ∙ h.clients f ∙ ap (λ c. is_some (get c f)) (sym e.2);
  }

  pub notify_fingerprints-IsConsistent :
      (event : String) (fs : List ℕ) (m : Manager)
      → IsConsistent fingerprint Known m
      → IsConsistent fingerprint Known (notify_fingerprints event fs m)
  unfolding notify_fingerprints notify_clients
  notify_fingerprints-IsConsistent event [] m h = h
  notify_fingerprints-IsConsistent event (f ∷ fs) m h =
      elim (Option-cases (get m.fingerprint_cmds f)) [
        | inl absent ↦
            rw (notify_fingerprints, absent) (notify_fingerprints-IsConsistent event fs m h)
        | inr (cmd, held) ↦ elim (Bool-cases (affects event cmd.cmd)) [
          | inl affected ↦
              rw (notify_fingerprints, held, affected)
                (notify_fingerprints-IsConsistent event fs (notify_clients f cmd m) (
                  same-IsConsistent m (notify_clients f cmd m)
                    (send_all-SameMaps (keys (or_zero [] (get m.tcp_subscriptions f))) cmd m) h))
          | inr untouched ↦
              rw (notify_fingerprints, held, untouched)
                (notify_fingerprints-IsConsistent event fs m h)
        ]
      ]
