-- ===== src/QueryWatch/Consistent.antt =====
-- What subscriptions and unsubscriptions do to the three maps.
use seven_db.Common.{
  ℕ, ◌≡◌, refl, sym, ap, ◌∙◌, String, Bool, true, false, not, Option, none, some, [], ◌∷◌, ◌&&◌,
  if◌then◌else◌, nat_beq, arith, Option-cases, Bool-cases, inl, inr,
}
use seven_db.Common.Comparable.{Comparable, ◌==◌, string_key, nat_key}
use seven_db.Common.GoMap.{GoMap, get, has, put, remove, size, or_zero}
use seven_db.Common.GoMap.Laws.{get-put, get-remove, is_some}
use seven_db.Common.GoMap.Keys.{has-put, has-remove}
use seven_db.QueryWatch.{
  DiceDbCmd, key_of, Manager, add_at, put_set, drop_at, handle_subscription, drop_command,
  handle_unsubscription,
}

has-empty : (m : GoMap ℕ Unit) (x : ℕ) → nat_beq (size m) 0 ≡ true → has m x ≡ false
unfolding has
has-empty [] x h = refl
has-empty (e ∷ m) x h = absurd (ground arith)

module _ {K : Type 0} ⦃c : Comparable K⦄ where
  -- `x` is in the set at `k`
  abbrev pub in_set : K → ℕ → GoMap K (GoMap ℕ Unit) → Bool
  in_set k x m = has (or_zero [] (get m k)) x

  pub in_set-add_at :
      (k j : K) (x y : ℕ) (m : GoMap K (GoMap ℕ Unit))
      → in_set j y (add_at k x m) ≡ (if (k == j) && nat_beq x y then true else in_set j y m)
  unfolding add_at
  in_set-add_at k j x y m = elim (Bool-cases (k == j)) [
    | inl same ↦
        ap (λ o. has (or_zero [] o) y) (get-put m k (put (or_zero [] (get m k)) x tt) j)
        ∙ rw same (
            has-put (or_zero [] (get m k)) x tt y
            ∙ ap (λ i. if nat_beq x y then true else in_set i y m) ((c.equal_iff k j).0 same))
    | inr other ↦
        ap (λ o. has (or_zero [] o) y) (get-put m k (put (or_zero [] (get m k)) x tt) j)
        ∙ rw other refl
  ]

  get-put_set :
      (k j : K) (s : GoMap ℕ Unit) (m : GoMap K (GoMap ℕ Unit))
      → get (put_set k s m) j
        ≡ (if k == j then (if nat_beq (size s) 0 then none else some s) else get m j)
  unfolding put_set
  get-put_set k j s m = ground (arith, get-put m k s j, get-remove m k j)

  in_set-put_set :
      (k : K) (y : ℕ) (s : GoMap ℕ Unit)
      → has (or_zero [] (if nat_beq (size s) 0 then none else some s)) y ≡ has s y
  unfolding has
  in_set-put_set k y s = elim (Bool-cases (nat_beq (size s) 0)) [
    | inl empty ↦ rw empty (sym (has-empty s y empty))
    | inr some_left ↦ rw some_left refl
  ]

  pub in_set-drop_at :
      (k j : K) (x y : ℕ) (m : GoMap K (GoMap ℕ Unit))
      → in_set j y (drop_at k x m) ≡ (if (k == j) && nat_beq x y then false else in_set j y m)
  unfolding drop_at has
  in_set-drop_at k j x y m = elim (Option-cases (get m k)) [
    | inl absent ↦
        rw (drop_at, absent)
          (elim (Bool-cases (k == j)) [
            | inl same ↦
                rw (same, sym (ap (get m) ((c.equal_iff k j).0 same)) ∙ absent) (ground arith)
            | inr other ↦ rw other refl
          ])
    | inr (s, held) ↦ elim (Bool-cases (k == j)) [
      | inl same ↦
          rw (drop_at, held)
            (ap (λ o. has (or_zero [] o) y) (get-put_set k j (remove s x) m)
              ∙ rw same (
                  in_set-put_set k y (remove s x)
                  ∙ has-remove s x y
                  ∙ ap (λ o. if nat_beq x y then false else has (or_zero [] o) y)
                      (sym held ∙ ap (get m) ((c.equal_iff k j).0 same))))
      | inr other ↦
          rw (drop_at, held)
            (ap (λ o. has (or_zero [] o) y) (get-put_set k j (remove s x) m) ∙ rw other refl)
    ]
  ]

drop_at_absent : (f x : ℕ) (m : GoMap ℕ (GoMap ℕ Unit)) → get m f ≡ none → drop_at f x m ≡ m
unfolding drop_at
drop_at_absent f x m absent = rw (drop_at, absent) refl

-- whether a fingerprint has clients left
pub has-drop_at :
    (f x g : ℕ) (s : GoMap ℕ Unit) (m : GoMap ℕ (GoMap ℕ Unit))
    → get m f ≡ some s
    → has (drop_at f x m) g ≡ (if nat_beq f g then not (nat_beq (size (remove s x)) 0) else has m g)
unfolding drop_at put_set
has-drop_at f x g s m held =
    rw (drop_at, held) (ground (arith, has-put m f (remove s x) g, has-remove m f g))

-- what the maps say of a fingerprint
abbrev pub subscribed : ℕ → ℕ → Manager → Bool
subscribed f client m = in_set f client m.tcp_subscriptions

abbrev pub listed : String → ℕ → Manager → Bool
listed k f m = in_set k f m.query_subscriptions

abbrev pub watches : String → Option DiceDbCmd → Bool
watches k none = false
watches k (some cmd) = key_of cmd == k

drop_command-tcp :
    (f : ℕ) (m : Manager) → (drop_command f m).tcp_subscriptions ≡ m.tcp_subscriptions
unfolding drop_command
drop_command-tcp f m = ground arith

handle_unsubscription-tcp :
    (client f : ℕ) (m : Manager)
    → (handle_unsubscription client f m).tcp_subscriptions ≡ drop_at f client m.tcp_subscriptions
unfolding handle_unsubscription drop_at
handle_unsubscription-tcp client f m = elim (Option-cases (get m.tcp_subscriptions f)) [
  | inl absent ↦
      rw (handle_unsubscription, absent)
        (drop_command-tcp f m ∙ sym (drop_at_absent f client m.tcp_subscriptions absent))
  | inr (clients, held) ↦ elim (Bool-cases (nat_beq (size (remove clients client)) 0)) [
    | inl last ↦
        rw (handle_unsubscription, held, last)
          (drop_command-tcp f
            (record m { tcp_subscriptions = drop_at f client m.tcp_subscriptions }))
    | inr more ↦ rw (handle_unsubscription, held, more) refl
  ]
]

-- After a subscription its client is subscribed to the fingerprint of its command, and after an unsubscription it is not;
-- nothing else changes in who is subscribed to what.
pub subscribed-changes :
    (fingerprint : DiceDbCmd → ℕ) (cmd : DiceDbCmd) (client f : ℕ) (m : Manager) (g d : ℕ)
    → (subscribed g d (handle_subscription fingerprint client cmd m)
        ≡ (if nat_beq (fingerprint cmd) g && nat_beq client d then true else subscribed g d m))
      × (subscribed g d (handle_unsubscription client f m)
          ≡ (if nat_beq f g && nat_beq client d then false else subscribed g d m))
unfolding handle_subscription
subscribed-changes fingerprint cmd client f m g d = (
  in_set-add_at (fingerprint cmd) g client d m.tcp_subscriptions,
  ap (in_set g d) (handle_unsubscription-tcp client f m)
      ∙ in_set-drop_at f g client d m.tcp_subscriptions,
)

-- A key lists the fingerprints of the commands on it, each command stands at its fingerprint and is
-- known, and those with clients are those with a command.
pub record IsConsistent (fingerprint : DiceDbCmd → ℕ) (Known : DiceDbCmd → Type 0) (m : Manager)
    : Type 0 where
  pub lists : (k : String) (f : ℕ) → listed k f m ≡ watches k (get m.fingerprint_cmds f)
  pub own :
      (f : ℕ) (cmd : DiceDbCmd)
      → get m.fingerprint_cmds f ≡ some cmd
      → (fingerprint cmd ≡ f) × Known cmd
  pub clients : (f : ℕ) → has m.tcp_subscriptions f ≡ is_some (get m.fingerprint_cmds f)
