-- ===== src/Emission/Outbox/Order.antt =====
-- What `pending_sorted` returns, against the outbox as a partial map.
use seven_db.Common.{
  ℕ, ◌<◌, ◌≡◌, refl, sym, subst, inl, inr, ◌≢◌, String, false, Option, none, some, List, [], ◌∷◌,
  arith, Option-cases,
}
use mathlib.Core.Option.{none-ne-some}
use seven_db.Common.Comparable.{nat_key, string_key}
use seven_db.Common.GoMap.{get, has, keys}
use seven_db.Common.GoMap.Keys.{IsMap}
use seven_db.Common.Lists.{All}
use seven_db.Emission.Outbox.{OutboxEntry, OutboxState, Entries, sort_ints, pick, pending_sorted}
use seven_db.Emission.Outbox.Entries.{entry_at}
use seven_db.Emission.Outbox.Valid.{IsValid}
use seven_db.Emission.Outbox.Ascending.{
  FitsInt, IsAscending, Distinct, Occurs, own, sort_ints-IsAscending, Occurs-sort_ints,
}

abbrev pub index_of : OutboxEntry → ℕ
index_of e = e.seq.commit_index

-- the entries of a map carry their keys
abbrev OwnIndex : Entries → Type 0
OwnIndex m = (i : ℕ) (e : OutboxEntry) → get m i ≡ some e → index_of e ≡ i

module _ (m : Entries) (owned : OwnIndex m) where
  pick-above : (k : ℕ) (is : List ℕ) → All (λ i. k < i) is → All (λ e. k < index_of e) (pick m is)
  unfolding pick
  pick-above k [] h = tt
  pick-above k (i ∷ is) h = elim (Option-cases (get m i)) [
    | inl absent ↦ rw (absent, pick) (pick-above k is h.1)
    | inr (e, found) ↦ rw (found, pick) (rw (owned i e found) h.0, pick-above k is h.1)
  ]

  pick-IsAscending : (is : List ℕ) → IsAscending own is → IsAscending index_of (pick m is)
  unfolding pick
  pick-IsAscending [] h = tt
  pick-IsAscending (i ∷ is) h = elim (Option-cases (get m i)) [
    | inl absent ↦ rw (absent, pick) (pick-IsAscending is h.1)
    | inr (e, found) ↦
        rw (found, pick) (rw (owned i e found) (pick-above i is h.0), pick-IsAscending is h.1)
  ]

  pick-found : (is : List ℕ) → All (λ e. get m (index_of e) ≡ some e) (pick m is)
  unfolding pick
  pick-found [] = tt
  pick-found (i ∷ is) = elim (Option-cases (get m i)) [
    | inl absent ↦ rw (absent, pick) (pick-found is)
    | inr (e, found) ↦
        rw (found, pick)
          (subst (λ j. get m j ≡ some e) (sym (owned i e found)) found, pick-found is)
  ]

Occurs-pick :
    (m : Entries) (i : ℕ) (e : OutboxEntry) (is : List ℕ)
    → get m i ≡ some e
    → Occurs i is
    → Occurs e (pick m is)
unfolding pick
Occurs-pick m i e [] h o = absurd o
Occurs-pick m i e (j ∷ is) h o = ground (arith, Occurs-pick m i e is h)

Occurs-keys : (m : Entries) (i : ℕ) (e : OutboxEntry) → get m i ≡ some e → Occurs i (keys m)
unfolding get
Occurs-keys [] i e h = cc
Occurs-keys ((j, f) ∷ m) i e h = ground (arith, Occurs-keys m i e)

keys-ne : (m : Entries) (k : ℕ) → has m k ≡ false → All (λ j. k ≢ j) (keys m)
unfolding has
keys-ne [] k h = tt
keys-ne ((j, f) ∷ m) k h = (ground arith, keys-ne m k (ground arith))

keys-Distinct : (m : Entries) → IsMap m → Distinct (keys m)
keys-Distinct [] h = tt
keys-Distinct ((k, e) ∷ m) h = (keys-ne m k h.0, keys-Distinct m h.1)

-- what `pending_sorted` returns for a subscription
pub record IsPendingOf (o : OutboxState) (sub : String) (es : List OutboxEntry) : Type 0 where
  pub ascending : IsAscending index_of es
  pub pending : All (λ e. entry_at o sub (index_of e) ≡ some e) es
  pub complete : (i : ℕ) (e : OutboxEntry) → entry_at o sub i ≡ some e → Occurs e es

-- The pending entries of a subscription are those that the outbox holds for it, each once, in
-- strictly ascending order of commit index, if the outbox is well-formed and the commit indices of
-- the subscription are below 2 ^ 63.
pub pending_sorted-IsPendingOf :
    (o : OutboxState) (sub : String)
    → IsValid o
    → ((m : Entries) → get o.by_sub sub ≡ some m → All FitsInt (keys m))
    → IsPendingOf o sub (pending_sorted o sub)
unfolding pending_sorted entry_at
pending_sorted-IsPendingOf o sub v fits = go (get o.by_sub sub) refl
  where
    go : (x : Option Entries) → get o.by_sub sub ≡ x → IsPendingOf o sub (pending_sorted o sub)
    go none h =
        rw (h, pending_sorted)
          (record {
            ascending = tt;
            pending = tt;
            complete = λ i e found. absurd (none-ne-some e (rw h at found));
          })
    go (some m) h =
        let owned : OwnIndex m = λ i e found. v.own_index sub i e (rw h found) in
        rw (h, pending_sorted)
          (record {
            ascending =
                pick-IsAscending m owned (sort_ints (keys m))
                  (sort_ints-IsAscending (keys m) (fits m h) (keys-Distinct m (v.maps sub m h)));
            pending = rw h (pick-found m owned (sort_ints (keys m)));
            complete = λ i e found.
                let there : get m i ≡ some e = rw h at found in
                Occurs-pick m i e (sort_ints (keys m)) there
                  (Occurs-sort_ints i (keys m) (Occurs-keys m i e there));
          })
