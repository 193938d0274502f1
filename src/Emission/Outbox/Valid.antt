-- ===== src/Emission/Outbox/Valid.antt =====
-- Well-formed outboxes: no subscription has an empty map, and an entry stands at the position that
-- it carries.
use seven_db.Common.{
  ℕ, ◌≡◌, refl, ◌≢◌, String, Option, none, some, [], ◌∷◌, arith, nat_beq, nat_beq_iff, Bool-cases,
  inl, inr,
}
use seven_db.Common.Comparable.{nat_key, string_key}
use seven_db.Common.GoMap.{GoMap, get, put, remove, size}
use seven_db.Common.GoMap.Laws.{put-Values, remove-Values, Values}
use seven_db.Common.GoMap.Keys.{IsMap, put-IsMap, remove-IsMap}
use seven_db.Emission.Outbox.{
  OutboxEntry, OutboxState, Entries, new_outbox_state, or_make, write, purge_entries, purge,
}
use seven_db.Emission.Outbox.Entries.{entry_at, entry_at-write, entry_at-purge, purge_entries-IsMap}
use text.Mathlib.TextEquality.{eq_iff}

pub record IsValid (o : OutboxState) : Type 0 where
  pub subs : IsMap o.by_sub
  pub maps : (s : String) (m : Entries) → get o.by_sub s ≡ some m → IsMap m
  pub filled : (s : String) (m : Entries) → get o.by_sub s ≡ some m → size m ≢ 0
  pub own_sub : (s : String) (i : ℕ) (e : OutboxEntry) → entry_at o s i ≡ some e → e.sub_id ≡ s
  pub own_index :
      (s : String) (i : ℕ) (e : OutboxEntry) → entry_at o s i ≡ some e → e.seq.commit_index ≡ i

pub new_outbox_state-IsValid : IsValid new_outbox_state
unfolding get entry_at
new_outbox_state-IsValid = record {
  subs = tt;
  maps = λ s m h. cc;
  filled = λ s m h. cc;
  own_sub = λ s i e h. cc;
  own_index = λ s i e h. cc;
}

pub or_make-IsMap : {o : OutboxState} (s : String) → IsValid o → IsMap (or_make (get o.by_sub s))
or_make-IsMap {o} s v = go (get o.by_sub s) refl
  where
    go : (x : Option Entries) → get o.by_sub s ≡ x → IsMap (or_make x)
    go none h = tt
    go (some m) h = v.maps s m h

size-put-ne-zero : (m : Entries) (i : ℕ) (e : OutboxEntry) → size (put m i e) ≢ 0
unfolding put
size-put-ne-zero [] i e = ground arith
size-put-ne-zero ((j, w) ∷ m) i e = ground arith

module _ (e : OutboxEntry) {o : OutboxState} (v : IsValid o) where
  written : Entries
  written = put (or_make (get o.by_sub e.sub_id)) e.seq.commit_index e

  written-IsMap : IsMap written
  unfolding written
  written-IsMap = put-IsMap _ e.seq.commit_index e (or_make-IsMap e.sub_id v)

  -- A write keeps the outbox well-formed.
  pub write-IsValid : IsValid (write e o).0
  unfolding write written
  write-IsValid = record {
    subs = put-IsMap o.by_sub e.sub_id _ v.subs;
    maps = put-Values IsMap o.by_sub e.sub_id _ written-IsMap v.maps;
    filled = put-Values (λ m. size m ≢ 0) o.by_sub e.sub_id _ (size-put-ne-zero _ _ e) v.filled;
    own_sub = λ s i x h. ground (arith, entry_at-write e o s i, eq_iff e.sub_id s, v.own_sub s i x);
    own_index = λ s i x h.
        ground (arith, entry_at-write e o s i, nat_beq_iff e.seq.commit_index i, v.own_index s i x);
  }

module _ (sub : String) (u : ℕ) {o : OutboxState} (v : IsValid o) where
  -- the subscriptions after a purge, on each of its branches
  purge-shape :
      (P : GoMap String Entries → Type 0)
      → (get o.by_sub sub ≡ none → P o.by_sub)
      → P (remove o.by_sub sub)
      → ((m : Entries)
          → get o.by_sub sub ≡ some m
          → size (purge_entries m u).0 ≢ 0
          → P (put o.by_sub sub (purge_entries m u).0))
      → P (purge sub u o).0.by_sub
  unfolding purge
  purge-shape P absent gone left = go (get o.by_sub sub) refl
    where
      go : (x : Option Entries) → get o.by_sub sub ≡ x → P (purge sub u o).0.by_sub
      go none h = rw (h, purge) (absent h)
      go (some m) h = elim (Bool-cases (nat_beq (size (purge_entries m u).0) 0)) [
        | inl none_left ↦ rw (h, purge, none_left) gone
        | inr some_left ↦ rw (h, purge, some_left) (left m h (ground arith))
      ]

  -- A purge keeps the outbox well-formed.
  pub purge-IsValid : IsValid (purge sub u o).0
  purge-IsValid = record {
    subs =
        purge-shape IsMap (λ _. v.subs) (remove-IsMap o.by_sub sub v.subs)
          (λ m h f. put-IsMap o.by_sub sub _ v.subs);
    maps =
        purge-shape (Values IsMap) (λ _. v.maps) (remove-Values IsMap o.by_sub sub v.maps)
          (λ m h f.
            put-Values IsMap o.by_sub sub _ (purge_entries-IsMap m u (v.maps sub m h)) v.maps);
    filled =
        purge-shape (Values (λ m. size m ≢ 0)) (λ _. v.filled)
          (remove-Values (λ m. size m ≢ 0) o.by_sub sub v.filled)
          (λ m h f. put-Values (λ m. size m ≢ 0) o.by_sub sub _ f v.filled);
    own_sub = λ s i x h. ground (arith, entry_at-purge sub u o s i, v.own_sub s i x);
    own_index = λ s i x h. ground (arith, entry_at-purge sub u o s i, v.own_index s i x);
  }
