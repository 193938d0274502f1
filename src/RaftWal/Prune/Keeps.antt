-- ===== src/RaftWal/Prune/Keeps.antt =====
-- What PruneThrough leaves of the log.
use seven_db.Common.{
  ℕ, ◌≡◌, ◌<◌, ◌≤◌, refl, sym, ap, ◌∙◌, List, [], ◌∷◌, ◌++◌, arith, ltb, if◌then◌else◌, Bool-cases,
  inl, inr,
}
use seven_db.Common.Comparable.{nat_key}
use seven_db.RaftWal.Frame.{Envelope}
use seven_db.RaftWal.Frame.Folds.{max_index}
use seven_db.RaftWal.Content.{Segments, first_or, Ascends, flat}

-- the segments that reach the bound
unfoldable pub survivors : ℕ → Segments → Segments
survivors bound [] = []
survivors bound ((n, es) ∷ old) =
    if ltb (max_index 0 es) bound then survivors bound old else (n, es) ∷ survivors bound old

-- the numbers of the others
unfoldable pub victims : ℕ → Segments → List ℕ
victims bound [] = []
victims bound ((n, es) ∷ old) =
    if ltb (max_index 0 es) bound then n ∷ victims bound old else victims bound old

-- the envelopes from the bound on
unfoldable pub from_bound : ℕ → List Envelope → List Envelope
from_bound bound [] = []
from_bound bound (e ∷ es) =
    if ltb e.raft_index bound then from_bound bound es else e ∷ from_bound bound es

pub from_bound-append :
    (bound : ℕ) (es ds : List Envelope)
    → from_bound bound (es ++ ds) ≡ from_bound bound es ++ from_bound bound ds
unfolding from_bound
from_bound-append bound [] ds = refl
from_bound-append bound (e ∷ es) ds = ground (arith, from_bound-append bound es ds)

max_index-least : (m : ℕ) (es : List Envelope) → m ≤ max_index m es
unfolding max_index
max_index-least m [] = omega arith
max_index-least m (e ∷ es) =
    ground (arith, max_index-least (if ltb m e.raft_index then e.raft_index else m) es)

from_bound_none :
    (bound m : ℕ) (es : List Envelope) → max_index m es < bound → from_bound bound es ≡ []
unfolding from_bound max_index
from_bound_none bound m [] h = refl
from_bound_none bound m (e ∷ es) h =
    let top = if ltb m e.raft_index then e.raft_index else m in
    ground (arith, max_index-least top es, from_bound_none bound top es h)

survivors-first_or :
    (bound : ℕ) (old : Segments) (n : ℕ)
    → Ascends old n
    → first_or old n ≤ first_or (survivors bound old) n
unfolding survivors
survivors-first_or bound [] n h = omega arith
survivors-first_or bound ((i, es) ∷ old) n h =
    ground (arith, survivors-first_or bound old n h.1, h.0)

pub survivors-Ascends :
    (bound : ℕ) (old : Segments) (n : ℕ) → Ascends old n → Ascends (survivors bound old) n
unfolding survivors
survivors-Ascends bound [] n h = tt
survivors-Ascends bound ((i, es) ∷ old) n h = elim (Bool-cases (ltb (max_index 0 es) bound)) [
  | inl low ↦ rw (survivors, low) (survivors-Ascends bound old n h.1)
  | inr high ↦
      rw (survivors, high)
        ((
          omega (arith, h.0, survivors-first_or bound old n h.1),
          survivors-Ascends bound old n h.1,
        ))
]

-- no envelope from the bound on is lost
pub survivors-from_bound :
    (bound : ℕ) (old : Segments)
    → from_bound bound (flat (survivors bound old)) ≡ from_bound bound (flat old)
unfolding survivors
survivors-from_bound bound [] = refl
survivors-from_bound bound ((i, es) ∷ old) = elim (Bool-cases (ltb (max_index 0 es) bound)) [
  | inl low ↦
      rw (survivors, low)
        (survivors-from_bound bound old
          ∙ ap (λ xs. xs ++ from_bound bound (flat old))
              (sym (from_bound_none bound 0 es (ground (arith, low))))
          ∙ sym (from_bound-append bound es (flat old)))
  | inr high ↦
      rw (survivors, high)
        (from_bound-append bound es (flat (survivors bound old))
          ∙ ap (λ xs. from_bound bound es ++ xs) (survivors-from_bound bound old)
          ∙ sym (from_bound-append bound es (flat old)))
]
