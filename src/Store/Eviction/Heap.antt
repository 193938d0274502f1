-- ===== src/Store/Eviction/Heap.antt =====
-- What the heap holds after one more item.
use seven_db.Common.{
  ℕ, suc, ◌≡◌, ◌≤◌, ◌<◌, refl, ap, Bool, true, false, List, [], ◌∷◌, if◌then◌else◌, ltb, subst,
  arith, ◌⊎◌, inl, inr, Bool-cases,
}
use seven_db.Common.Comparable.{string_key, nat_key}
use seven_db.Common.Lists.{length}
use seven_db.Store.Eviction.{EvictionItem, push, consider}

-- membership, and the heap's order
abbrev pub Elem : EvictionItem → List EvictionItem → Type 0
Elem x [] = ⊥
Elem x (y ∷ ys) = (x ≡ y) ⊎ Elem x ys

abbrev pub AtMost : ℕ → List EvictionItem → Type 0
AtMost t [] = Unit
AtMost t (x ∷ xs) = (x.last_accessed ≤ t) × AtMost t xs

abbrev pub Descends : List EvictionItem → Type 0
Descends [] = Unit
Descends (x ∷ xs) = AtMost x.last_accessed xs × Descends xs

AtMost-mono : (s t : ℕ) (xs : List EvictionItem) → s ≤ t → AtMost s xs → AtMost t xs
AtMost-mono s t [] l h = tt
AtMost-mono s t (x ∷ xs) l h = (omega (arith, h.0), AtMost-mono s t xs l h.1)

push-AtMost :
    (x : EvictionItem) (t : ℕ) (hs : List EvictionItem)
    → x.last_accessed ≤ t
    → AtMost t hs
    → AtMost t (push x hs)
unfolding push
push-AtMost x t [] l h = (l, tt)
push-AtMost x t (y ∷ hs) l h = elim (Bool-cases (ltb y.last_accessed x.last_accessed)) [
  | inl below ↦ rw below (l, h)
  | inr above ↦ rw above (h.0, push-AtMost x t hs l h.1)
]

push-Descends : (x : EvictionItem) (hs : List EvictionItem) → Descends hs → Descends (push x hs)
unfolding push
push-Descends x [] h = (tt, tt)
push-Descends x (y ∷ hs) h = elim (Bool-cases (ltb y.last_accessed x.last_accessed)) [
  | inl below ↦
      rw below
        ((ground arith, AtMost-mono y.last_accessed x.last_accessed hs (ground arith) h.0), h)
  | inr above ↦
      rw above (push-AtMost x y.last_accessed hs (ground arith) h.0, push-Descends x hs h.1)
]

length-push : (x : EvictionItem) (hs : List EvictionItem) → length (push x hs) ≡ suc (length hs)
unfolding push
length-push x [] = refl
length-push x (y ∷ hs) = ground (arith, length-push x hs)

push_has : (x : EvictionItem) (hs : List EvictionItem) → Elem x (push x hs)
unfolding push
push_has x [] = inl refl
push_has x (y ∷ hs) = elim (Bool-cases (ltb y.last_accessed x.last_accessed)) [
  | inl below ↦ rw below (inl refl)
  | inr above ↦ rw above (inr (push_has x hs))
]

push_keeps : (x z : EvictionItem) (hs : List EvictionItem) → Elem z hs → Elem z (push x hs)
unfolding push
push_keeps x z [] e = absurd e
push_keeps x z (y ∷ hs) e = elim (Bool-cases (ltb y.last_accessed x.last_accessed)) [
  | inl below ↦ rw below (inr e)
  | inr above ↦
      rw above (elim e [ inl here ↦ inl here | inr there ↦ inr (push_keeps x z hs there) ])
]

-- `z` was chosen, or the heap is full of items that were accessed no later
abbrev pub IsDecided : ℕ → EvictionItem → List EvictionItem → Type 0
IsDecided n z heap = Elem z heap ⊎ (AtMost z.last_accessed heap × (n ≤ length heap))

pub consider-Descends :
    (n : ℕ) (x : EvictionItem) (heap : List EvictionItem)
    → Descends heap
    → Descends (consider n x heap)
unfolding consider
consider-Descends n x [] d = push-Descends x [] d
consider-Descends n x (h ∷ hs) d = elim (Bool-cases (ltb (length (h ∷ hs)) n)) [
  | inl room ↦ rw room (push-Descends x (h ∷ hs) d)
  | inr full ↦ elim (Bool-cases (ltb x.last_accessed h.last_accessed)) [
    | inl older ↦ rw (full, older) (push-Descends x hs d.1)
    | inr newer ↦ rw (full, newer) d
  ]
]

pub length-consider :
    (n : ℕ) (x : EvictionItem) (heap : List EvictionItem)
    → 0 < n
    → length (consider n x heap) ≡ (if ltb (length heap) n then suc (length heap) else length heap)
unfolding consider
length-consider n x [] p = ground (arith, length-push x [])
length-consider n x (h ∷ hs) p = ground (arith, length-push x (h ∷ hs), length-push x hs)

-- the item that is considered
pub consider_decides :
    (n : ℕ) (x : EvictionItem) (heap : List EvictionItem)
    → Descends heap
    → IsDecided n x (consider n x heap)
unfolding consider
consider_decides n x [] d = inl (push_has x [])
consider_decides n x (h ∷ hs) d = elim (Bool-cases (ltb (length (h ∷ hs)) n)) [
  | inl room ↦ rw room (inl (push_has x (h ∷ hs)))
  | inr full ↦ elim (Bool-cases (ltb x.last_accessed h.last_accessed)) [
    | inl older ↦ rw (full, older) (inl (push_has x hs))
    | inr newer ↦
        rw (full, newer)
          (inr (
            (ground arith, AtMost-mono h.last_accessed x.last_accessed hs (ground arith) d.0),
            ground arith,
          ))
  ]
]

-- an item that was decided before
pub consider_keeps :
    (n : ℕ) (x z : EvictionItem) (heap : List EvictionItem)
    → 0 < n
    → Descends heap
    → IsDecided n z heap
    → IsDecided n z (consider n x heap)
unfolding consider
consider_keeps n x z [] p d (inl e) = absurd e
consider_keeps n x z [] p d (inr e) = absurd (omega (arith, p, e.1))
consider_keeps n x z (h ∷ hs) p d e = elim (Bool-cases (ltb (length (h ∷ hs)) n)) [
  | inl room ↦ elim e [
    | inl there ↦ rw room (inl (push_keeps x z (h ∷ hs) there))
    | inr out ↦ absurd (ground (arith, room, out.1))
  ]
  | inr full ↦ elim (Bool-cases (ltb x.last_accessed h.last_accessed)) [
    | inl older ↦ elim e [
      | inl there ↦ elim there [
        | inl head ↦
            rw (full, older)
              (inr (
                push-AtMost x z.last_accessed hs (ground (arith, ap (λ i. i.last_accessed) head)) (
                    AtMost-mono h.last_accessed z.last_accessed hs
                      (ground (arith, ap (λ i. i.last_accessed) head)) d.0),
                ground (arith, length-push x hs),
              ))
        | inr tail ↦ rw (full, older) (inl (push_keeps x z hs tail))
      ]
      | inr out ↦
          rw (full, older)
            (inr (
              push-AtMost x z.last_accessed hs (ground (arith, out.0.0)) out.0.1,
              ground (arith, length-push x hs),
            ))
    ]
    | inr newer ↦ rw (full, newer) e
  ]
]

push-Elem : (x z : EvictionItem) (hs : List EvictionItem) → Elem z (push x hs) → Elem z (x ∷ hs)
unfolding push
push-Elem x z [] e = e
push-Elem x z (y ∷ hs) e = elim (Bool-cases (ltb y.last_accessed x.last_accessed)) [
  | inl below ↦ subst (λ b. Elem z (if b then x ∷ y ∷ hs else y ∷ push x hs)) below e
  | inr above ↦
      elim (split (subst (λ b. Elem z (if b then x ∷ y ∷ hs else y ∷ push x hs)) above e)) [
        | inl here ↦ inr (inl here)
        | inr there ↦ elim (push-Elem x z hs there) [
          | inl same ↦ inl same
          | inr tail ↦ inr (inr tail)
        ]
      ]
]
  where
    split : Elem z (y ∷ push x hs) → (z ≡ y) ⊎ Elem z (push x hs)
    split h = h

pub consider-Elem :
    (n : ℕ) (x z : EvictionItem) (heap : List EvictionItem)
    → Elem z (consider n x heap)
    → Elem z (x ∷ heap)
unfolding consider
consider-Elem n x z [] e = e
consider-Elem n x z (h ∷ hs) e = elim (Bool-cases (ltb (length (h ∷ hs)) n)) [
  | inl room ↦
      push-Elem x z (h ∷ hs)
        (subst (λ b. Elem z (if b then push x (h ∷ hs) else older_or_same)) room e)
  | inr full ↦ elim (Bool-cases (ltb x.last_accessed h.last_accessed)) [
    | inl older ↦ elim (push-Elem x z hs (pick true older full)) [
      | inl same ↦ inl same
      | inr tail ↦ inr (inr tail)
    ]
    | inr newer ↦ inr (pick false newer full)
  ]
]
  where
    older_or_same : List EvictionItem
    older_or_same = if ltb x.last_accessed h.last_accessed then push x hs else h ∷ hs

    pick :
        (b : Bool)
        → ltb x.last_accessed h.last_accessed ≡ b
        → ltb (length (h ∷ hs)) n ≡ false
        → Elem z (if b then push x hs else h ∷ hs)
    pick b older full =
        subst (λ c. Elem z (if c then push x hs else h ∷ hs)) older
          (subst (λ c. Elem z (if c then push x (h ∷ hs) else older_or_same)) full e)
