-- ===== src/Store/Eviction/Least.antt =====
-- The keys that are evicted are those that were accessed the longest ago.
use seven_db.Common.{
  ℕ, ◌+◌, ◌≡◌, ◌≤◌, ◌<◌, sym, List, [], ◌∷◌, if◌then◌else◌, ltb, subst, arith, ◌⊎◌, inl, inr,
}
use seven_db.Common.Comparable.{string_key, nat_key}
use seven_db.Common.Lists.{length}
use seven_db.Store.Eviction.{EvictionItem, consider, choose}
use seven_db.Store.Eviction.Heap.{
  Elem, AtMost, Descends, IsDecided, consider-Descends, length-consider, consider_decides,
  consider_keeps, consider-Elem,
}

choose_keeps :
    (n : ℕ) (xs heap : List EvictionItem) (z : EvictionItem)
    → 0 < n
    → Descends heap
    → IsDecided n z heap
    → IsDecided n z (choose n xs heap)
unfolding choose
choose_keeps n [] heap z p d e = e
choose_keeps n (x ∷ xs) heap z p d e =
    choose_keeps n xs (consider n x heap) z p (consider-Descends n x heap d)
      (consider_keeps n x z heap p d e)

choose_decides :
    (n : ℕ) (xs heap : List EvictionItem) (z : EvictionItem)
    → 0 < n
    → Descends heap
    → Elem z xs
    → IsDecided n z (choose n xs heap)
unfolding choose
choose_decides n [] heap z p d e = absurd e
choose_decides n (x ∷ xs) heap z p d (inl here) =
    choose_keeps n xs (consider n x heap) z p (consider-Descends n x heap d)
      (subst (λ i. IsDecided n i (consider n x heap)) (sym here) (consider_decides n x heap d))
choose_decides n (x ∷ xs) heap z p d (inr there) =
    choose_decides n xs (consider n x heap) z p (consider-Descends n x heap d) there

length-choose :
    (n : ℕ) (xs heap : List EvictionItem)
    → 0 < n
    → length heap ≤ n
    → length (choose n xs heap)
      ≡ (if ltb (length heap + length xs) n then length heap + length xs else n)
unfolding choose
length-choose n [] heap p l = ground arith
length-choose n (x ∷ xs) heap p l = ground (
  arith,
  length-consider n x heap p,
  length-choose n xs (consider n x heap) p (ground (arith, length-consider n x heap p)),
)

choose-Elem :
    (n : ℕ) (xs heap : List EvictionItem) (z : EvictionItem)
    → Elem z (choose n xs heap)
    → Elem z xs ⊎ Elem z heap
unfolding choose
choose-Elem n [] heap z e = inr e
choose-Elem n (x ∷ xs) heap z e = elim (choose-Elem n xs (consider n x heap) z e) [
  | inl later ↦ inl (inr later)
  | inr held ↦ elim (consider-Elem n x z heap held) [
    | inl here ↦ inl (inl here)
    | inr before ↦ inr before
  ]
]

-- As many items are chosen as are to be evicted, or all if they are fewer; what is chosen is among them; and each item is
-- chosen, or was accessed no earlier than every item that is chosen.
pub choose-IsDecided :
    (n : ℕ) (xs : List EvictionItem)
    → 0 < n
    → (length (choose n xs []) ≡ (if ltb (length xs) n then length xs else n))
      × ((z : EvictionItem) → Elem z (choose n xs []) → Elem z xs)
      × ((z : EvictionItem)
          → Elem z xs
          → Elem z (choose n xs []) ⊎ AtMost z.last_accessed (choose n xs []))
choose-IsDecided n xs p = (
  ground (arith, length-choose n xs [] p (omega arith)),
  λ z e. elim (choose-Elem n xs [] z e) [ inl there ↦ there | inr none_there ↦ absurd none_there ],
  λ z e. elim (choose_decides n xs [] z p tt e) [ inl there ↦ inl there | inr out ↦ inr out.0 ],
)
