-- ===== src/Emission/Rebind/Resolve.antt =====
-- Which ids RebindByFingerprint picks.
use seven_db.Common.{
  ℕ, ◌∙◌, ◌≡◌, ◌⊎◌, inl, inr, refl, String, Bool, true, false, Option, none, some, [], ◌∷◌, arith,
  nat_beq, Bool-cases,
}
use seven_db.Common.Comparable.{◌==◌, nat_key, string_key}
use seven_db.Common.GoMap.{GoMap, has, keys}
use seven_db.Common.Strconv.{
  format_uint, split_colon, parse_uint, Parsed, parsed, syntax_error, range_error,
}
use seven_db.Emission.Manager.{Manager}
use seven_db.Emission.Rebind.{
  Resolved, sub_of, first_key, knows, find_sub, resolve_exact, resolve_prefix, resolve_suffix,
  resolve, by_prefix, by_suffix, infer_fp, rebind_suffix, rebind_to, rebind_by_fingerprint,
}
use text.Mathlib.TextEquality.{eq_iff}

first_key-has :
    {V : Type 0} (test : String → Bool) (m : GoMap String V)
    → (first_key test (keys m) ≡ "") ⊎ (has m (first_key test (keys m)) ≡ true)
unfolding first_key has
first_key-has test [] = inl refl
first_key-has test ((k, v) ∷ m) = ground (arith, first_key-has test m, eq_iff k k)

find_sub-knows :
    (test : String → Bool) (m : Manager)
    → (find_sub test m ≡ "") ⊎ (knows m (find_sub test m) ≡ true)
unfolding find_sub
find_sub-knows test m = ground (
  arith,
  first_key-has test m.ob.by_sub,
  first_key-has test m.last_ack,
  first_key-has test m.compact_through,
)

abbrev IsFound : Manager → String → Type 0
IsFound m sub = (sub ≡ "") ⊎ (knows m sub ≡ true)

abbrev IsOf : String → String → Type 0
IsOf client sub = (sub ≡ "") ⊎ ((part : String) × (sub ≡ sub_of client part))

old-infer_fp :
    (old client : String) (o : Option (String × String)) → (infer_fp old client o).old_sub ≡ old
unfolding infer_fp
old-infer_fp old client none = refl
old-infer_fp old client (some (a, b)) = ground arith

new-infer_fp :
    (old client : String) (o : Option (String × String))
    → IsOf client (infer_fp old client o).new_sub
unfolding infer_fp
new-infer_fp old client none = inl refl
new-infer_fp old client (some (a, b)) = go (parse_uint b) refl
  where
    go : (p : Parsed) → parse_uint b ≡ p → IsOf client (infer_fp old client (some (a, b))).new_sub
    go (parsed v) h = rw (h, infer_fp) (inr (b, refl))
    go syntax_error h = rw (h, infer_fp) (inl refl)
    go range_error h = rw (h, infer_fp) (inl refl)

module _ (m : Manager) (fp : ℕ) (old_client new_client : String) where
  exact-IsFound : IsFound m (resolve_exact m fp old_client new_client).old_sub
  unfolding resolve_exact
  exact-IsFound = ground arith

  prefix-IsFound : IsFound m (resolve_prefix m old_client new_client).old_sub
  unfolding resolve_prefix
  prefix-IsFound =
      let old = find_sub (by_prefix old_client) m in
      ground (
        arith,
        old-infer_fp old new_client (split_colon old),
        find_sub-knows (by_prefix old_client) m,
      )

  prefix-new : IsOf new_client (resolve_prefix m old_client new_client).new_sub
  unfolding resolve_prefix
  prefix-new = elim (Bool-cases (old_client == "")) [
    | inl empty ↦ inl (ground arith)
    | inr client ↦ elim (Bool-cases (find_sub (by_prefix old_client) m == "")) [
      | inl nothing ↦ inl (ground arith)
      | inr something ↦ rw (client, something, resolve_prefix) (new-infer_fp _ new_client _)
    ]
  ]

  suffix-IsFound : (r : Resolved) → IsFound m r.old_sub → IsFound m (resolve_suffix m r).old_sub
  unfolding resolve_suffix
  suffix-IsFound r h = ground (arith, find_sub-knows (by_suffix r.fp) m)

  suffix-new : (r : Resolved) → (resolve_suffix m r).new_sub ≡ r.new_sub
  unfolding resolve_suffix
  suffix-new r = ground arith

  resolve-IsFound : IsFound m (resolve m fp old_client new_client).old_sub
  unfolding resolve
  resolve-IsFound = elim (Bool-cases (nat_beq fp 0)) [
    | inl zero_fp ↦ rw (zero_fp, resolve) (suffix-IsFound _ prefix-IsFound)
    | inr some_fp ↦ rw (some_fp, resolve) (suffix-IsFound _ exact-IsFound)
  ]

  resolve-new : IsOf new_client (resolve m fp old_client new_client).new_sub
  unfolding resolve
  resolve-new = elim (Bool-cases (nat_beq fp 0)) [
    | inl zero_fp ↦ rw (zero_fp, resolve) (rw suffix-new prefix-new)
    | inr some_fp ↦
        rw (some_fp, resolve) (rw suffix-new (unfold resolve_exact in inr (format_uint fp, refl)))
  ]

-- what a rebind comes to: nothing, or a move from a known id to an id of the new client
abbrev pub IsRebind : Manager → String → Manager × String × String × ℕ → Type 0
IsRebind m client r =
    ((r.1 ≡ "") × (r.0 ≡ m) × (r.3 ≡ 0))
    ⊎ ((knows m r.1 ≡ true)
        × ((part : String) × (r.2 ≡ sub_of client part))
        × (r ≡ rebind_to r.1 r.2 m))

rebind_to_self :
    (old new : String) (m : Manager)
    → rebind_to old new m ≡ rebind_to (rebind_to old new m).1 (rebind_to old new m).2 m
unfolding rebind_to
rebind_to_self old new m = ground arith

rebind_to_ids :
    (old new : String) (m : Manager)
    → ((rebind_to old new m).1 ≡ old) × ((rebind_to old new m).2 ≡ new)
unfolding rebind_to
rebind_to_ids old new m = ground arith

rebind_to-IsRebind :
    (m : Manager) (client old new part : String)
    → IsFound m old
    → (old == "") ≡ false
    → new ≡ sub_of client part
    → IsRebind m client (rebind_to old new m)
rebind_to-IsRebind m client old new part found some_old e =
    let ids = rebind_to_ids old new m in
    inr (ground (arith, eq_iff old "", ids), (part, ids.1 ∙ e), rebind_to_self old new m)

-- A rebind changes nothing and reports no old id, or it moves a subscription that the manager knows
-- to an id that begins with the new client's id.
pub rebind_by_fingerprint-IsRebind :
    (fp : ℕ) (old_client new_client : String) (m : Manager)
    → IsRebind m new_client (rebind_by_fingerprint fp old_client new_client m)
unfolding rebind_by_fingerprint
rebind_by_fingerprint-IsRebind fp old_client new_client m = elim (Bool-cases (r.old_sub == "")) [
  | inl nothing ↦ rw (nothing, rebind_by_fingerprint) (inl (refl, refl, refl))
  | inr some_old ↦ elim (Bool-cases (r.new_sub == "")) [
    | inl no_new ↦
        rw (some_old, no_new, rebind_by_fingerprint) (by_split (split_colon r.old_sub) some_old)
    | inr some_new ↦ rw (some_old, some_new, rebind_by_fingerprint) (to_new some_old some_new)
  ]
]
  where
    r : Resolved
    r = resolve m fp old_client new_client

    found : IsFound m r.old_sub
    found = resolve-IsFound m fp old_client new_client

    by_split :
        (o : Option (String × String))
        → (r.old_sub == "") ≡ false
        → IsRebind m new_client (rebind_suffix m r.old_sub new_client o)
    by_split none h = unfold rebind_suffix in inl (refl, refl, refl)
    by_split (some (a, b)) h =
        unfold rebind_suffix in
        rebind_to-IsRebind m new_client r.old_sub (sub_of new_client b) b found h refl

    to_new :
        (r.old_sub == "") ≡ false
        → (r.new_sub == "") ≡ false
        → IsRebind m new_client (rebind_to r.old_sub r.new_sub m)
    to_new h k = elim (resolve-new m fp old_client new_client) [
      | inl empty ↦ absurd (ground (arith, eq_iff r.new_sub ""))
      | inr (part, e) ↦ rebind_to-IsRebind m new_client r.old_sub r.new_sub part found h e
    ]
