-- ===== src/Store/SetExpiry/Verdict.antt =====
-- What EvaluateAndSetExpiry comes to, as the options say it.
use seven_db.Common.{
  ℕ, ◌≡◌, refl, sym, ap, ◌∙◌, String, Bool, true, false, Option, none, some, List, [], ◌∷◌, ◌&&◌,
  ◌||◌, not, ◌⊎◌, inl, inr, if◌then◌else◌, arith, ltb, Bool-cases, Option-cases,
}
use seven_db.Common.Comparable.{◌==◌, string_key, nat_key}
use seven_db.Common.GoMap.{get}
use seven_db.Common.GoMap.Laws.{get-put}
use seven_db.Store.{Store, get_expiry, get_helper, set_unix_time_expiry, touch, reg_put}
use seven_db.Store.SetExpiry.{
  ExpiryError, unsupported_option, gt_and_lt, nx_and_others, no_flags, is_above, is_below, is_set,
  settle, set_expiry_of, evaluate_and_set_expiry, mentions, first_unsupported, flags_of, scanned,
  scan_options_from,
}

-- an error, a new expiry that is reported or not, and none
pub data Verdict : Type 0 where
  refused : ExpiryError → Verdict
  renewed : Verdict
  renewed_silently : Verdict
  kept : Verdict

-- an option agrees to the new expiry: NX where there is none, XX where there is one, GT to a later one
-- and LT to an earlier one
abbrev pub agrees : ℕ → Option ℕ → String → Bool
agrees new none o = o == "NX"
agrees new (some prev) o =
    (o == "XX") || ((o == "GT") && ltb prev new) || ((o == "LT") && ltb new prev)

abbrev pub any_agrees : (String → String) → ℕ → Option ℕ → List String → Bool
any_agrees to_upper new prev [] = false
any_agrees to_upper new prev (c ∷ cs) =
    agrees new prev (to_upper c) || any_agrees to_upper new prev cs

-- of supported options: whether NX, XX, GT and LT are among them, and whether one agrees
abbrev pub weighed : Bool → Bool → Bool → Bool → Bool → Verdict
weighed nx xx gt lt agreed =
    if nx && (xx || gt || lt)
    then refused nx_and_others
    else if gt && lt
    then refused gt_and_lt
    else if agreed
    then renewed
    else if xx
    then renewed_silently
    else kept

abbrev pub supported_only : Option String → Verdict → Verdict
supported_only none v = v
supported_only (some c) v = refused (unsupported_option c)

abbrev pub verdict : (String → String) → ℕ → Option ℕ → List String → Verdict
verdict to_upper new prev cs = supported_only (first_unsupported to_upper cs) (
    weighed (mentions to_upper "NX" cs) (mentions to_upper "XX" cs) (mentions to_upper "GT" cs)
      (mentions to_upper "LT" cs) (any_agrees to_upper new prev cs))

-- the result that is reported
abbrev pub reported : Verdict → ExpiryError ⊎ Bool
reported (refused e) = inl e
reported renewed = inr true
reported renewed_silently = inr false
reported kept = inr false

abbrev pub renews : Verdict → Bool
renews (refused e) = false
renews renewed = true
renews renewed_silently = true
renews kept = false

or_swap : (a b m n : Bool) → (a || b) || (m || n) ≡ (a || m) || (b || n)
or_swap a b m n = ground arith

or_and : (a b p : Bool) → (a && p) || (b && p) ≡ (a || b) && p
or_and a b p = ground arith

-- four options, each of one and of others
four_options :
    (a b c d a' b' c' d' p q r t : Bool)
    → ((a && p) || (b && q) || (c && r) || (d && t))
        || ((a' && p) || (b' && q) || (c' && r) || (d' && t))
      ≡ ((a || a') && p) || ((b || b') && q) || ((c || c') && r) || ((d || d') && t)
four_options a b c d a' b' c' d' p q r t =
    or_swap ((a && p) || (b && q) || (c && r)) (d && t) ((a' && p) || (b' && q) || (c' && r))
      (d' && t)
    ∙ rw
        (
          or_swap ((a && p) || (b && q)) (c && r) ((a' && p) || (b' && q)) (c' && r),
          or_swap (a && p) (b && q) (a' && p) (b' && q),
          or_and a a' p,
          or_and b b' q,
          or_and c c' r,
          or_and d d' t,
        )
        refl

-- the same, with a term for each option
abbrev votes : ℕ → Option ℕ → String → Bool
votes new prev o =
    ((o == "NX") && not (is_set prev))
    || ((o == "XX") && is_set prev)
    || ((o == "GT") && is_above new prev)
    || ((o == "LT") && is_below new prev)

agrees-votes : (new : ℕ) (prev : Option ℕ) (o : String) → agrees new prev o ≡ votes new prev o
agrees-votes new none o = ground arith
agrees-votes new (some prev) o = ground arith

any_agrees-flags_of :
    (to_upper : String → String) (new : ℕ) (prev : Option ℕ) (cs : List String)
    → any_agrees to_upper new prev cs ≡ (flags_of to_upper new prev cs).should_set
any_agrees-flags_of to_upper new prev [] = refl
any_agrees-flags_of to_upper new prev (c ∷ cs) =
    let o = to_upper c in
    ap (λ b. b || any_agrees to_upper new prev cs) (agrees-votes new prev o)
    ∙ ap (λ b. votes new prev o || b) (any_agrees-flags_of to_upper new prev cs)
    ∙ four_options (o == "NX") (o == "XX") (o == "GT") (o == "LT") (mentions to_upper "NX" cs)
        (mentions to_upper "XX" cs) (mentions to_upper "GT" cs) (mentions to_upper "LT" cs)
        (not (is_set prev)) (is_set prev) (is_above new prev) (is_below new prev)

-- with an expiry, XX agrees
xx_agrees :
    (to_upper : String → String) (new : ℕ) (prev : Option ℕ) (cs : List String)
    → is_set prev ≡ true
    → mentions to_upper "XX" cs ≡ true
    → any_agrees to_upper new prev cs ≡ true
xx_agrees to_upper new none cs h k = absurd (ground arith)
xx_agrees to_upper new (some prev) [] h k = absurd (ground arith)
xx_agrees to_upper new (some prev) (c ∷ cs) h k =
    ground (arith, xx_agrees to_upper new (some prev) cs h)

module _ {V : Type 0} where
  abbrev settled : ℕ → ℕ → Verdict → Store V → (ExpiryError ⊎ Bool) × Store V
  settled new obj v t = (reported v, if renews v then set_unix_time_expiry obj new t else t)

  settle-weighed :
      (new : ℕ) (prev : Option ℕ) (obj : ℕ) (nx xx gt lt should : Bool) (t : Store V)
      → (is_set prev ≡ true → xx ≡ true → should ≡ true)
      → settle new prev obj
          (inr (record { should_set = should; nx = nx; xx = xx; gt = gt; lt = lt }))
          t
        ≡ settled new obj (weighed nx xx gt lt should) t
  unfolding settle
  settle-weighed new prev obj nx xx gt lt should t h = ground arith

  settle-scanned :
      (to_upper : String → String) (new : ℕ) (prev : Option ℕ) (obj : ℕ) (cs : List String)
      (t : Store V)
      → settle new prev obj
          (scanned (first_unsupported to_upper cs) (flags_of to_upper new prev cs))
          t
        ≡ settled new obj (verdict to_upper new prev cs) t
  unfolding settle
  settle-scanned to_upper new prev obj cs t = elim (Option-cases (first_unsupported to_upper cs)) [
    | inl supported ↦ rw supported (
        settle-weighed new prev obj (mentions to_upper "NX" cs) (mentions to_upper "XX" cs)
          (mentions to_upper "GT" cs) (mentions to_upper "LT" cs)
          (flags_of to_upper new prev cs).should_set t
          (λ h k.
            sym (any_agrees-flags_of to_upper new prev cs) ∙ xx_agrees to_upper new prev cs h k)
        ∙ ap
            (λ b.
              settled new obj
                (weighed (mentions to_upper "NX" cs) (mentions to_upper "XX" cs)
                  (mentions to_upper "GT" cs) (mentions to_upper "LT" cs) b)
                t)
            (sym (any_agrees-flags_of to_upper new prev cs)))
    | inr (c, other) ↦ rw other refl
  ]

  get_expiry-settled :
      (new obj : ℕ) (v : Verdict) (t : Store V) (j : ℕ)
      → get_expiry j (settled new obj v t).1
        ≡ (if renews v && (obj == j) then some new else get_expiry j t)
  unfolding set_unix_time_expiry reg_put
  get_expiry-settled new obj v t j = elim (Bool-cases (renews v)) [
    | inl does ↦ rw does (get-put t.expires.m obj new j)
    | inr does_not ↦ rw does_not refl
  ]

  get_helper-expires :
      (now : ℕ) (k : String) (obj : ℕ) (s : Store V)
      → (get_helper now true k s).0 ≡ some obj
      → (get_helper now true k s).1.expires ≡ s.expires
  unfolding get_helper touch
  get_helper-expires now k obj s found = ground (arith, found)

evaluate_and_set_expiry-settled :
    {V : Type 0} (to_upper : String → String) (now : ℕ) (c : String) (cs : List String) (new : ℕ)
    (k : String) (s : Store V) (obj : ℕ)
    → (get_helper now true k s).0 ≡ some obj
    → evaluate_and_set_expiry to_upper now (c ∷ cs) new k s
      ≡ settled new obj
          (verdict to_upper new (get_expiry obj s) (c ∷ cs))
          (get_helper now true k s).1
unfolding evaluate_and_set_expiry set_expiry_of
evaluate_and_set_expiry-settled to_upper now c cs new k s obj found =
    let t = (get_helper now true k s).1 in
    rw (evaluate_and_set_expiry, found)
      (ap (λ r. settle new (get_expiry obj t) obj r t)
          (scan_options_from to_upper new (get_expiry obj t) (c ∷ cs) no_flags)
        ∙ settle-scanned to_upper new (get_expiry obj t) obj (c ∷ cs) t
        ∙ ap (λ e. settled new obj (verdict to_upper new (get e.m obj) (c ∷ cs)) t)
            (get_helper-expires now k obj s found))

-- For a key with an object that has not expired, EvaluateAndSetExpiry with options comes to this verdict
-- on them, whatever their order and number, and changes the expiry of no other object: the first option that is
-- none of NX, XX, GT and LT is an error; so is NX together with another, and without NX the pair of GT and
-- LT; otherwise the new expiry is set and reported where one option agrees to it (NX where there is no
-- expiry, XX where there is one, GT where there is an earlier one, LT where there is a later one); where
-- none agrees, XX sets it without a report, and otherwise the expiry stays.
pub evaluate_and_set_expiry-verdict :
    {V : Type 0} (to_upper : String → String) (now : ℕ) (c : String) (cs : List String) (new : ℕ)
    (k : String) (s : Store V) (obj : ℕ)
    → (get_helper now true k s).0 ≡ some obj
    → ((evaluate_and_set_expiry to_upper now (c ∷ cs) new k s).0
        ≡ reported (verdict to_upper new (get_expiry obj s) (c ∷ cs)))
      × ((j : ℕ)
          → get_expiry j (evaluate_and_set_expiry to_upper now (c ∷ cs) new k s).1 ≡ (
              if renews (verdict to_upper new (get_expiry obj s) (c ∷ cs)) && (obj == j)
              then some new
              else get_expiry j s))
evaluate_and_set_expiry-verdict to_upper now c cs new k s obj found =
    let same = get_helper-expires now k obj s found in
    let v = verdict to_upper new (get_expiry obj s) (c ∷ cs) in
    let done = evaluate_and_set_expiry-settled to_upper now c cs new k s obj found in
    (
      ap (λ r. r.0) done,
      λ j.
          ap (λ r. get_expiry j r.1) done
          ∙ get_expiry-settled new obj v (get_helper now true k s).1 j
          ∙ ap (λ r. if renews v && (obj == j) then some new else get r.m j) same,
    )
