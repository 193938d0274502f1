-- ===== src/Store/SetExpiry.antt =====
-- internal/store/expire.go, EvaluateAndSetExpiry. strings.ToUpper is a parameter.
pub mod Verdict
use seven_db.Common.{
  ℕ, ◌≡◌, refl, ap, ◌∙◌, String, Bool, true, false, Option, none, some, List, [], ◌∷◌, ◌&&◌, ◌||◌,
  not, ◌⊎◌, if◌then◌else◌, ltb, arith, Bool-cases, inl, inr,
}
use seven_db.Common.Comparable.{◌==◌, string_key}
use text.Mathlib.TextEquality.{eq_iff}
use seven_db.Store.{Store, get_expiry, get_helper, set_unix_time_expiry}

-- the errors, and the options that were seen
pub data ExpiryError : Type 0 where
  unsupported_option : String → ExpiryError
  gt_and_lt : ExpiryError
  nx_and_others : ExpiryError

pub record ExpiryFlags : Type 0 where
  pub should_set : Bool
  pub nx : Bool
  pub xx : Bool
  pub gt : Bool
  pub lt : Bool

abbrev pub no_flags : ExpiryFlags
no_flags = record { should_set = false; nx = false; xx = false; gt = false; lt = false }

abbrev pub is_above : ℕ → Option ℕ → Bool
is_above new none = false
is_above new (some prev) = ltb prev new

abbrev pub is_below : ℕ → Option ℕ → Bool
is_below new none = false
is_below new (some prev) = ltb new prev

abbrev pub is_set : Option ℕ → Bool
is_set none = false
is_set (some prev) = true

-- a turn of the loop over the options, or none for an option that is not supported
unfoldable pub add_option : ℕ → Option ℕ → String → ExpiryFlags → Option ExpiryFlags
add_option new prev c f =
    if c == "NX"
    then some (record f { nx = true; should_set = f.should_set || not (is_set prev) })
    else if c == "XX"
    then some (record f { xx = true; should_set = f.should_set || is_set prev })
    else if c == "GT"
    then some (record f { gt = true; should_set = f.should_set || is_above new prev })
    else if c == "LT"
    then some (record f { lt = true; should_set = f.should_set || is_below new prev })
    else none

module _ (to_upper : String → String) where
  unfoldable pub scan_options : ℕ → Option ℕ → List String → ExpiryFlags → ExpiryError ⊎ ExpiryFlags
  unfolding add_option
  scan_options new prev [] f = inr f
  scan_options new prev (c ∷ cs) f = elim (add_option new prev (to_upper c) f) [
    | none ↦ inl (unsupported_option c)
    | some g ↦ scan_options new prev cs g
  ]

module _ {V : Type 0} where
  -- the checks after the loop
  unfoldable pub settle :
      ℕ → Option ℕ → ℕ → ExpiryError ⊎ ExpiryFlags → Store V → (ExpiryError ⊎ Bool) × Store V
  settle new prev obj (inl e) s = (inl e, s)
  settle new prev obj (inr f) s =
      if not f.nx && f.gt && f.lt
      then (inl gt_and_lt, s)
      else if f.nx && (f.xx || f.gt || f.lt)
      then (inl nx_and_others, s)
      else if f.should_set
      then (inr true, set_unix_time_expiry obj new s)
      else if f.xx && not (is_set prev)
      then (inr false, set_unix_time_expiry obj new s)
      else (inr false, s)

  unfoldable pub set_expiry_of :
      (String → String) → List String → ℕ → ℕ → Store V → (ExpiryError ⊎ Bool) × Store V
  unfolding settle scan_options
  set_expiry_of to_upper [] new obj s = (inr true, set_unix_time_expiry obj new s)
  set_expiry_of to_upper (c ∷ cs) new obj s =
      settle new (get_expiry obj s) obj
        (scan_options to_upper new (get_expiry obj s) (c ∷ cs) no_flags) s

  unfoldable pub evaluate_and_set_expiry :
      (String → String) → ℕ → List String → ℕ → String → Store V → (ExpiryError ⊎ Bool) × Store V
  unfolding set_expiry_of
  evaluate_and_set_expiry to_upper now cs new k s =
      let found = get_helper now true k s in
      elim found.0 [
        | none ↦ (inr false, found.1)
        | some obj ↦ set_expiry_of to_upper cs new obj found.1
      ]

-- the options of a call, in any order and with any repetition
abbrev pub mentions : (String → String) → String → List String → Bool
mentions to_upper o [] = false
mentions to_upper o (c ∷ cs) = (to_upper c == o) || mentions to_upper o cs

abbrev pub is_option : String → Bool
is_option c = (c == "NX") || (c == "XX") || (c == "GT") || (c == "LT")

abbrev pub first_unsupported : (String → String) → List String → Option String
first_unsupported to_upper [] = none
first_unsupported to_upper (c ∷ cs) =
    if is_option (to_upper c) then first_unsupported to_upper cs else some c

-- the flags that the options amount to
abbrev pub flags_of : (String → String) → ℕ → Option ℕ → List String → ExpiryFlags
flags_of to_upper new prev cs = record {
  should_set =
      (mentions to_upper "NX" cs && not (is_set prev))
      || (mentions to_upper "XX" cs && is_set prev)
      || (mentions to_upper "GT" cs && is_above new prev)
      || (mentions to_upper "LT" cs && is_below new prev);
  nx = mentions to_upper "NX" cs;
  xx = mentions to_upper "XX" cs;
  gt = mentions to_upper "GT" cs;
  lt = mentions to_upper "LT" cs;
}

abbrev pub join : ExpiryFlags → ExpiryFlags → ExpiryFlags
join f g = record {
  should_set = f.should_set || g.should_set;
  nx = f.nx || g.nx;
  xx = f.xx || g.xx;
  gt = f.gt || g.gt;
  lt = f.lt || g.lt;
}

abbrev pub scanned : Option String → ExpiryFlags → ExpiryError ⊎ ExpiryFlags
scanned none f = inr f
scanned (some c) f = inl (unsupported_option c)

pub scan_options_from :
    (to_upper : String → String) (new : ℕ) (prev : Option ℕ) (cs : List String) (f : ExpiryFlags)
    → scan_options to_upper new prev cs f
      ≡ scanned (first_unsupported to_upper cs) (join f (flags_of to_upper new prev cs))
unfolding scan_options add_option
scan_options_from to_upper new prev [] f = ap inr (ground arith)
scan_options_from to_upper new prev (c ∷ cs) f =
    elim (Bool-cases (◌==◌ {K = String} (to_upper c) "NX")) [
      | inl nx ↦
          rw (scan_options, (eq_iff (to_upper c) "NX").0 nx)
            (scan_options_from to_upper new prev cs
                (record f { nx = true; should_set = f.should_set || not (is_set prev) })
              ∙ ap (scanned (first_unsupported to_upper cs)) (ground arith))
      | inr not_nx ↦ elim (Bool-cases (◌==◌ {K = String} (to_upper c) "XX")) [
        | inl xx ↦
            rw (scan_options, (eq_iff (to_upper c) "XX").0 xx)
              (scan_options_from to_upper new prev cs
                  (record f { xx = true; should_set = f.should_set || is_set prev })
                ∙ ap (scanned (first_unsupported to_upper cs)) (ground arith))
        | inr not_xx ↦ elim (Bool-cases (◌==◌ {K = String} (to_upper c) "GT")) [
          | inl gt ↦
              rw (scan_options, (eq_iff (to_upper c) "GT").0 gt)
                (scan_options_from to_upper new prev cs
                    (record f { gt = true; should_set = f.should_set || is_above new prev })
                  ∙ ap (scanned (first_unsupported to_upper cs)) (ground arith))
          | inr not_gt ↦ elim (Bool-cases (◌==◌ {K = String} (to_upper c) "LT")) [
            | inl lt ↦
                rw (scan_options, (eq_iff (to_upper c) "LT").0 lt)
                  (scan_options_from to_upper new prev cs
                      (record f { lt = true; should_set = f.should_set || is_below new prev })
                    ∙ ap (scanned (first_unsupported to_upper cs)) (ground arith))
            | inr not_lt ↦ rw (scan_options, not_nx, not_xx, not_gt, not_lt) refl
          ]
        ]
      ]
    ]
