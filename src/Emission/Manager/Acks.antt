-- ===== src/Emission/Manager/Acks.antt =====
-- ValidateAck over a stream of acknowledgments.
use seven_db.Common.{
  ap, subst, ◌∙◌, ◌≡◌, ◌↔◌, inl, inr, refl, String, Bool, true, false, Option, none, some, List, [],
  ◌∷◌, arith, if◌then◌else◌, Bool-cases,
}
use seven_db.Common.Comparable.{◌==◌, string_key}
use seven_db.Common.GoMap.{get}
use seven_db.Common.GoMap.Laws.{get-put, eq_self}
use seven_db.Common.Lists.{All}
use seven_db.Emission.Types.{EmitSeq, ClientAck, Precedes, Upto}
use seven_db.Emission.Manager.{Manager, validate_ack}
use text.Mathlib.TextEquality.{eq_iff}

abbrev pub AfterLast : Option EmitSeq → EmitSeq → Type 0
AfterLast none seq = Unit
AfterLast (some last) seq = Precedes last seq

-- An acknowledgment is accepted exactly if the subscription has none yet or its last one precedes it.
pub validate_ack_iff :
    (sub : String) (seq : EmitSeq) (m : Manager)
    → ((validate_ack sub seq m).1 ≡ true) ↔ AfterLast (get m.last_ack sub) seq
unfolding validate_ack
validate_ack_iff sub seq m = ground arith

-- The last position of every subscription after an acknowledgment.
pub last-validate_ack :
    (sub : String) (seq : EmitSeq) (m : Manager) (s : String)
    → get (validate_ack sub seq m).0.last_ack s ≡ (
        if (validate_ack sub seq m).1
        then if sub == s then some seq else get m.last_ack s
        else get m.last_ack s)
unfolding validate_ack
last-validate_ack sub seq m s = ground (arith, get-put m.last_ack sub seq s)

-- the acknowledgments of a stream that are accepted, in order
unfoldable pub accepted : List ClientAck → Manager → List ClientAck
accepted [] m = []
accepted (a ∷ acks) m =
    let (m', valid) = validate_ack a.sub_id a.emit_seq m in
    let rest = accepted acks m' in if valid then a ∷ rest else rest

-- every acknowledgment precedes the later ones of its subscription
abbrev pub IsMonotone : List ClientAck → Type 0
IsMonotone [] = Unit
IsMonotone (a ∷ acks) =
    All (λ b. b.sub_id ≡ a.sub_id → Precedes a.emit_seq b.emit_seq) acks × IsMonotone acks

abbrev FromLast : String → EmitSeq → ClientAck → Type 0
FromLast sub seq b = b.sub_id ≡ sub → Precedes seq b.emit_seq

module _ (sub : String) (seq : EmitSeq) where
  accepted_head :
      (a : ClientAck) (m : Manager) (last : EmitSeq)
      → get m.last_ack sub ≡ some last
      → Upto seq last
      → (validate_ack a.sub_id a.emit_seq m).1 ≡ true
      → FromLast sub seq a
  accepted_head a m last h p ok here =
      let after : AfterLast (get m.last_ack a.sub_id) a.emit_seq =
        (validate_ack_iff a.sub_id a.emit_seq m).0 ok in
      let after' : AfterLast (some last) a.emit_seq =
        subst (λ o. AfterLast o a.emit_seq) (ap (get m.last_ack) here ∙ h) after in
      ground arith

  -- the last position after one more acknowledgment is not before the last one
  last-rises :
      (a : ClientAck) (m : Manager) (last : EmitSeq)
      → get m.last_ack sub ≡ some last
      → Upto seq last
      → (last' : EmitSeq) × (get (validate_ack a.sub_id a.emit_seq m).0.last_ack sub ≡ some last')
        × Upto seq last'
  last-rises a m last h p = elim (Bool-cases (validate_ack a.sub_id a.emit_seq m).1) [
    | inl ok ↦ elim (Bool-cases (a.sub_id == sub)) [
      | inl here ↦ (
        a.emit_seq,
        ground (arith, last-validate_ack a.sub_id a.emit_seq m sub),
        ground (arith, accepted_head a m last h p ok, eq_iff a.sub_id sub),
      )
      | inr there ↦ (last, ground (arith, last-validate_ack a.sub_id a.emit_seq m sub), p)
    ]
    | inr bad ↦ (last, ground (arith, last-validate_ack a.sub_id a.emit_seq m sub), p)
  ]

  accepted-above :
      (acks : List ClientAck) (m : Manager) (last : EmitSeq)
      → get m.last_ack sub ≡ some last
      → Upto seq last
      → All (FromLast sub seq) (accepted acks m)
  unfolding accepted
  accepted-above [] m last h p = tt
  accepted-above (a ∷ acks) m last h p =
      let (last', h', p') = last-rises a m last h p in
      go (validate_ack a.sub_id a.emit_seq m).1 refl
        (accepted-above acks (validate_ack a.sub_id a.emit_seq m).0 last' h' p')
    where
      go :
          (b : Bool)
          → (validate_ack a.sub_id a.emit_seq m).1 ≡ b
          → All (FromLast sub seq) (accepted acks (validate_ack a.sub_id a.emit_seq m).0)
          → All (FromLast sub seq) (
              if b
              then a ∷ accepted acks (validate_ack a.sub_id a.emit_seq m).0
              else accepted acks (validate_ack a.sub_id a.emit_seq m).0)
      go true ok rest = (accepted_head a m last h p ok, rest)
      go false bad rest = rest

-- Whatever acknowledgments arrive, those that are accepted rise strictly for each subscription, by
-- epoch counter and then by commit index.
pub accepted-IsMonotone : (acks : List ClientAck) (m : Manager) → IsMonotone (accepted acks m)
unfolding accepted
accepted-IsMonotone [] m = tt
accepted-IsMonotone (a ∷ acks) m =
    go (validate_ack a.sub_id a.emit_seq m).1 refl
      (accepted-IsMonotone acks (validate_ack a.sub_id a.emit_seq m).0)
  where
    go :
        (b : Bool)
        → (validate_ack a.sub_id a.emit_seq m).1 ≡ b
        → IsMonotone (accepted acks (validate_ack a.sub_id a.emit_seq m).0)
        → IsMonotone (
            if b
            then a ∷ accepted acks (validate_ack a.sub_id a.emit_seq m).0
            else accepted acks (validate_ack a.sub_id a.emit_seq m).0)
    go true ok rest = (
      accepted-above a.sub_id a.emit_seq acks _ a.emit_seq
          (ground (arith, last-validate_ack a.sub_id a.emit_seq m a.sub_id, eq_self a.sub_id))
          (inr (refl, omega arith)),
      rest,
    )
    go false bad rest = rest
