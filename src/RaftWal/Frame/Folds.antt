-- ===== src/RaftWal/Frame/Folds.antt =====
-- The loops over a segment as folds of the envelopes that it holds.
use seven_db.Common.{
  ℕ, zero, suc, ◌≡◌, ◌⊎◌, refl, ap, Bool, true, false, Option, some, List, [], ◌∷◌, if◌then◌else◌,
  ltb, Bool-cases, inl, inr,
}
use seven_db.RaftWal.Frame.{
  Envelope, EnvelopeProto, WalError, Turn, end_of_file, fails, skip, found, next_envelope,
  callback_failed, max_index_loop, keep_normal, collect_loop, hard_state_or, hard_state_loop,
  replay_loop,
}
use seven_db.RaftWal.Frame.Scan.{scan_loop}

-- the greater of the start and the indices of the envelopes
unfoldable pub max_index : ℕ → List Envelope → ℕ
max_index max [] = max
max_index max (e ∷ es) = max_index (if ltb max e.raft_index then e.raft_index else max) es

-- what is kept of the normal entries
unfoldable pub normals : {A : Type 0} → (Envelope → A) → List Envelope → List A
normals f [] = []
normals f (e ∷ es) = keep_normal f e (normals f es)

-- the bytes of the last hard state
unfoldable pub last_hard_state : List ℕ → List Envelope → List ℕ
last_hard_state hs [] = hs
last_hard_state hs (e ∷ es) = last_hard_state (hard_state_or e.kind e.app_bytes hs) es

-- the calls of a callback on the envelopes, to the first that fails; an error that comes after them
unfoldable pub run_callback :
    {S : Type 0}
    → (Envelope → S → S × Bool)
    → List Envelope
    → Option WalError
    → S
    → S × Option WalError
run_callback cb [] err s = (s, err)
run_callback cb (e ∷ es) err s = elim (cb e s).1 [
  | true ↦ run_callback cb es err (cb e s).0
  | false ↦ ((cb e s).0, some callback_failed)
]

Turn-cases :
    (t : Turn)
    → (t ≡ end_of_file)
      ⊎ (((err : WalError) × (t ≡ fails err))
          ⊎ (((rest : List ℕ) × (t ≡ skip rest))
              ⊎ ((e : Envelope) × (rest : List ℕ) × (t ≡ found e rest))))
Turn-cases end_of_file = inl refl
Turn-cases (fails err) = inr (inl (err, refl))
Turn-cases (skip rest) = inr (inr (inl (rest, refl)))
Turn-cases (found e rest) = inr (inr (inr (e, rest, refl)))

module _ {Fits : Envelope → Type 0} (proto : EnvelopeProto Fits) where
  pub max_index_loop-scan :
      (fuel max : ℕ) (bs : List ℕ)
      → max_index_loop proto fuel max bs
        ≡ (max_index max (scan_loop proto fuel bs).0, (scan_loop proto fuel bs).1)
  unfolding max_index_loop scan_loop max_index
  max_index_loop-scan zero max bs = refl
  max_index_loop-scan (suc fuel) max bs = elim (Turn-cases (next_envelope proto bs)) [
    | inl e ↦ rw (e, max_index_loop, scan_loop) refl
    | inr (inl (err, e)) ↦ rw (e, max_index_loop, scan_loop) refl
    | inr (inr (inl (rest, e))) ↦
        rw (e, max_index_loop, scan_loop) (max_index_loop-scan fuel max rest)
    | inr (inr (inr (env, rest, e))) ↦
        rw (e, max_index_loop, scan_loop)
          (max_index_loop-scan fuel (if ltb max env.raft_index then env.raft_index else max) rest)
  ]

  pub collect_loop-scan :
      {A : Type 0} (f : Envelope → A) (fuel : ℕ) (bs : List ℕ)
      → collect_loop proto f fuel bs
        ≡ (normals f (scan_loop proto fuel bs).0, (scan_loop proto fuel bs).1)
  unfolding collect_loop scan_loop normals
  collect_loop-scan f zero bs = refl
  collect_loop-scan f (suc fuel) bs = elim (Turn-cases (next_envelope proto bs)) [
    | inl e ↦ rw (e, collect_loop, scan_loop) refl
    | inr (inl (err, e)) ↦ rw (e, collect_loop, scan_loop) refl
    | inr (inr (inl (rest, e))) ↦ rw (e, collect_loop, scan_loop) (collect_loop-scan f fuel rest)
    | inr (inr (inr (env, rest, e))) ↦
        rw (e, collect_loop, scan_loop)
          (ap (λ r. (keep_normal f env r.0, r.1)) (collect_loop-scan f fuel rest))
  ]

  pub hard_state_loop-scan :
      (fuel : ℕ) (hs bs : List ℕ)
      → hard_state_loop proto fuel hs bs
        ≡ (last_hard_state hs (scan_loop proto fuel bs).0, (scan_loop proto fuel bs).1)
  unfolding hard_state_loop scan_loop last_hard_state
  hard_state_loop-scan zero hs bs = refl
  hard_state_loop-scan (suc fuel) hs bs = elim (Turn-cases (next_envelope proto bs)) [
    | inl e ↦ rw (e, hard_state_loop, scan_loop) refl
    | inr (inl (err, e)) ↦ rw (e, hard_state_loop, scan_loop) refl
    | inr (inr (inl (rest, e))) ↦
        rw (e, hard_state_loop, scan_loop) (hard_state_loop-scan fuel hs rest)
    | inr (inr (inr (env, rest, e))) ↦
        rw (e, hard_state_loop, scan_loop)
          (hard_state_loop-scan fuel (hard_state_or env.kind env.app_bytes hs) rest)
  ]

  pub replay_loop-scan :
      {S : Type 0} (cb : Envelope → S → S × Bool) (fuel : ℕ) (bs : List ℕ) (s : S)
      → replay_loop proto cb fuel bs s
        ≡ run_callback cb (scan_loop proto fuel bs).0 (scan_loop proto fuel bs).1 s
  unfolding replay_loop scan_loop run_callback
  replay_loop-scan cb zero bs s = refl
  replay_loop-scan cb (suc fuel) bs s = elim (Turn-cases (next_envelope proto bs)) [
    | inl e ↦ rw (e, replay_loop, scan_loop) refl
    | inr (inl (err, e)) ↦ rw (e, replay_loop, scan_loop) refl
    | inr (inr (inl (rest, e))) ↦ rw (e, replay_loop, scan_loop) (replay_loop-scan cb fuel rest s)
    | inr (inr (inr (env, rest, e))) ↦ elim (Bool-cases (cb env s).1) [
      | inl good ↦
          rw (e, replay_loop, scan_loop, run_callback, good)
            (replay_loop-scan cb fuel rest (cb env s).0)
      | inr bad ↦ rw (e, replay_loop, scan_loop, run_callback, bad) refl
    ]
  ]
