-- ===== src/Raft/Shadow/Entries.antt =====
-- Applying committed entries adds their envelopes to the shadow log, and their tuples to the validator.
use mathlib.Core.List.{append_assoc}
use seven_db.Common.{
  if◌then◌else◌, ℕ, refl, subst, Bool, Option, none, some, List, [], ◌∷◌, ◌++◌, if_keeps,
}
use seven_db.Common.Comparable.{◌==◌, string_key, nat_key}
use seven_db.Common.GoMap.{get}
use seven_db.Emission.Raft.{CommittedRecord, RaftLogRecord}
use seven_db.RaftWal.Frame.{Envelope, EnvelopeProto, keep_normal}
use seven_db.RaftWal.Frame.Folds.{normals}
use seven_db.Raft.Validator.{add_tuple}
use seven_db.Raft.Types.{
  Entry, EntryType, WireRecord, aborted, applied, normal, conf_change, conf_change_v2, other_type,
  Node, normal_envelope, conf_envelope,
}
use seven_db.Raft.Apply.{
  record_of, next_commit, answer, set_shadow, add_if_set, assign, finish, advance, shadow_normal,
  shadow_conf, deliver, apply_record, apply_decoded, decode, apply_entry, apply_entries,
}
use seven_db.Raft.Shadow.Agrees.{Shadows, one_more, nothing_more}

-- the envelopes that an entry adds to the shadow log
abbrev pub decoded_envelopes : Entry → Option WireRecord → List Envelope
decoded_envelopes ent none = []
decoded_envelopes ent (some wr) = normal_envelope ent wr ∷ []

abbrev pub entry_envelopes : (List ℕ → Option WireRecord) → Entry → List Envelope
entry_envelopes unmarshal ent = elim ent.entry_type [
  | normal ↦ decoded_envelopes ent (decode unmarshal ent.bytes)
  | conf_change ↦ conf_envelope ent ∷ []
  | conf_change_v2 ↦ conf_envelope ent ∷ []
  | other_type ↦ []
]

unfoldable pub all_envelopes : (List ℕ → Option WireRecord) → List Entry → List Envelope
all_envelopes unmarshal [] = []
all_envelopes unmarshal (ent ∷ ents) = entry_envelopes unmarshal ent ++ all_envelopes unmarshal ents

module _ {W : Type 0} {Fits : Envelope → Type 0} (proto : EnvelopeProto Fits)
    (handle : RaftLogRecord ℕ → W → W × Bool) (taken : CommittedRecord ℕ → Bool)
    (unmarshal : List ℕ → Option WireRecord) where
  -- of a node
  abbrev pub NodeShadows : Node W → List Envelope → Type 0
  NodeShadows s es = Shadows proto s.wal_shadow s.wal_validator es

  shadow_normal-Shadows :
      (ent : Entry) (wr : WireRecord) (s : Node W) (es : List Envelope)
      → NodeShadows s es
      → NodeShadows (shadow_normal proto ent wr s) (es ++ (normal_envelope ent wr ∷ []))
  unfolding shadow_normal set_shadow add_if_set add_tuple normals keep_normal
  shadow_normal-Shadows ent wr s es h =
      rw (h.wal_is, h.validator_is)
        (one_more proto es s.wal_shadow s.wal_validator (normal_envelope ent wr) h refl)

  shadow_conf-Shadows :
      (ent : Entry) (s : Node W) (es : List Envelope)
      → NodeShadows s es
      → NodeShadows (shadow_conf proto ent s) (es ++ (conf_envelope ent ∷ []))
  unfolding shadow_conf set_shadow add_if_set add_tuple normals keep_normal
  shadow_conf-Shadows ent s es h =
      rw (h.wal_is, h.validator_is)
        (one_more proto es s.wal_shadow s.wal_validator (conf_envelope ent) h refl)

  -- the rest of an entry leaves the shadow log alone
  deliver-Shadows :
      (ent : Entry) (wr : WireRecord) (waiter : Option ℕ) (n : ℕ) (s : Node W) (es : List Envelope)
      → NodeShadows s es
      → NodeShadows (deliver handle taken ent wr waiter n s) es
  unfolding deliver finish
  deliver-Shadows ent wr waiter n s es h =
      if_keeps (λ t. NodeShadows t es) (handle wr.log_record s.world).1
        (finish [] (answer waiter aborted) (handle wr.log_record s.world).0 s)
        (finish (if taken (record_of ent wr n) then record_of ent wr n ∷ [] else [])
          (answer waiter (applied n ent.index)) (handle wr.log_record s.world).0 s)
        h h

  apply_record-Shadows :
      (ent : Entry) (wr : WireRecord) (s : Node W) (es : List Envelope)
      → NodeShadows s es
      → NodeShadows (apply_record proto handle taken ent wr s) (es ++ (normal_envelope ent wr ∷ []))
  unfolding apply_record assign finish
  apply_record-Shadows ent wr s es h =
      let added = shadow_normal-Shadows ent wr s es h in
      let assigned = assign ent wr (shadow_normal proto ent wr s) in
      let waiter = get s.waiters_seq wr.seq in
      if_keeps (λ t. NodeShadows t (es ++ (normal_envelope ent wr ∷ [])))
        (wr.log_record.bucket_id == "")
        (finish [] (answer waiter (applied 0 ent.index)) s.world assigned)
        (deliver handle taken ent wr waiter (next_commit wr.log_record.bucket_id s) assigned) added
        (deliver-Shadows ent wr waiter (next_commit wr.log_record.bucket_id s) assigned
          (es ++ (normal_envelope ent wr ∷ [])) added)

  apply_decoded-Shadows :
      (ent : Entry) (wr : Option WireRecord) (s : Node W) (es : List Envelope)
      → NodeShadows s es
      → NodeShadows (apply_decoded proto handle taken ent wr s) (es ++ decoded_envelopes ent wr)
  unfolding apply_decoded
  apply_decoded-Shadows ent none s es h = nothing_more proto s.wal_shadow s.wal_validator es h
  apply_decoded-Shadows ent (some wr) s es h = apply_record-Shadows ent wr s es h

  apply_entry-Shadows :
      (ent : Entry) (s : Node W) (es : List Envelope)
      → NodeShadows s es
      → NodeShadows
          (apply_entry proto handle taken unmarshal ent s)
          (es ++ entry_envelopes unmarshal ent)
  unfolding apply_entry advance
  apply_entry-Shadows ent s es h = go ent.entry_type
    where
      go :
          (t : EntryType)
          → NodeShadows
              (elim t as (λ x. Node W) [
                | normal ↦ apply_decoded proto handle taken ent (decode unmarshal ent.bytes) s
                | conf_change ↦ advance ent (shadow_conf proto ent s)
                | conf_change_v2 ↦ advance ent (shadow_conf proto ent s)
                | other_type ↦ advance ent s
              ])
              (es ++ (elim t as (λ x. List Envelope) [
                | normal ↦ decoded_envelopes ent (decode unmarshal ent.bytes)
                | conf_change ↦ conf_envelope ent ∷ []
                | conf_change_v2 ↦ conf_envelope ent ∷ []
                | other_type ↦ []
              ]))
      go normal = apply_decoded-Shadows ent (decode unmarshal ent.bytes) s es h
      go conf_change = shadow_conf-Shadows ent s es h
      go conf_change_v2 = shadow_conf-Shadows ent s es h
      go other_type = nothing_more proto s.wal_shadow s.wal_validator es h

  pub apply_entries-Shadows :
      (ents : List Entry) (s : Node W) (es : List Envelope)
      → NodeShadows s es
      → NodeShadows
          (apply_entries proto handle taken unmarshal ents s)
          (es ++ all_envelopes unmarshal ents)
  unfolding apply_entries all_envelopes
  apply_entries-Shadows [] s es h = nothing_more proto s.wal_shadow s.wal_validator es h
  apply_entries-Shadows (ent ∷ ents) s es h =
      let added = entry_envelopes unmarshal ent in
      subst
        (NodeShadows (
          apply_entries proto handle taken unmarshal ents
            (apply_entry proto handle taken unmarshal ent s)))
        (append_assoc es added (all_envelopes unmarshal ents))
        (apply_entries-Shadows ents (apply_entry proto handle taken unmarshal ent s) (es ++ added)
          (apply_entry-Shadows ent s es h))
