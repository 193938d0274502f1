-- ===== src/Emission/Applier/Pipeline.antt =====
-- An event on its way through the log: the leader's proposals, and what every node makes of them.
use seven_db.Common.{ℕ, ◌<◌, ◌^◌, ◌≡◌, refl, ap, ◌∙◌, String, true, some, List, [], ◌∷◌}
use seven_db.Common.Comparable.{string_key}
use seven_db.Common.Strconv.{format_uint, value}
use seven_db.Common.Strconv.RoundTrip.{parse_uint-format_uint}
use seven_db.Emission.Types.{EmitSeq}
use seven_db.Emission.Manager.{World, apply_outbox_write, apply_outbox_purge, validate_ack}
use seven_db.Emission.Raft.{
  bytes, RaftLogRecord, Json, build_replication_record, seq_args, seq_of, parse_u64, is_ascii,
  all_ascii,
}
use seven_db.Emission.Raft.Ascii.{is_ascii-format_uint}
use seven_db.Emission.Applier.{
  Applier, apply_data_event, apply_write, apply_ack_at, apply_ack, apply_purge, apply_command,
  apply_decoded, apply_record,
}

-- the position fits the machine's integers, and its bucket is ASCII
pub record IsWritable (seq : EmitSeq) : Type 0 where
  pub epoch_fits : seq.epoch.epoch_counter < 2 ^ 64
  pub index_fits : seq.commit_index < 2 ^ 64
  pub bucket_ascii : is_ascii seq.epoch.bucket_uuid ≡ true

parse_u64-format_uint : (n : ℕ) → n < 2 ^ 64 → parse_u64 (format_uint n) ≡ n
parse_u64-format_uint n h = ap value (parse_uint-format_uint n h)

-- a position reads back from the arguments that it was written to
pub seq_of-format_uint :
    (seq : EmitSeq)
    → IsWritable seq
    → seq_of seq.epoch.bucket_uuid
        (format_uint seq.epoch.epoch_counter)
        (format_uint seq.commit_index)
      ≡ seq
seq_of-format_uint seq h =
    rw
      (
        parse_u64-format_uint seq.epoch.epoch_counter h.epoch_fits,
        parse_u64-format_uint seq.commit_index h.index_fits,
      )
      refl

pub all_ascii-write :
    (sub delta : String) (seq : EmitSeq)
    → IsWritable seq
    → is_ascii sub ≡ true
    → is_ascii delta ≡ true
    → all_ascii (sub ∷ seq_args seq (delta ∷ [])) ≡ true
unfolding all_ascii
all_ascii-write sub delta seq h hs hd =
    rw
      (
        hs,
        hd,
        h.bucket_ascii,
        is_ascii-format_uint seq.epoch.epoch_counter,
        is_ascii-format_uint seq.commit_index,
      )
      refl

pub all_ascii-seq :
    (sub : String) (seq : EmitSeq)
    → IsWritable seq
    → is_ascii sub ≡ true
    → all_ascii (sub ∷ seq_args seq []) ≡ true
unfolding all_ascii
all_ascii-seq sub seq h hs =
    rw
      (
        hs,
        h.bucket_ascii,
        is_ascii-format_uint seq.epoch.epoch_counter,
        is_ascii-format_uint seq.commit_index,
      )
      refl

module _ {B : Type 0} (json : Json B) where
  -- a record that was built is decoded on every node
  pub apply_built :
      (a : Applier) (idx : ℕ) (bucket cmd : String) (args : List String) (w : World)
      → is_ascii cmd ≡ true
      → all_ascii args ≡ true
      → apply_record json a idx (some (build_replication_record json bucket cmd args)) w
        ≡ apply_command json a idx (record { version = 1; cmd = cmd; args = args }) w
  unfolding apply_record apply_decoded
  apply_built a idx bucket cmd args w hc ha =
      rw
        (
          json.marshal_filled (record { version = 1; cmd = cmd; args = args }),
          json.unmarshal-marshal (record { version = 1; cmd = cmd; args = args }) hc ha,
        )
        refl

  pub write_applied :
      (b : Applier) (j : ℕ) (bucket sub delta : String) (seq : EmitSeq) (v : World)
      → IsWritable seq
      → is_ascii sub ≡ true
      → is_ascii delta ≡ true
      → apply_record json b j
          (some
            (build_replication_record json bucket "OUTBOX_WRITE" (sub ∷ seq_args seq (delta ∷ []))))
          v
        ≡ (apply_outbox_write sub seq (bytes delta) v, [])
  unfolding apply_command apply_write is_ascii
  write_applied b j bucket sub delta seq v h hs hd =
      apply_built b j bucket "OUTBOX_WRITE" (sub ∷ seq_args seq (delta ∷ [])) v refl
        (all_ascii-write sub delta seq h hs hd)
      ∙ ap (λ q. (apply_outbox_write sub q (bytes delta) v, [])) (seq_of-format_uint seq h)

  pub purge_applied :
      (b : Applier) (j : ℕ) (bucket sub : String) (seq : EmitSeq) (v : World)
      → IsWritable seq
      → is_ascii sub ≡ true
      → apply_record json b j
          (some (build_replication_record json bucket "OUTBOX_PURGE" (sub ∷ seq_args seq [])))
          v
        ≡ (apply_outbox_purge sub seq v, [])
  unfolding apply_command apply_purge all_ascii is_ascii
  purge_applied b j bucket sub seq v h hs =
      apply_built b j bucket "OUTBOX_PURGE" (sub ∷ seq_args seq []) v refl
        (all_ascii-seq sub seq h hs)
      ∙ ap (λ q. (apply_outbox_purge sub q v, [])) (seq_of-format_uint seq h)

  module _ (a : Applier) (leads : a.is_leader ≡ true) where
    -- A committed DATA_EVENT, built from ASCII text at a commit index and an epoch of 64 bits, changes
    -- nothing on the leader and makes it propose one record; every node that applies this record, at
    -- any later index, writes the event's bytes to its outbox at the index of the DATA_EVENT.
    pub apply_record-data_event :
        (idx : ℕ) (bucket sub delta : String) (w : World)
        → IsWritable (record { epoch = a.epoch; commit_index = idx })
        → is_ascii sub ≡ true
        → is_ascii delta ≡ true
        → (r : RaftLogRecord B) × (apply_record json a idx
              (some (build_replication_record json bucket "DATA_EVENT" (sub ∷ delta ∷ [])))
              w
            ≡ (w, r ∷ []))
          × ((b : Applier) (j : ℕ) (v : World)
              → apply_record json b j (some r) v ≡ (
                apply_outbox_write sub
                    (record { epoch = a.epoch; commit_index = idx })
                    (bytes delta)
                    v,
                [],
              ))
    unfolding apply_command apply_data_event all_ascii is_ascii
    apply_record-data_event idx bucket sub delta w h hs hd =
        let seq : EmitSeq = record { epoch = a.epoch; commit_index = idx } in
        (
          build_replication_record json a.epoch.bucket_uuid "OUTBOX_WRITE"
              (sub ∷ seq_args seq (delta ∷ [])),
          apply_built a idx bucket "DATA_EVENT" (sub ∷ delta ∷ []) w refl (rw (hs, hd) refl)
              ∙ rw leads refl,
          λ b j v. write_applied b j a.epoch.bucket_uuid sub delta seq v h hs hd,
        )

    -- A committed ACK that is accepted, built from ASCII text at a position of 64 bits, makes the
    -- leader propose one record, which on every node that applies it purges the subscription through
    -- the acknowledged position.
    pub apply_record-ack :
        (idx : ℕ) (bucket sub : String) (seq : EmitSeq) (w : World)
        → IsWritable seq
        → is_ascii sub ≡ true
        → (validate_ack sub seq w.mgr).1 ≡ true
        → (r : RaftLogRecord B) × (apply_record json a idx
              (some (build_replication_record json bucket "ACK" (sub ∷ seq_args seq [])))
              w
            ≡ (record w { mgr = (validate_ack sub seq w.mgr).0 }, r ∷ []))
          × ((b : Applier) (j : ℕ) (v : World)
              → apply_record json b j (some r) v ≡ (apply_outbox_purge sub seq v, []))
    unfolding apply_command apply_ack apply_ack_at all_ascii is_ascii
    apply_record-ack idx bucket sub seq w h hs ok = (
      build_replication_record json seq.epoch.bucket_uuid "OUTBOX_PURGE" (sub ∷ seq_args seq []),
      apply_built a idx bucket "ACK" (sub ∷ seq_args seq []) w refl (all_ascii-seq sub seq h hs)
          ∙ ap (λ q. apply_ack_at json a sub q w) (seq_of-format_uint seq h)
          ∙ rw (ok, leads) refl,
      λ b j v. purge_applied b j seq.epoch.bucket_uuid sub seq v h hs,
    )
