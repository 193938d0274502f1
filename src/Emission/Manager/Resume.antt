-- ===== src/Emission/Manager/Resume.antt =====
-- Reconnect, against the history of outbox records that the manager has applied.
use seven_db.Common.{
  ℕ, ◌≤◌, ◌<◌, ◌≡◌, ◌↔◌, ◌⊎◌, inl, inr, refl, String, Bool, true, false, List, [], ◌∷◌, arith,
  if◌then◌else◌, leb, nat_beq, ◌&&◌,
}
use seven_db.Common.Comparable.{◌==◌, string_key}
use seven_db.Common.GoMap.{get, or_zero}
use seven_db.Common.GoMap.Laws.{get-put, is_some}
use seven_db.Emission.Types.{EmitSeq, zero_seq, ReconnectRequest, reconnect_ok}
use seven_db.Emission.Outbox.Entries.{entry_at, entry_at-write, entry_at-purge}
use seven_db.Emission.Manager.{
  Manager, World, apply_outbox_write, apply_outbox_purge, reconnect, ahead_of,
}
use text.Mathlib.TextEquality.{eq_iff}

-- an outbox record of the replicated log
pub data OutboxRecord : Type 0 where
  outbox_write : String → EmitSeq → List ℕ → OutboxRecord
  outbox_purge : String → EmitSeq → OutboxRecord

unfoldable pub apply_record : OutboxRecord → World → World
apply_record (outbox_write sub seq delta) w = apply_outbox_write sub seq delta w
apply_record (outbox_purge sub seq) w = apply_outbox_purge sub seq w

unfoldable pub apply_records : List OutboxRecord → World → World
apply_records [] w = w
apply_records (r ∷ rs) w = apply_records rs (apply_record r w)

-- an entry awaits delivery at the position
abbrev pub awaits : World → String → ℕ → Bool
awaits w sub idx = is_some (entry_at w.mgr.ob sub idx)

-- the commit index through which the subscription is compacted
abbrev pub compacted_index : World → String → ℕ
compacted_index w sub = (or_zero zero_seq (get w.mgr.compact_through sub)).commit_index

abbrev pub NotBelow : String → World → OutboxRecord → Type 0
NotBelow sub w (outbox_write s seq delta) = Unit
NotBelow sub w (outbox_purge s seq) = s ≡ sub → compacted_index w sub ≤ seq.commit_index

-- no purge of the subscription is below an earlier one
abbrev pub PurgesRise : String → List OutboxRecord → World → Type 0
PurgesRise sub [] w = Unit
PurgesRise sub (r ∷ rs) w = NotBelow sub w r × PurgesRise sub rs (apply_record r w)

abbrev pub IsWrite : String → ℕ → OutboxRecord → Type 0
IsWrite sub idx (outbox_write s seq delta) = (s ≡ sub) × (seq.commit_index ≡ idx)
IsWrite sub idx (outbox_purge s seq) = ⊥

-- the records hold a write at the position
abbrev pub Writes : String → ℕ → List OutboxRecord → Type 0
Writes sub idx [] = ⊥
Writes sub idx (r ∷ rs) = IsWrite sub idx r ⊎ Writes sub idx rs

module _ (sub : String) (idx : ℕ) where
  awaits-write :
      (s : String) (seq : EmitSeq) (delta : List ℕ) (w : World)
      → awaits (apply_outbox_write s seq delta w) sub idx
        ≡ (if (s == sub) && nat_beq seq.commit_index idx then true else awaits w sub idx)
  unfolding apply_outbox_write
  awaits-write s seq delta w =
      ground
        (arith, entry_at-write (record { sub_id = s; seq = seq; delta = delta }) w.mgr.ob sub idx)

  compacted-write :
      (s : String) (seq : EmitSeq) (delta : List ℕ) (w : World)
      → compacted_index (apply_outbox_write s seq delta w) sub ≡ compacted_index w sub
  unfolding apply_outbox_write
  compacted-write s seq delta w = refl

  awaits-purge :
      (s : String) (seq : EmitSeq) (w : World)
      → awaits (apply_outbox_purge s seq w) sub idx
        ≡ (if (s == sub) && leb idx seq.commit_index then false else awaits w sub idx)
  unfolding apply_outbox_purge
  awaits-purge s seq w = ground (arith, entry_at-purge s seq.commit_index w.mgr.ob sub idx)

  compacted-purge :
      (s : String) (seq : EmitSeq) (w : World)
      → compacted_index (apply_outbox_purge s seq w) sub
        ≡ (if s == sub then seq.commit_index else compacted_index w sub)
  unfolding apply_outbox_purge
  compacted-purge s seq w = ground (arith, get-put w.mgr.compact_through s seq sub)

  -- above the compacted index, an entry awaits delivery
  abbrev Kept : World → Type 0
  Kept w = compacted_index w sub < idx → awaits w sub idx ≡ true

  apply_record-Kept :
      (r : OutboxRecord) (w : World) → NotBelow sub w r → Kept w → Kept (apply_record r w)
  unfolding apply_record
  apply_record-Kept (outbox_write s seq delta) w n k above =
      ground (arith, awaits-write s seq delta w, compacted-write s seq delta w)
  apply_record-Kept (outbox_purge s seq) w n k above =
      ground (arith, awaits-purge s seq w, compacted-purge s seq w, eq_iff s sub)

  apply_records-Kept :
      (rs : List OutboxRecord) (w : World)
      → PurgesRise sub rs w
      → Kept w
      → Kept (apply_records rs w)
  unfolding apply_records
  apply_records-Kept [] w n k = k
  apply_records-Kept (r ∷ rs) w n k =
      apply_records-Kept rs (apply_record r w) n.1 (apply_record-Kept r w n.0 k)

  write-Kept : (r : OutboxRecord) (w : World) → IsWrite sub idx r → Kept (apply_record r w)
  unfolding apply_record
  write-Kept (outbox_write s seq delta) w h above =
      ground (arith, awaits-write s seq delta w, eq_iff s sub)
  write-Kept (outbox_purge s seq) w h above = absurd h

  -- What was written above the compacted index still awaits delivery, if purges rise.
  pub Writes-awaits :
      (rs : List OutboxRecord) (w : World)
      → PurgesRise sub rs w
      → Writes sub idx rs
      → compacted_index (apply_records rs w) sub < idx
      → awaits (apply_records rs w) sub idx ≡ true
  unfolding apply_records
  Writes-awaits (r ∷ rs) w n (inl here) above =
      apply_records-Kept rs (apply_record r w) n.1 (write-Kept r w here) above
  Writes-awaits (r ∷ rs) w n (inr there) above = Writes-awaits rs (apply_record r w) n.1 there above
  Writes-awaits [] w n h above = absurd h

abbrev pub CurrentEpoch : Manager → ReconnectRequest → Type 0
CurrentEpoch m req = req.last_processed_emit_seq.epoch.epoch_counter ≡ m.current_epoch.epoch_counter

-- In the current epoch, Reconnect answers `reconnect_ok` exactly if the position is not past the
-- last acknowledged one and not below the compacted one; then the client goes on from the next
-- commit index.
pub reconnect_ok_iff :
    (w : World) (req : ReconnectRequest)
    → CurrentEpoch w.mgr req
    → ((reconnect w.mgr req).status ≡ reconnect_ok) ↔ (
        (ahead_of req.last_processed_emit_seq.commit_index (get w.mgr.last_ack req.sub_id) ≡ false)
        × (compacted_index w req.sub_id ≤ req.last_processed_emit_seq.commit_index))
unfolding reconnect
reconnect_ok_iff w req cur = ground arith

-- No gaps: in the current epoch, if purges of the subscription rise and Reconnect answers
-- `reconnect_ok`, then everything that was written after the client's position still awaits delivery.
pub reconnect_no_gap :
    (rs : List OutboxRecord) (w : World) (req : ReconnectRequest) (idx : ℕ)
    → PurgesRise req.sub_id rs w
    → CurrentEpoch (apply_records rs w).mgr req
    → (reconnect (apply_records rs w).mgr req).status ≡ reconnect_ok
    → Writes req.sub_id idx rs
    → req.last_processed_emit_seq.commit_index < idx
    → awaits (apply_records rs w) req.sub_id idx ≡ true
reconnect_no_gap rs w req idx rise cur ok wr after =
    Writes-awaits req.sub_id idx rs w rise wr
      (omega (arith, ((reconnect_ok_iff (apply_records rs w) req cur).0 ok).1))
