-- ===== src/RaftWal/Open.antt =====
-- What a writer keeps through an append, and when its buffer is empty.
use seven_db.Common.{
  ℕ, suc, ◌+◌, ◌≡◌, refl, Bool, true, false, List, [], arith, nat_beq, if_keeps, if◌then◌else◌, ltb,
  leb, ◌&&◌, not, ◌%◌, ◌^◌,
}
use seven_db.Common.Lists.{length}
use seven_db.RaftWal.Frame.{frame}
use seven_db.RaftWal.Writer.{
  Config, Writer, write, flush_buf, current_offset, write_sidecar, open_next, rotate,
  rotate_for_conflict, note_entry, set_last_index, count_append,
}
use seven_db.RaftWal.Append.{
  is_sidecar_due, sidecar_if_due, settle, rotate_full, rotate_counted, rotate_forced, append_frame,
  follow,
}

-- the configuration, and that the writer is open
abbrev pub IsLike : Config → Bool → Writer → Type 0
IsLike cfg b w = (w.config ≡ cfg) × (w.is_closed ≡ b)

module _ (cfg : Config) (b : Bool) where
  write_sidecar-IsLike : (w : Writer) → IsLike cfg b w → IsLike cfg b (write_sidecar w)
  unfolding write_sidecar
  write_sidecar-IsLike w h = ground (arith, h)

  rotate-IsLike : (w : Writer) → IsLike cfg b w → IsLike cfg b (rotate w)
  unfolding rotate open_next flush_buf
  rotate-IsLike w h = write_sidecar-IsLike (flush_buf w) h

  sidecar_if_due-IsLike : (w : Writer) → IsLike cfg b w → IsLike cfg b (sidecar_if_due w)
  unfolding sidecar_if_due
  sidecar_if_due-IsLike w h =
      if_keeps (IsLike cfg b) (is_sidecar_due w) (write_sidecar w) w (write_sidecar-IsLike w h) h

  settle-IsLike : (w : Writer) → IsLike cfg b w → IsLike cfg b (settle w)
  unfolding settle flush_buf
  settle-IsLike w h =
      sidecar_if_due-IsLike (if w.config.strict_sync then flush_buf w else sidecar_if_due w) (
        if_keeps (IsLike cfg b) w.config.strict_sync (flush_buf w) (sidecar_if_due w) h
          (sidecar_if_due-IsLike w h))

  rotate_full-IsLike : (end : ℕ) (w : Writer) → IsLike cfg b w → IsLike cfg b (rotate_full end w)
  unfolding rotate_full
  rotate_full-IsLike end w h =
      if_keeps (IsLike cfg b)
        (ltb 0 w.config.segment_max_bytes && leb w.config.segment_max_bytes end) (rotate w) w
        (rotate-IsLike w h) h

  rotate_forced-IsLike : (w : Writer) → IsLike cfg b w → IsLike cfg b (rotate_forced w)
  unfolding rotate_forced rotate_counted count_append
  rotate_forced-IsLike w h =
      if_keeps (IsLike cfg b) (ltb 0 w.config.force_rotate_every) (rotate_counted (count_append w))
        w
        (if_keeps (IsLike cfg b) (nat_beq (suc w.append_count % w.config.force_rotate_every) 0)
          (rotate (count_append w)) (count_append w) (rotate-IsLike (count_append w) h) h)
        h

  pub append_frame-IsLike :
      (index : ℕ) (p : List ℕ) (w : Writer) → IsLike cfg b w → IsLike cfg b (append_frame index p w)
  unfolding append_frame note_entry write
  append_frame-IsLike index p w h =
      let noted = note_entry index (current_offset w) (8 + length p) (write (frame p) w) in
      rotate_forced-IsLike (rotate_full (current_offset w + (8 + length p)) (settle noted)) (
        rotate_full-IsLike (current_offset w + (8 + length p)) (settle noted)
          (settle-IsLike noted h))

  pub follow-IsLike : (index : ℕ) (w : Writer) → IsLike cfg b w → IsLike cfg b (follow index w)
  unfolding follow rotate_for_conflict set_last_index
  follow-IsLike index w h =
      if_keeps (IsLike cfg b)
        (not (nat_beq w.last_index 0) && not (nat_beq index (suc w.last_index % 2 ^ 64)))
        (rotate_for_conflict w) w
        (if_keeps (IsLike cfg b) (nat_beq w.last_index 0) w (rotate w) h (rotate-IsLike w h)) h

-- nothing is buffered
abbrev pub IsFlushed : Writer → Type 0
IsFlushed w = w.buf ≡ []

pub rotate-IsFlushed : (w : Writer) → IsFlushed (rotate w)
unfolding rotate open_next
rotate-IsFlushed w = refl

sidecar_if_due-IsFlushed : (w : Writer) → IsFlushed w → IsFlushed (sidecar_if_due w)
unfolding sidecar_if_due write_sidecar
sidecar_if_due-IsFlushed w h = ground (arith, h)

chosen-IsFlushed :
    (b : Bool) (v w : Writer) → b ≡ true → IsFlushed v → IsFlushed (if b then v else w)
chosen-IsFlushed true v w s h = h
chosen-IsFlushed false v w s h = absurd (ground (arith, s))

settle-IsFlushed : (w : Writer) → w.config.strict_sync ≡ true → IsFlushed (settle w)
unfolding settle flush_buf
settle-IsFlushed w s =
    sidecar_if_due-IsFlushed (if w.config.strict_sync then flush_buf w else sidecar_if_due w)
      (chosen-IsFlushed w.config.strict_sync (flush_buf w) (sidecar_if_due w) s refl)

rotate_full-IsFlushed : (end : ℕ) (w : Writer) → IsFlushed w → IsFlushed (rotate_full end w)
unfolding rotate_full
rotate_full-IsFlushed end w h =
    if_keeps IsFlushed (ltb 0 w.config.segment_max_bytes && leb w.config.segment_max_bytes end)
      (rotate w) w (rotate-IsFlushed w) h

rotate_forced-IsFlushed : (w : Writer) → IsFlushed w → IsFlushed (rotate_forced w)
unfolding rotate_forced rotate_counted count_append
rotate_forced-IsFlushed w h =
    if_keeps IsFlushed (ltb 0 w.config.force_rotate_every) (rotate_counted (count_append w)) w
      (if_keeps IsFlushed (nat_beq (suc w.append_count % w.config.force_rotate_every) 0)
        (rotate (count_append w)) (count_append w) (rotate-IsFlushed (count_append w)) h)
      h

-- in strict mode an append leaves nothing in the buffer
pub append_frame-IsFlushed :
    (index : ℕ) (p : List ℕ) (w : Writer)
    → w.config.strict_sync ≡ true
    → IsFlushed (append_frame index p w)
unfolding append_frame note_entry write
append_frame-IsFlushed index p w s =
    let noted = note_entry index (current_offset w) (8 + length p) (write (frame p) w) in
    rotate_forced-IsFlushed (rotate_full (current_offset w + (8 + length p)) (settle noted)) (
      rotate_full-IsFlushed (current_offset w + (8 + length p)) (settle noted)
        (settle-IsFlushed noted s))
