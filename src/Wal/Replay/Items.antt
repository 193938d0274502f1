-- ===== src/Wal/Replay/Items.antt =====
-- Replaying segments that AppendEntry has written.
use mathlib.Core.List.{append_assoc}
use seven_db.Common.{
  ℕ, zero, suc, ◌≡◌, ◌<◌, refl, sym, ap, ◌∙◌, Bool, true, false, Option, none, some, List, [], ◌∷◌,
  ◌++◌, nat_beq, nat_beq_iff, ltb, arith, inl, inr, Bool-cases,
}
use seven_db.Common.Lists.{length, All}
use seven_db.Bucket.Frame.{checksum}
use seven_db.Bucket.Frame.Scan.{read_full-append, u32-put_u32, checksum_fits}
use seven_db.Wal.Unified.RoundTrip.{decode_uwal-encode_uwal}
use seven_db.Wal.Segment.{Element, ElementProto, normal_element, element_frame}
use seven_db.Wal.Segment.Last.{
  Appended, element_of, bytes_of, Writable, segment_of, is_uwal-encode_uwal, length-element_frame,
}
use seven_db.Wal.Replay.{
  ReplayItem, ReplayError, callback_failed, uwal_kind_hard_state, yields, yield_item, replay_uwal,
  replay_element, replay_decoded, replay_bytes, replay_sized, next_item, item_loop,
}

-- an appended entry and the command in it
pub record Logged (C : Type 0) : Type 0 where
  pub appended : Appended
  pub command : C

module _ {C : Type 0} where
  abbrev pub item_of : Logged C → ReplayItem C
  item_of x = record {
    index = x.appended.entry.index;
    term = x.appended.entry.term;
    sub_seq = x.appended.entry.sub_seq;
    timestamp = x.appended.timestamp;
    cmd = x.command;
    raft_data = x.appended.entry.raft_data;
  }

  abbrev pub items_of : List (Logged C) → List (ReplayItem C)
  items_of [] = []
  items_of (x ∷ xs) = item_of x ∷ items_of xs

  abbrev pub appended_of : List (Logged C) → List Appended
  appended_of [] = []
  appended_of (x ∷ xs) = x.appended ∷ appended_of xs

  -- the items of several segments
  abbrev pub all_items : List (List (Logged C)) → List (ReplayItem C)
  all_items [] = []
  all_items (xs ∷ xss) = items_of xs ++ all_items xss

module _ {C : Type 0} {S : Type 0} (cb : ReplayItem C → S → S × Bool) where
  -- the callback for each item up to its first failure, and `end` where there is none
  unfoldable pub feed : Option ReplayError → List (ReplayItem C) → S → S × Option ReplayError
  feed end [] s = (s, end)
  feed end (it ∷ its) s = elim (cb it s).1 [
    | true ↦ feed end its (cb it s).0
    | false ↦ ((cb it s).0, some callback_failed)
  ]

  -- what comes next, where no error has
  unfoldable pub next_unless :
      S × Option ReplayError → (S → S × Option ReplayError) → S × Option ReplayError
  next_unless r f = elim r.1 [ some err ↦ (r.0, some err) | none ↦ f r.0 ]

  pub feed_ok :
      (end : Option ReplayError) (it : ReplayItem C) (its : List (ReplayItem C)) (s : S)
      → (cb it s).1 ≡ true
      → feed end (it ∷ its) s ≡ feed end its (cb it s).0
  unfolding feed
  feed_ok end it its s ok = rw (feed, ok) refl

  pub feed_bad :
      (end : Option ReplayError) (it : ReplayItem C) (its : List (ReplayItem C)) (s : S)
      → (cb it s).1 ≡ false
      → feed end (it ∷ its) s ≡ ((cb it s).0, some callback_failed)
  unfolding feed
  feed_bad end it its s bad = rw (feed, bad) refl

  next_unless_empty :
      (s : S) (f : S → S × Option ReplayError) → next_unless (feed none [] s) f ≡ f s
  unfolding feed next_unless
  next_unless_empty s f = refl

  pub next_unless_failed :
      (s : S) (err : ReplayError) (f : S → S × Option ReplayError)
      → next_unless (s, some err) f ≡ (s, some err)
  unfolding next_unless
  next_unless_failed s err f = refl

  pub feed-append :
      (end : Option ReplayError) (its ds : List (ReplayItem C)) (s : S)
      → feed end (its ++ ds) s ≡ next_unless (feed none its s) (feed end ds)
  feed-append end [] ds s = sym (next_unless_empty s (feed end ds))
  feed-append end (it ∷ its) ds s = elim (Bool-cases (cb it s).1) [
    | inl ok ↦
        rw (feed_ok end it (its ++ ds) s ok, feed_ok none it its s ok)
          (feed-append end its ds (cb it s).0)
    | inr bad ↦
        rw (feed_bad end it (its ++ ds) s bad, feed_bad none it its s bad)
          (sym (next_unless_failed (cb it s).0 callback_failed (feed end ds)))
  ]

module _ {C : Type 0} (command_of : List ℕ → Option C) {Fits : Element → Type 0}
    (proto : ElementProto Fits) where
  -- the entry is a normal one that fits the buffer, and its command is read back
  abbrev pub Readable : Logged C → Type 0
  Readable x =
      Writable proto x.appended
      × (nat_beq x.appended.entry.kind uwal_kind_hard_state ≡ false)
      × (ltb 10240 (length (bytes_of proto x.appended)) ≡ false)
      × (command_of x.appended.entry.cmd ≡ some x.command)

  -- the files of several segments
  abbrev pub all_segments : List (List (Logged C)) → List (List ℕ)
  all_segments [] = []
  all_segments (xs ∷ xss) = segment_of proto (appended_of xs) ∷ all_segments xss

  replay_element-normal :
      (x : Logged C) (rest : List ℕ)
      → Readable x
      → replay_element command_of (element_of x.appended) rest ≡ yields (item_of x) rest
  unfolding replay_element normal_element replay_uwal yield_item
  replay_element-normal x rest h =
      rw
        (
          is_uwal-encode_uwal x.appended.entry,
          decode_uwal-encode_uwal x.appended.entry h.0.0,
          h.0.1,
          h.1,
          h.3,
        )
        refl

  replay_bytes-marshal :
      (x : Logged C) (rest : List ℕ)
      → Readable x
      → replay_bytes command_of proto
          (checksum (bytes_of proto x.appended))
          (some (bytes_of proto x.appended, rest))
        ≡ yields (item_of x) rest
  unfolding replay_bytes replay_decoded
  replay_bytes-marshal x rest h =
      rw
        (
          (nat_beq_iff (checksum (bytes_of proto x.appended))
                (checksum (bytes_of proto x.appended))).1
              refl,
          proto.unmarshal-marshal (element_of x.appended) h.0.2,
        )
        (replay_element-normal x rest h)

  next_item-frame :
      (x : Logged C) (tail : List ℕ)
      → Readable x
      → next_item command_of proto (element_frame (bytes_of proto x.appended) ++ tail)
        ≡ yields (item_of x) tail
  unfolding next_item element_frame replay_sized
  next_item-frame x tail h =
      rw
        (
          u32-put_u32 (checksum (bytes_of proto x.appended))
              (checksum_fits (bytes_of proto x.appended)),
          u32-put_u32 (length (bytes_of proto x.appended)) h.0.3,
          h.2,
          read_full-append (bytes_of proto x.appended) tail,
        )
        (replay_bytes-marshal x tail h)

  module _ {S : Type 0} (cb : ReplayItem C → S → S × Bool) where
    pub item_loop-segment_of :
        (end : Option ReplayError) (tail : List ℕ)
        → ((n : ℕ) (s : S) → item_loop command_of proto cb (suc n) tail s ≡ (s, end))
        → (fuel : ℕ) (xs : List (Logged C)) (s : S) → All Readable xs
        → length (segment_of proto (appended_of xs) ++ tail) < fuel
        → item_loop command_of proto cb fuel (segment_of proto (appended_of xs) ++ tail) s
          ≡ feed cb end (items_of xs) s
    unfolding segment_of item_loop feed
    item_loop-segment_of end tail stops zero xs s h f = absurd (omega (arith, f))
    item_loop-segment_of end tail stops (suc fuel) [] s h f = stops fuel s
    item_loop-segment_of end tail stops (suc fuel) (x ∷ xs) s h f =
        ap (λ bs. item_loop command_of proto cb (suc fuel) bs s)
          (append_assoc (element_frame (bytes_of proto x.appended))
            (segment_of proto (appended_of xs)) tail)
        ∙ rw (next_item-frame x (segment_of proto (appended_of xs) ++ tail) h.0, item_loop)
            (elim (Bool-cases (cb (item_of x) s).1) [
              | inl ok ↦ rw ok (
                  item_loop-segment_of end tail stops fuel xs (cb (item_of x) s).0 h.1 (
                    omega (
                      arith,
                      f,
                      ap length (
                          append_assoc (element_frame (bytes_of proto x.appended))
                            (segment_of proto (appended_of xs)) tail),
                      length-element_frame proto x.appended
                          (segment_of proto (appended_of xs) ++ tail),
                    )))
              | inr bad ↦ rw bad refl
            ])
