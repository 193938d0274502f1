-- ===== src/Wal/Replay/Segments.antt =====
-- Replaying several segments, whole and with a torn frame at the end of the last one.
use mathlib.Core.List.{append-nil, append_assoc}
use mathlib.Core.Path.{fun_ext}
use seven_db.Common.{
  ℕ, suc, ◌≡◌, ◌<◌, refl, sym, ap, ◌∙◌, Bool, false, Option, none, some, List, [], ◌∷◌, ◌++◌, ltb,
  arith, if◌then◌else◌, Bool-cases, inl, inr,
}
use seven_db.Common.Lists.{length, length-append, All}
use seven_db.Bucket.Frame.{checksum, put_u32, u32}
use seven_db.Bucket.Frame.Scan.{u32-put_u32}
use seven_db.Bucket.Frame.Tear.{read_full_short}
use seven_db.Wal.Segment.{Element, ElementProto, element_frame}
use seven_db.Wal.Segment.Last.{bytes_of, segment_of}
use seven_db.Wal.Replay.{
  ReplayItem, ReplayError, bad_header, bad_data, callback_failed, replay_fails, replay_bytes,
  replay_sized, next_item, item_loop, replay_items,
}
use seven_db.Wal.Replay.Items.{
  Logged, items_of, appended_of, all_items, feed, next_unless, feed-append, feed_ok, feed_bad,
  next_unless_failed, Readable, all_segments, item_loop-segment_of,
}

-- the length that a header states
abbrev stated : List ℕ → ℕ
stated (a ∷ b ∷ c ∷ d ∷ e ∷ f ∷ g ∷ h ∷ rest) = u32 e f g h
stated _ = 0

-- the error at a part of a frame
abbrev pub torn_error : List ℕ → ReplayError
torn_error part = if ltb (length part) 8 then bad_header else bad_data

module _ {C : Type 0} (command_of : List ℕ → Option C) {Fits : Element → Type 0}
    (proto : ElementProto Fits) where
  replay_sized_short :
      (crc sz : ℕ) (rest : List ℕ)
      → ltb 10240 sz ≡ false
      → length rest < sz
      → replay_sized command_of proto crc sz rest ≡ replay_fails bad_data
  unfolding replay_sized replay_bytes
  replay_sized_short crc sz rest small h = rw (small, read_full_short sz rest h) refl

  next_item_cut :
      (x : Logged C) (part cut : List ℕ)
      → Readable command_of proto x
      → part ++ cut ≡ element_frame (bytes_of proto x.appended)
      → 0 < length part
      → 0 < length cut
      → next_item command_of proto part ≡ replay_fails (torn_error part)
  unfolding next_item element_frame
  next_item_cut x [] cut hx w p c = absurd (omega (arith, p))
  next_item_cut x (p0 ∷ []) cut hx w p c = refl
  next_item_cut x (p0 ∷ p1 ∷ []) cut hx w p c = refl
  next_item_cut x (p0 ∷ p1 ∷ p2 ∷ []) cut hx w p c = refl
  next_item_cut x (p0 ∷ p1 ∷ p2 ∷ p3 ∷ []) cut hx w p c = refl
  next_item_cut x (p0 ∷ p1 ∷ p2 ∷ p3 ∷ p4 ∷ []) cut hx w p c = refl
  next_item_cut x (p0 ∷ p1 ∷ p2 ∷ p3 ∷ p4 ∷ p5 ∷ []) cut hx w p c = refl
  next_item_cut x (p0 ∷ p1 ∷ p2 ∷ p3 ∷ p4 ∷ p5 ∷ p6 ∷ []) cut hx w p c = refl
  next_item_cut x (p0 ∷ p1 ∷ p2 ∷ p3 ∷ p4 ∷ p5 ∷ p6 ∷ p7 ∷ rest) cut hx w p c =
      replay_sized_short (u32 p0 p1 p2 p3) (u32 p4 p5 p6 p7) rest
        (ap (ltb 10240) (states_length p0 p1 p2 p3 p4 p5 p6 p7 rest cut w) ∙ hx.2)
        (omega (
          arith,
          states_length p0 p1 p2 p3 p4 p5 p6 p7 rest cut w,
          ap length w,
          length-append rest cut,
          c,
        ))
      ∙ ground arith
    where
      states_length :
          (p0 p1 p2 p3 p4 p5 p6 p7 : ℕ) (rest cut : List ℕ)
          → (p0 ∷ p1 ∷ p2 ∷ p3 ∷ p4 ∷ p5 ∷ p6 ∷ p7 ∷ rest) ++ cut
            ≡ put_u32
                (checksum (bytes_of proto x.appended))
                (put_u32 (length (bytes_of proto x.appended)) (bytes_of proto x.appended))
          → u32 p4 p5 p6 p7 ≡ length (bytes_of proto x.appended)
      states_length p0 p1 p2 p3 p4 p5 p6 p7 rest cut w =
          ap stated w ∙ u32-put_u32 (length (bytes_of proto x.appended)) hx.0.3

  module _ {S : Type 0} (cb : ReplayItem C → S → S × Bool) where
    replay_items-cons :
        (bs : List ℕ) (segments : List (List ℕ)) (s : S)
        → replay_items command_of proto cb (bs ∷ segments) s
          ≡ next_unless cb
              (item_loop command_of proto cb (suc (length bs)) bs s)
              (replay_items command_of proto cb segments)
    unfolding replay_items next_unless
    replay_items-cons bs segments s = refl

    whole_ends : (n : ℕ) (s : S) → item_loop command_of proto cb (suc n) [] s ≡ (s, none)
    unfolding item_loop next_item
    whole_ends n s = refl

    whole_segment :
        (xs : List (Logged C)) (s : S)
        → All (Readable command_of proto) xs
        → item_loop command_of proto cb
            (suc (length (segment_of proto (appended_of xs))))
            (segment_of proto (appended_of xs))
            s
          ≡ feed cb none (items_of xs) s
    whole_segment xs s h =
        ap (λ bs. item_loop command_of proto cb (suc (length bs)) bs s)
          (sym (append-nil (segment_of proto (appended_of xs))))
        ∙ item_loop-segment_of command_of proto cb none [] whole_ends
            (suc (length (segment_of proto (appended_of xs) ++ []))) xs s h (omega arith)

    replay_items-all_segments :
        (end : Option ReplayError) (xss : List (List (Logged C))) (segments : List (List ℕ))
        (its : List (ReplayItem C)) (s : S)
        → All (All (Readable command_of proto)) xss
        → ((t : S) → replay_items command_of proto cb segments t ≡ feed cb end its t)
        → replay_items command_of proto cb (all_segments command_of proto xss ++ segments) s
          ≡ feed cb end (all_items xss ++ its) s
    replay_items-all_segments end [] segments its s h next = next s
    replay_items-all_segments end (xs ∷ xss) segments its s h next =
        replay_items-cons (segment_of proto (appended_of xs))
          (all_segments command_of proto xss ++ segments) s
        ∙ rw (whole_segment xs s h.0) (
            ap (next_unless cb (feed cb none (items_of xs) s))
              (fun_ext (λ t. replay_items-all_segments end xss segments its t h.1 next)))
        ∙ sym (feed-append cb end (items_of xs) (all_items xss ++ its) s)
        ∙ ap (λ ds. feed cb end ds s) (sym (append_assoc (items_of xs) (all_items xss) its))

    -- Segments that AppendEntry has written are replayed in their order: the callback gets the item of
    -- each entry, up to the first one that it fails on. The conditions are that the entries are normal
    -- ones with numbers and lengths of the width of their fields, that their elements fit the buffer of
    -- 10 KB, and that protobuf reads elements and commands back.
    pub replay_items-written :
        (xss : List (List (Logged C))) (s : S)
        → All (All (Readable command_of proto)) xss
        → replay_items command_of proto cb (all_segments command_of proto xss) s
          ≡ feed cb none (all_items xss) s
    unfolding replay_items feed
    replay_items-written xss s h =
        ap (λ bs. replay_items command_of proto cb bs s)
          (sym (append-nil (all_segments command_of proto xss)))
        ∙ replay_items-all_segments none xss [] [] s h (λ t. refl)
        ∙ ap (λ its. feed cb none its s) (append-nil (all_items xss))

    next_unless_end :
        (err : ReplayError) (s : S)
        → next_unless cb (feed cb (some err) [] s) (replay_items command_of proto cb [])
          ≡ feed cb (some err) [] s
    unfolding feed next_unless
    next_unless_end err s = refl

    next_unless_fed :
        (err : ReplayError) (its : List (ReplayItem C)) (s : S)
        → next_unless cb (feed cb (some err) its s) (replay_items command_of proto cb [])
          ≡ feed cb (some err) its s
    next_unless_fed err [] s = next_unless_end err s
    next_unless_fed err (it ∷ its) s = elim (Bool-cases (cb it s).1) [
      | inl ok ↦ rw (feed_ok cb (some err) it its s ok) (next_unless_fed err its (cb it s).0)
      | inr bad ↦
          rw (feed_bad cb (some err) it its s bad) (
            next_unless_failed cb (cb it s).0 callback_failed (replay_items command_of proto cb []))
    ]

    torn_ends :
        (part : List ℕ)
        → next_item command_of proto part ≡ replay_fails (torn_error part)
        → (n : ℕ) (s : S)
        → item_loop command_of proto cb (suc n) part s ≡ (s, some (torn_error part))
    unfolding item_loop
    torn_ends part h n s = rw (h, item_loop) refl

    replay_items_last :
        (err : ReplayError) (bs : List ℕ) (its : List (ReplayItem C)) (s : S)
        → item_loop command_of proto cb (suc (length bs)) bs s ≡ feed cb (some err) its s
        → replay_items command_of proto cb (bs ∷ []) s ≡ feed cb (some err) its s
    replay_items_last err bs its s h = replay_items-cons bs [] s ∙ rw h (next_unless_fed err its s)

    -- Where the last segment ends in a part of a frame that is neither empty nor whole, as a crash leaves
    -- it, every whole entry before it is replayed, and then the replay ends in an error, unless the
    -- callback has failed before: `bad_header` where less than the 8 bytes of a header are left, and
    -- `bad_data` otherwise. The conditions are that the entries are normal ones with numbers and lengths
    -- of the width of their fields, that their elements fit the buffer of 10 KB, and that protobuf reads
    -- elements and commands back.
    pub replay_items_torn :
        (xss : List (List (Logged C))) (xs : List (Logged C)) (x : Logged C) (part cut : List ℕ)
        (s : S)
        → All (All (Readable command_of proto)) xss
        → All (Readable command_of proto) xs
        → Readable command_of proto x
        → part ++ cut ≡ element_frame (bytes_of proto x.appended)
        → 0 < length part
        → 0 < length cut
        → replay_items command_of proto cb
            (all_segments command_of proto xss
              ++ ((segment_of proto (appended_of xs) ++ part) ∷ []))
            s
          ≡ feed cb (some (torn_error part)) (all_items xss ++ items_of xs) s
    replay_items_torn xss xs x part cut s hs h hx w p c =
        replay_items-all_segments (some (torn_error part)) xss
          ((segment_of proto (appended_of xs) ++ part) ∷ []) (items_of xs) s hs
          (λ t.
            replay_items_last (torn_error part) (segment_of proto (appended_of xs) ++ part)
              (items_of xs) t
              (item_loop-segment_of command_of proto cb (some (torn_error part)) part
                (torn_ends part (next_item_cut x part cut hx w p c))
                (suc (length (segment_of proto (appended_of xs) ++ part))) xs t h (omega arith)))
