-- ===== src/Emission/Types.antt =====
-- internal/emission/types.go. A uint64 is a natural number below 2 ^ 64; sums wrap where they are made.
use seven_db.Common.{ℕ, ◌<◌, ◌≤◌, ◌^◌, String, ◌≡◌, ◌⊎◌, Bool, ◌&&◌, ◌||◌, List, ltb, nat_beq}

abbrev pub u64_mod : ℕ
u64_mod = 2 ^ 64

pub record EpochId : Type 0 where
  pub bucket_uuid : String
  pub epoch_counter : ℕ

pub record EmitSeq : Type 0 where
  pub epoch : EpochId
  pub commit_index : ℕ

-- the zero values of the two types
abbrev pub zero_epoch : EpochId
zero_epoch = record { bucket_uuid = ""; epoch_counter = 0 }

abbrev pub zero_seq : EmitSeq
zero_seq = record { epoch = zero_epoch; commit_index = 0 }

-- what is sent to a client; bytes are numbers
pub record DataEvent : Type 0 where
  pub sub_id : String
  pub emit_seq : EmitSeq
  pub delta : List ℕ

pub record ClientAck : Type 0 where
  pub sub_id : String
  pub emit_seq : EmitSeq

pub record ReconnectRequest : Type 0 where
  pub sub_id : String
  pub last_processed_emit_seq : EmitSeq

pub data ReconnectStatus : Type 0 where
  reconnect_ok reconnect_stale_sequence reconnect_invalid_sequence : ReconnectStatus
  reconnect_subscription_not_found : ReconnectStatus

pub record ReconnectAck : Type 0 where
  pub status : ReconnectStatus
  pub current_epoch : EpochId
  pub next_commit_index : ℕ

-- `v` is newer than `cur`: the comparison that the package writes out at each watermark
abbrev pub is_newer : EmitSeq → EmitSeq → Bool
is_newer v cur =
    ltb cur.epoch.epoch_counter v.epoch.epoch_counter
    || (nat_beq v.epoch.epoch_counter cur.epoch.epoch_counter
        && ltb cur.commit_index v.commit_index)

-- the order of positions: by epoch counter, then by commit index
abbrev pub Precedes : EmitSeq → EmitSeq → Type 0
Precedes a b =
    (a.epoch.epoch_counter < b.epoch.epoch_counter)
    ⊎ ((a.epoch.epoch_counter ≡ b.epoch.epoch_counter) × (a.commit_index < b.commit_index))

-- `a` is not after `b`
abbrev pub Upto : EmitSeq → EmitSeq → Type 0
Upto a b =
    (a.epoch.epoch_counter < b.epoch.epoch_counter)
    ⊎ ((a.epoch.epoch_counter ≡ b.epoch.epoch_counter) × (a.commit_index ≤ b.commit_index))
