-- ===== src/Bucket/Samples.antt =====
-- Entries and an encoding of which one byte holds a whole field, for the tests.
use seven_db.Common.{
  ℕ, zero, suc, ◌≡◌, refl, false, Option, none, some, List, [], ◌∷◌, nat_beq, arith,
}
use seven_db.Common.Lists.{length}
use seven_db.Bucket.Frame.{
  WalEntry, WalRecordType, rec_data_update, rec_subscribe, rec_unsubscribe, rec_outbox_write,
  rec_outbox_ack, rec_epoch_create, rec_notifier_lease, EntryJson,
}
use seven_db.Bucket.FileLog.{Call, append_call, read_call, restart}

abbrev code : WalRecordType → ℕ
code rec_data_update = 0
code rec_subscribe = 1
code rec_unsubscribe = 2
code rec_outbox_write = 3
code rec_outbox_ack = 4
code rec_epoch_create = 5
code rec_notifier_lease = 6

abbrev type_of : ℕ → WalRecordType
type_of zero = rec_data_update
type_of (suc zero) = rec_subscribe
type_of (suc (suc zero)) = rec_unsubscribe
type_of (suc (suc (suc zero))) = rec_outbox_write
type_of (suc (suc (suc (suc zero)))) = rec_outbox_ack
type_of (suc (suc (suc (suc (suc zero))))) = rec_epoch_create
type_of _ = rec_notifier_lease

pub type_of-code : (t : WalRecordType) → type_of (code t) ≡ t
type_of-code rec_data_update = refl
type_of-code rec_subscribe = refl
type_of-code rec_unsubscribe = refl
type_of-code rec_outbox_write = refl
type_of-code rec_outbox_ack = refl
type_of-code rec_epoch_create = refl
type_of-code rec_notifier_lease = refl

abbrev fields_of : WalEntry ℕ → List ℕ
fields_of e =
    e.file_offset
    ∷ e.timestamp
    ∷ e.bucket_id
    ∷ e.epoch.bucket
    ∷ e.epoch.counter
    ∷ e.commit_index
    ∷ code e.entry_type
    ∷ e.payload

abbrev of_fields : List ℕ → Option (WalEntry ℕ)
of_fields (offset ∷ now ∷ b ∷ c ∷ n ∷ index ∷ t ∷ payload) = some (record {
  file_offset = offset;
  timestamp = now;
  bucket_id = b;
  epoch = record { bucket = c; counter = n };
  commit_index = index;
  entry_type = type_of t;
  payload = payload;
})
of_fields _ = none

pub seven_more : (n : ℕ) → nat_beq (suc (suc (suc (suc (suc (suc (suc n))))))) 0 ≡ false
seven_more n = ground arith

abbrev pub json : EntryJson ℕ (λ b. Unit)
json = record {
  marshal = fields_of;
  unmarshal = of_fields;
  unmarshal-marshal = λ e k l. rw (type_of-code e.entry_type) refl;
  length-marshal = λ e. seven_more (length (e.payload));
}

-- an entry of a bucket as a caller gives it
abbrev pub sample : ℕ → List ℕ → WalEntry ℕ
sample b payload = record {
  file_offset = 0;
  timestamp = 0;
  bucket_id = b;
  epoch = record { bucket = b; counter = 9 };
  commit_index = 0;
  entry_type = rec_data_update;
  payload = payload;
}

-- two entries of bucket 1 and one of bucket 2, with a restart between
abbrev pub traffic : List (Call ℕ)
traffic =
    append_call 5 (some (sample 1 (7 ∷ [])))
    ∷ append_call 6 (some (sample 2 (8 ∷ [])))
    ∷ append_call 6 none
    ∷ restart
    ∷ append_call 7 (some (sample 1 (9 ∷ [])))
    ∷ read_call 1 1
    ∷ []
