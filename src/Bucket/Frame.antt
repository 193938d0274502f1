-- ===== src/Bucket/Frame.antt =====
-- internal/bucket/bucket_log.go, the entries of a log, and the layout of its file in
-- internal/bucket/file_bucket_log.go: length and checksum of 4 bytes each, then the entry in JSON.
-- A byte is a number. The type of bucket ids is a parameter, and so is JSON on entries.
pub mod Scan
pub mod Tear
mod Tests
use Prim.Native.Nat.{bit_xor}
use seven_db.Common.{
  ℕ, zero, suc, ◌+◌, ◌*◌, ◌/◌, ◌%◌, ◌^◌, ◌≡◌, Bool, true, false, Option, none, some, List, [], ◌∷◌,
  ◌++◌, ◌&&◌, if◌then◌else◌, nat_beq,
}
use seven_db.Common.Lists.{length}

-- EpochID
pub record Epoch (B : Type 0) : Type 0 where
  pub bucket : B
  pub counter : ℕ

-- WALRecordType
pub data WalRecordType : Type 0 where
  rec_data_update rec_subscribe rec_unsubscribe rec_outbox_write rec_outbox_ack : WalRecordType
  rec_epoch_create rec_notifier_lease : WalRecordType

-- WALEntry
pub record WalEntry (B : Type 0) : Type 0 where
  pub file_offset : ℕ
  pub timestamp : ℕ
  pub bucket_id : B
  pub epoch : Epoch B
  pub commit_index : ℕ
  pub entry_type : WalRecordType
  pub payload : List ℕ

-- encoding/json on entries: where JSON keeps the bucket id (as it does valid UTF-8), an entry is read back. An object has
-- at least its braces.
pub record EntryJson (B : Type 0) (Keeps : B → Type 0) : Type 0 where
  pub marshal : WalEntry B → List ℕ
  pub unmarshal : List ℕ → Option (WalEntry B)
  pub unmarshal-marshal :
      (e : WalEntry B) → Keeps e.bucket_id → Keeps e.epoch.bucket → unmarshal (marshal e) ≡ some e
  pub length-marshal : (e : WalEntry B) → nat_beq (length (marshal e)) 0 ≡ false

-- one bit of the checksum
unfoldable pub crc_bit : ℕ → ℕ
crc_bit c = if nat_beq (c % 2) 1 then bit_xor (c / 2) 3988292384 else c / 2

unfoldable pub crc_bits : ℕ → ℕ → ℕ
crc_bits zero c = c
crc_bits (suc n) c = crc_bits n (crc_bit c)

unfoldable pub crc_bytes : ℕ → List ℕ → ℕ
crc_bytes c [] = c
crc_bytes c (b ∷ bs) = crc_bytes (crc_bits 8 (bit_xor c b)) bs

-- crc32.ChecksumIEEE
unfoldable pub checksum : List ℕ → ℕ
unfolding crc_bytes crc_bits crc_bit
checksum bs = bit_xor (crc_bytes 4294967295 bs) 4294967295 % 2 ^ 32

-- binary.LittleEndian.PutUint32, before what follows
abbrev pub put_u32 : ℕ → List ℕ → List ℕ
put_u32 n rest = (n % 256) ∷ (n / 256 % 256) ∷ (n / 65536 % 256) ∷ (n / 16777216 % 256) ∷ rest

-- binary.LittleEndian.Uint32
abbrev pub u32 : ℕ → ℕ → ℕ → ℕ → ℕ
u32 a b c d = a + b * 256 + c * 65536 + d * 16777216

-- the header and the payload
unfoldable pub frame : List ℕ → List ℕ
frame payload = put_u32 (length payload) (put_u32 (checksum payload) payload)

-- io.ReadFull of a buffer of `n` bytes: the buffer and the rest, or none at the end of the file
unfoldable pub read_full : ℕ → List ℕ → Option (List ℕ × List ℕ)
read_full zero bs = some ([], bs)
read_full (suc n) [] = none
read_full (suc n) (b ∷ bs) = elim (read_full n bs) [
  | none ↦ none
  | some (buf, rest) ↦ some (b ∷ buf, rest)
]

-- one turn of a loop over the file
pub data Turn (B : Type 0) : Type 0 where
  stop : Turn B
  skip : List ℕ → Turn B
  found : WalEntry B → List ℕ → Turn B

module _ {B : Type 0} {Keeps : B → Type 0} (json : EntryJson B Keeps) where
  unfoldable pub decode : Option (WalEntry B) → List ℕ → Turn B
  decode none rest = skip rest
  decode (some e) rest = found e rest

  unfoldable pub with_payload : ℕ → Option (List ℕ × List ℕ) → Turn B
  unfolding decode
  with_payload crc none = stop
  with_payload crc (some (buf, rest)) =
      if nat_beq (checksum buf) crc then decode (json.unmarshal buf) rest else stop

  -- `zero_stops` tells that a length of 0 ends the loop
  unfoldable pub with_header : Bool → ℕ → ℕ → List ℕ → Turn B
  unfolding with_payload
  with_header zero_stops len crc rest =
      if zero_stops && nat_beq len 0 then stop else with_payload crc (read_full len rest)

  unfoldable pub next_record : Bool → List ℕ → Turn B
  unfolding with_header
  next_record zero_stops (a ∷ b ∷ c ∷ d ∷ e ∷ f ∷ g ∷ h ∷ rest) =
      with_header zero_stops (u32 a b c d) (u32 e f g h) rest
  next_record zero_stops _ = stop

  -- the entries that a loop decodes; each turn that goes on takes at least the 8 bytes of a header
  unfoldable pub records : Bool → ℕ → List ℕ → List (WalEntry B)
  records zero_stops zero bs = []
  records zero_stops (suc fuel) bs = elim (next_record zero_stops bs) [
    | stop ↦ []
    | skip rest ↦ records zero_stops fuel rest
    | found e rest ↦ e ∷ records zero_stops fuel rest
  ]

  unfoldable pub read_records : Bool → List ℕ → List (WalEntry B)
  unfolding records
  read_records zero_stops bs = records zero_stops (suc (length bs)) bs
