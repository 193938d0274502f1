-- ===== src/Emission/Samples.antt =====
-- An outbox with two entries of one subscription, for the tests.
use seven_db.Common.{ℕ, ◌≡◌, refl, subst, [], ◌∷◌}
use seven_db.Common.{true, Option, none, some, List, arith}
use seven_db.Emission.Raft.{ReplicationPayload, Json, is_ascii}
use seven_db.Emission.Applier.{Applier}
use seven_db.Emission.Applier.Pipeline.{IsWritable}
use seven_db.Common.Comparable.{string_key, nat_key}
use seven_db.Common.GoMap.{get, put}
use seven_db.Emission.Types.{EpochId, EmitSeq}
use seven_db.Emission.Outbox.{OutboxEntry, OutboxState, new_outbox_state, write}
use seven_db.Emission.Outbox.Valid.{IsValid, new_outbox_state-IsValid, write-IsValid}

abbrev pub epoch : EpochId
epoch = record { bucket_uuid = "b"; epoch_counter = 1 }

abbrev pub at : ℕ → EmitSeq
at i = record { epoch = epoch; commit_index = i }

abbrev pub entry : ℕ → OutboxEntry
entry i = record { sub_id = "a:7"; seq = at i; delta = i ∷ [] }

-- entries at 9 and 5
abbrev pub two : OutboxState
two = record { by_sub = ("a:7", (9, entry 9) ∷ (5, entry 5) ∷ []) ∷ []; epochs = [] }

two_runs : (write (entry 5) (write (entry 9) new_outbox_state).0).0 ≡ two
unfolding write get put
two_runs = refl

pub two-IsValid : IsValid two
two-IsValid =
    subst IsValid two_runs
      (write-IsValid (entry 5) (write-IsValid (entry 9) new_outbox_state-IsValid))

-- an encoding of which one byte holds a whole payload
abbrev decode : List ReplicationPayload → Option ReplicationPayload
decode [] = none
decode (p ∷ ps) = some p

abbrev pub json : Json ReplicationPayload
json = record {
  marshal = λ p. p ∷ [];
  unmarshal = decode;
  unmarshal-marshal = λ p c a. refl;
  marshal_filled = λ p. refl;
}

abbrev pub leader : Applier
leader = record { is_leader = true; epoch = epoch }

pub at-IsWritable : IsWritable (at 5)
unfolding is_ascii
at-IsWritable = record { epoch_fits = omega arith; index_fits = omega arith; bucket_ascii = refl }
