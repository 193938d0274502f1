-- ===== src/Emission/Shard/Converges.antt =====
-- The handler and the applier at their own pace: where the outbox ends up.
use seven_db.Common.{
  ℕ, ◌≡◌, refl, sym, ap, ◌∙◌, String, true, some, List, [], ◌∷◌, ◌++◌, arith, ◌⊎◌, inl, inr, ◌&&◌,
  leb, Bool-cases,
}
use seven_db.Common.Comparable.{◌==◌, nat_key, string_key}
use seven_db.Common.Lists.{All}
use seven_db.Emission.Outbox.Entries.{entry_at}
use seven_db.Emission.Outbox.Refines.{Change, written, purged, Positions, specified, all_specified}
use seven_db.Emission.Manager.{World}
use seven_db.Emission.Raft.{CommittedRecord, Json}
use seven_db.Emission.Applier.{Applier, apply_committed}
use seven_db.Emission.Shard.{
  ShardState, ShardEvent, commits, applier_turns, invoke_replication_handler, commit_record,
  applier_turn, shard_event, shard_events,
}
use seven_db.Emission.Shard.Replicas.{
  OutboxRecord, change_of, IsLoggable, effect, entry_at-effect, log_record_of, handler-effect,
  applier-effect,
}

-- a change decides what a position holds, or leaves it
decides_or_leaves :
    (c : Change) (s : String) (i : ℕ)
    → ((f g : Positions) → specified c f s i ≡ specified c g s i)
      ⊎ ((f : Positions) → specified c f s i ≡ f s i)
unfolding specified
decides_or_leaves (written e) s i =
    elim (Bool-cases ((e.sub_id == s) && (e.seq.commit_index == i))) [
      | inl here ↦ inl (λ f g. rw here refl)
      | inr there ↦ inr (λ f. rw there refl)
    ]
decides_or_leaves (purged sub u) s i = elim (Bool-cases ((sub == s) && leb i u)) [
  | inl here ↦ inl (λ f g. rw here refl)
  | inr there ↦ inr (λ f. rw there refl)
]

specified_at :
    (c : Change) (f g : Positions) (s : String) (i : ℕ)
    → f s i ≡ g s i
    → specified c f s i ≡ specified c g s i
specified_at c f g s i h = elim (decides_or_leaves c s i) [
  | inl decides ↦ decides f g
  | inr leaves ↦ leaves f ∙ h ∙ sym (leaves g)
]

all_specified_at :
    (cs : List Change) (f g : Positions) (s : String) (i : ℕ)
    → f s i ≡ g s i
    → all_specified cs f s i ≡ all_specified cs g s i
unfolding all_specified
all_specified_at [] f g s i h = h
all_specified_at (c ∷ cs) f g s i h =
    all_specified_at cs (specified c f) (specified c g) s i (specified_at c f g s i h)

all_specified-append :
    (cs : List Change) (c : Change) (f : Positions) (s : String) (i : ℕ)
    → all_specified (cs ++ (c ∷ [])) f s i ≡ specified c (all_specified cs f) s i
unfolding all_specified
all_specified-append [] c f s i = refl
all_specified-append (d ∷ cs) c f s i = all_specified-append cs c (specified d f) s i

-- a change that comes early and at the end might as well come at the end only
comes_twice :
    (cs : List Change) (c : Change) (f : Positions) (s : String) (i : ℕ)
    → specified c (all_specified cs (specified c f)) s i ≡ specified c (all_specified cs f) s i
comes_twice cs c f s i = elim (decides_or_leaves c s i) [
  | inl decides ↦ decides (all_specified cs (specified c f)) (all_specified cs f)
  | inr leaves ↦
      specified_at c (all_specified cs (specified c f)) (all_specified cs f) s i
        (all_specified_at cs (specified c f) f s i (leaves f))
]

-- a committed record with its indices
pub record Logged : Type 0 where
  pub raft_index : ℕ
  pub term : ℕ
  pub commit_index : ℕ
  pub outbox_record : OutboxRecord

-- the raft node commits a record, which the channel takes, or the applier has a turn
pub data Step : Type 0 where
  logs : Logged → Step
  turns : Step

abbrev pub changes_of : List Logged → List Change
changes_of [] = []
changes_of (l ∷ ls) = change_of l.outbox_record ∷ changes_of ls

abbrev pub logged : List Step → List Logged
logged [] = []
logged (logs l ∷ ts) = l ∷ logged ts
logged (turns ∷ ts) = logged ts

abbrev pub AllLoggable : List Logged → Type 0
AllLoggable = All (λ l. IsLoggable l.outbox_record)

changes_of-append :
    (ls : List Logged) (l : Logged)
    → changes_of (ls ++ (l ∷ [])) ≡ changes_of ls ++ (change_of l.outbox_record ∷ [])
changes_of-append [] l = refl
changes_of-append (k ∷ ls) l = ap (λ cs. change_of k.outbox_record ∷ cs) (changes_of-append ls l)

AllLoggable-append :
    (ls : List Logged) (l : Logged)
    → AllLoggable ls
    → IsLoggable l.outbox_record
    → AllLoggable (ls ++ (l ∷ []))
AllLoggable-append [] l h k = (k, tt)
AllLoggable-append (m ∷ ls) l h k = (h.0, AllLoggable-append ls l h.1 k)

-- a shard whose applier has nothing to do
abbrev pub idle : {B : Type 0} → World → ShardState B
idle w = record { world = w; channel = []; proposed = [] }

module _ {B : Type 0} (json : Json B) (a : Applier) where
  abbrev pub committed : Logged → CommittedRecord B
  committed l = record {
    raft_index = l.raft_index;
    term = l.term;
    commit_index = l.commit_index;
    log_record = some (log_record_of json l.outbox_record);
  }

  abbrev all_committed : List Logged → List (CommittedRecord B)
  all_committed [] = []
  all_committed (l ∷ ls) = committed l ∷ all_committed ls

  abbrev pub event_of : Step → ShardEvent B
  event_of (logs l) = commits true (committed l)
  event_of turns = applier_turns

  abbrev pub events_of : List Step → List (ShardEvent B)
  events_of [] = []
  events_of (t ∷ ts) = event_of t ∷ events_of ts

  all_committed-append :
      (ls : List Logged) (l : Logged)
      → all_committed (ls ++ (l ∷ [])) ≡ all_committed ls ++ (committed l ∷ [])
  all_committed-append [] l = refl
  all_committed-append (k ∷ ls) l = ap (λ cs. committed k ∷ cs) (all_committed-append ls l)

  -- what stands on the channel makes of the outbox what one application of each record does
  record Owes (held : Positions) (ls : List Logged) (st : ShardState B) : Type 0 where
    on_channel : st.channel ≡ all_committed ls
    loggable : AllLoggable ls
    owed :
        (s : String) (i : ℕ)
        → all_specified (changes_of ls) (entry_at st.world.mgr.ob) s i ≡ held s i

  logs-Owes :
      (held : Positions) (ls : List Logged) (l : Logged) (st : ShardState B)
      → IsLoggable l.outbox_record
      → Owes held ls st
      → Owes
          (specified (change_of l.outbox_record) held)
          (ls ++ (l ∷ []))
          (commit_record json true (committed l) st)
  unfolding commit_record
  logs-Owes held ls l st k h =
      let c = change_of l.outbox_record in
      let before = entry_at st.world.mgr.ob in
      let after =
        entry_at (invoke_replication_handler json (committed l).log_record st.world).mgr.ob in
      record {
        on_channel =
            ap (λ q. q ++ (committed l ∷ [])) h.on_channel ∙ sym (all_committed-append ls l);
        loggable = AllLoggable-append ls l h.loggable k;
        owed = λ s i.
            ap (λ cs. all_specified cs after s i) (changes_of-append ls l)
            ∙ all_specified-append (changes_of ls) c after s i
            ∙ specified_at c (all_specified (changes_of ls) after)
                (all_specified (changes_of ls) (specified c before)) s i
                (all_specified_at (changes_of ls) after (specified c before) s i (
                  ap (λ w. entry_at w.mgr.ob s i) (handler-effect json l.outbox_record st.world k)
                  ∙ entry_at-effect l.outbox_record st.world s i))
            ∙ comes_twice (changes_of ls) c before s i
            ∙ specified_at c (all_specified (changes_of ls) before) held s i (h.owed s i);
      }

  abbrev rest_of : List Logged → List Logged
  rest_of [] = []
  rest_of (l ∷ ls) = ls

  turns-Owes :
      (held : Positions) (ls : List Logged) (st : ShardState B)
      → Owes held ls st
      → Owes held (rest_of ls) (applier_turn json a st)
  unfolding applier_turn apply_committed all_specified
  turns-Owes held [] st h = rw (applier_turn, h.on_channel) h
  turns-Owes held (l ∷ ls) st h =
      rw
        (
          applier_turn,
          h.on_channel,
          applier-effect json a l.commit_index l.outbox_record st.world h.loggable.0,
        )
        (record {
          on_channel = refl;
          loggable = h.loggable.1;
          owed = λ s i.
              all_specified_at (changes_of ls) (entry_at (effect l.outbox_record st.world).mgr.ob)
                (specified (change_of l.outbox_record) (entry_at st.world.mgr.ob)) s i
                (entry_at-effect l.outbox_record st.world s i)
              ∙ h.owed s i;
        })

  steps-Owes :
      (ts : List Step) (held : Positions) (ls : List Logged) (st : ShardState B)
      → AllLoggable (logged ts)
      → Owes held ls st
      → (left : List Logged) × Owes
          (all_specified (changes_of (logged ts)) held)
          left
          (shard_events json a (events_of ts) st)
  unfolding shard_events shard_event all_specified
  steps-Owes [] held ls st good h = (ls, h)
  steps-Owes (logs l ∷ ts) held ls st good h =
      steps-Owes ts (specified (change_of l.outbox_record) held) (ls ++ (l ∷ []))
        (commit_record json true (committed l) st) good.1 (logs-Owes held ls l st good.0 h)
  steps-Owes (turns ∷ ts) held ls st good h =
      steps-Owes ts held (rest_of ls) (applier_turn json a st) good (turns-Owes held ls st h)

  paid :
      (held : Positions) (ls : List Logged) (st : ShardState B)
      → Owes held ls st
      → st.channel ≡ []
      → (s : String) (i : ℕ) → entry_at st.world.mgr.ob s i ≡ held s i
  unfolding all_specified
  paid held [] st h drained s i = h.owed s i
  paid held (l ∷ ls) st h drained s i = absurd (ground (arith, h.on_channel, drained))

  -- However the commits of OUTBOX_WRITE and OUTBOX_PURGE records through the handler and the turns of the
  -- applier interleave, once the applier has emptied the channel each position of the outbox holds what
  -- one application of each record, in the order of the log, leaves there: the records are applied twice,
  -- and a turn in between may bring a purged entry back, but only for a while. The conditions are that the
  -- channel takes every record, and that the records have epochs and indices of 64 bits and ASCII
  -- texts.
  pub shard_events-converges :
      (ts : List Step) (w : World)
      → AllLoggable (logged ts)
      → (shard_events json a (events_of ts) (idle w)).channel ≡ []
      → (s : String) (i : ℕ)
      → entry_at (shard_events json a (events_of ts) (idle w)).world.mgr.ob s i
        ≡ all_specified (changes_of (logged ts)) (entry_at w.mgr.ob) s i
  unfolding all_specified
  shard_events-converges ts w good drained s i =
      let reached =
        steps-Owes ts (entry_at w.mgr.ob) [] (idle w) good
          (record { on_channel = refl; loggable = tt; owed = λ s i. refl }) in
      paid (all_specified (changes_of (logged ts)) (entry_at w.mgr.ob)) reached.0
        (shard_events json a (events_of ts) (idle w)) reached.1 drained s i
