-- ===== src/Lib.antt =====
-- A verification library for SevenDB, a reactive database in Go: a client subscribes to a query, and
-- the server sends it the new result after each change of the data.
--
-- The library covers the durable path of these emissions, the subscriptions in memory, the logs of
-- buckets, the shadow log of a raft node with the loop that applies what is committed, the records of
-- the write-ahead log of commands, the encoding of integers, the key-value store with the watch manager
-- of its events, and the deterministic test harness.
--
-- How an event travels. `NotifyWatchers` (internal/server/ironhawk/watch_manager.go) proposes a
-- DATA_EVENT to the raft group of the key's shard. The applier of the leader answers its commit by
-- proposing an OUTBOX_WRITE at the same commit index; every node that sees this record committed
-- writes the event to the outbox of its emission manager. The notifier of the shard scans the outbox
-- at each tick and sends what is due; a client acknowledges positions (EMITACK), which the notifier
-- or the applier turns into an OUTBOX_PURGE; a client that comes back (EMITRECONNECT) gets its
-- entries rebound to its new id and resumes.
--
-- How the rest hangs together. A command changes the store of its shard, which sends an event for the
-- key on a channel; the watch manager of internal/watchmanager receives it and hands the commands
-- that watch the key to their clients. A bucket log keeps the entries of one bucket in a file, and
-- `Bucket.Run` applies them from the last one that it applied. A raft node writes each committed entry
-- to its shadow log and the entry's index and checksum to a ring, numbers the entry in its bucket, gives
-- it to the replication handler and answers who waits for it; at its start the ring is filled from the
-- log.
--
-- Files, and the code that they model:
--   Common           Go's maps, comparable keys, decimal numbers of 64 bits (strconv), and the lemmas
--                    that the parts share. A map is the list of its entries in the order in which
--                    `range` visits them; this order is left open.
--   Emission.Types   internal/emission/types.go.
--   Emission.Metrics internal/emission/metrics.go: gauges and counters as int64 in 64 bits.
--   Emission.Outbox  internal/emission/outbox.go, `outboxState`: Sort is `sort.Ints` over `int(k)`,
--                    Valid the well-formedness, Entries the outbox as a partial map, Count its size,
--                    Ascending and Order the list that `pendingSorted` returns, and Refines
--                    sequences of writes and purges.
--   Emission.Manager internal/emission/outbox.go, `Manager`: Gauges, Acks and Resume.
--   Emission.Rebind  internal/emission/outbox.go, `RebindByFingerprint`: `resolve` is its search,
--                    `move` its move of entries and watermarks.
--   Emission.Notifier  internal/emission/notifier.go: `process_acks` and `process_tick`.
--   Emission.Raft    the records of internal/raft/types.go that the emission layer builds, and
--                    internal/emission/raft_integration.go.
--   Emission.Applier internal/emission/applier.go; Pipeline follows an event through the log.
--   Emission.Commands  internal/cmd/cmd_emitreconnect.go and internal/cmd/cmd_emitack.go.
--   Emission.Shard   the emission wiring of internal/shardmanager/main.go: the handler and the applier,
--                    each at its own pace; Replicas is about one record, Converges about all.
--   Server.WatchManager  internal/server/ironhawk/watch_manager.go: Clients is the relation of
--                    fingerprints and clients, Tidy the well-formedness of the maps, Replay the log.
--                    `strings.Fields` splits ASCII text, and
--                    FieldsFunc, which it calls on other text, is a parameter.
--   Bucket           internal/bucket: Frame is the layout of a log file, with Scan for whole frames and
--                    Tear for a torn one; FileLog is `FileBucketLog`, with Content for what a file
--                    holds, Calls for sequences of calls and restarts, and Torn for a crash in a
--                    write; Runtime is `Bucket.Run`.
--   Dencoding        internal/dencoding/int.go, with RoundTrip and InPlace.
--   Store            internal/store/store.go and expire.go, and internal/common/regmap.go: Count and
--                    Calls are about the counter of keys, Expiry and Sweep about expired keys,
--                    Overwrite about a put at a key in use; SetExpiry is `EvaluateAndSetExpiry`,
--                    with Verdict for what its options come to;
--                    Eviction is internal/store/batchevictionlru.go.
--   QueryWatch       internal/watchmanager/watch_manager.go: Consistent is about who is subscribed,
--                    Requests and Listen about the three maps.
--   RaftWal          internal/raftwal/writer.go, the shadow log of a raft node: Frame is the layout of a
--                    segment, with the loops over one, Scan for whole frames and Folds for what the
--                    loops make of them; Writer and Append are the writer, Replay what reads all
--                    segments and Prune PruneThrough. Content is the log that a writer stands for,
--                    Runs, Open, Calls and Strict what calls do to it, Sorted the order of the files, and
--                    Durable, Restarts and Tail what is read back.
--   Raft             internal/raft/types.go: Types has the state of a node, Validator is `walValidator`,
--                    with Window for its ring, Recent for a tuple more and Seeded for many; Apply is the loop of `processReady` over
--                    the committed entries, with Counts, Commits and Contiguous for the commit indices; Shadow
--                    is `ValidateShadowTail`, with Agrees, Entries and Valid for its answer.
--   Wal              internal/wal/wal_forge.go, the write-ahead log of commands: Unified is the envelope of
--                    an entry (`encodeUWAL`, `decodeUWAL`), with RoundTrip; Segment the frames of
--                    `AppendEntry` and `lastIndexOfSegment`, with Last for a segment without the
--                    preamble of a manifest; Replay is `ReplayItems`, with
--                    Items for one segment and Segments for several.
--   Harness.Network, Harness.Scheduler, Harness.Clock  internal/harness/network, scheduler, clock.
--
-- How it is modelled. A method on a struct is a function that takes the struct and returns it
-- changed, with the method's results beside it; `World` is a manager with the package variable
-- `Metrics`. What one mutex guards is one step. A uint64 is a natural number below 2 ^ 64, with the
-- remainder written out at each sum that can wrap. A process of the shadow log of a raft node ends
-- between two calls: what a process leaves that ends inside an append is not modelled. Bytes are
-- numbers, and a Go string is a string of the model with one character for each byte. Goroutines are
-- sequences of their steps in any order, as the commits of a shard and the turns of its applier.
--
-- Parameters: the transport of the notifier, the seconds and milliseconds that it observes, JSON on
-- payloads (with its round trip on ASCII text), the answer of a proposal, the write-ahead log and the
-- hash that the watch manager calls, the ids of buckets and JSON on the entries of their logs (with
-- its round trip for ids that it keeps), the values of the store, the strategy of eviction and the
-- target of the one that the source has, strings.ToUpper, the fingerprints of commands, what a task of
-- the scheduler does, protobuf on envelopes, elements and commands (with its round trip for
-- those that it can represent), JSON on proposals, the replication handler of a raft node, strings.FieldsFunc, and whether the channel of
-- committed records takes a record within the 100 ms that the raft node waits.
--
-- Fuel: `format_uint` writes at most 20 digits, which any uint64 fits. `run_all` is a loop that need
-- not end; its fuel is an argument, and it gives nothing where the fuel is used up. `read_records`
-- has more fuel than the file has bytes, and each turn of its loop that goes on takes 8 or more; the
-- loops over a segment of the shadow log and of the log of commands likewise.
--
-- Not modelled: the other goroutines, channels and tickers, logging, the raft consensus itself, the snapshots
-- and the storage of a raft node, the files, the rotation, the pruning and the manifest of the
-- write-ahead log of commands, failures of the file system, the commands on the store, the wire
-- protocol and the command line.
pub mod Common
pub mod Emission
pub mod Harness
pub mod Server
pub mod Bucket
pub mod Dencoding
pub mod Store
pub mod QueryWatch
pub mod RaftWal
pub mod Raft
pub mod Wal
