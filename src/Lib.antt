-- ===== src/Lib.antt =====
-- drsync moves file trees with a fleet of agents; its coordinator (a Go daemon, coordinator/) keeps
-- a queue of shards in SQLite, grants them under leases, and drives each job through passes and
-- each pass through phases. This library models the coordinator's decisions and proves what they
-- promise.
--
-- The parts and their modules:
-- Prelude: tests on native numbers, lists, byte strings, and SQL statements on tables (select,
-- count_where, update_where, delete_where: one function for each form of statement).
-- Model: the enumerations of coordinator/internal/model/model.go (States), the phase that a pass is
-- shown in (Phase), and in Spec the job spec of coordinator/internal/model/spec.go: its defaults,
-- Validate and ParseSpec (Validate), PathsOverlap (Paths) and ToJobOptions (Options).
-- Store: coordinator/internal/store/store.go. Schema has the rows; a store is the record of its
-- tables. Triggers has the rollup shard_counts, which every statement on shards writes; Shards the
-- insertion of shards and shardTransition; Lease has LeaseShards with its tiers, cap and backfill;
-- Sweep has heartbeats, expiry, parked shards and the reaper; Counts the figures read off the
-- rollup; Jobs the test of overlapping destinations; Passes the rows of passes; Splits RecordSplit
-- with the sightings of hard links; Chunks the groups of a file copied in parts; DeleteGroups the
-- directories whose removal waits for what lies in them. Purge is DeleteJob, Agents sets the state
-- and the flag of an agent. Reachable is the step relation of all the calls that write to shards.
-- Each operation takes the store and returns the one after it, with its result or error; one call
-- is one transaction, since the store takes its lock for all of a write.
-- Scheduler: coordinator/internal/scheduler/scheduler.go, the share of an agent (Shares), the
-- override that spreads a walk over the fleet (Spread), the cache of resolved specs (Policy), and
-- Grant with buildItem over LeaseShards (Grant).
-- PassCtrl: coordinator/internal/passctrl/passctrl.go. Converge is decideNextPass, Batches and
-- Seeds the shards that each phase is seeded with, Lifecycle StartJob, ResumeJob, TriggerPass and
-- seedPass, and Advance the tick of one job. It calls the operations of Store in the order of the
-- source; where an error stops it, what was written before stays.
-- AgentSrv: coordinator/internal/agentsrv/server.go. Messages has the messages of
-- proto/drsync.proto that the handlers read, Results onShardResult, completeChunk and
-- onTaskResults, BigFiles planBigFiles, Splits onShardSplit and planLinkSightings, and Dispatch the
-- loop of one session over Store and Scheduler, and Acks the flusher that acknowledges journal
-- batches (onJournalBatch, flushAndAck) as a step relation, with the Sync of full segments. The
-- interleaving of sessions is that of their calls of the store, the steps of Store.Reachable.
-- Api: coordinator/internal/api/api.go, submitJob over ParseSpec and CreateJob; Actions has
-- jobAction, triggerPass and purgeJob, Operate setAgentEnabled and the actions on parked shards.
-- Journal: coordinator/internal/journal, Append over the segments of a pass, readSegment and
-- ReadRecords, and what Summary counts; it shares the little-endian numbers of Wire.
-- Wire: coordinator/internal/wire, the frame codec on a stream of bytes (values below 256).
-- Examples: runs at concrete inputs.
--
-- How the model stands to the code: a Go int64 that is an id, a count or a time is a native number;
-- the sum that decideNextPass reads as uint64 is taken modulo 2 ^ 64. A column that may be NULL is
-- an option. A loop of the source that runs over a list is structural recursion and needs no fuel.
-- Two do not: the readers of a journal's segment and of the records of a batch advance by lengths
-- that they read, and have as fuel the number of bytes before them, which Journal.Total shows to be
-- enough. The climb from a directory to its parents (closeDeleteGroupTx) runs over the list of its
-- ancestors. Times and the random lease ids are arguments. Parameters stand for what is not in the
-- repository: the YAML decoder of ParseSpec (decode), proto.Marshal and proto.Unmarshal of each
-- payload, the hash of the options, zstd and Uvarint. A sample rate is the exact value of its
-- float64 or NaN, and its product by a million is rounded as the machine does. PassCtrl also takes
-- what a pass journal reads as.
--
-- Not modelled: the SQLite engine, its WAL and vacuum maintenance; columns that only record times;
-- failing writes of a journal, and restarts; the registry of sessions, TLS and the handshake;
-- reading and rendering (the other routes of api, webui, cli, notify, metrics, events, certs,
-- authn); the agent, which is C code.
pub mod Prelude
pub mod Model
pub mod Store
pub mod Scheduler
pub mod PassCtrl
pub mod Wire
pub mod AgentSrv
pub mod Journal
pub mod Api
mod Examples
