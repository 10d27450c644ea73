-- ===== src/Store.antt =====
-- coordinator/internal/store/store.go: the coordinator's system of record.
pub mod Schema
pub mod Triggers
pub mod Shards
pub mod Lease
pub mod Sweep
pub mod Counts
pub mod Jobs
pub mod Passes
pub mod Chunks
pub mod DeleteGroups
pub mod Splits
pub mod Purge
pub mod Agents
pub mod Reachable
