-- ===== src/Store/Counts.antt =====
-- coordinator/internal/store/store.go: the counts read off the rollup, ShardStateCounts,
-- ShardKindsPresent and SchedulerCounts, and the schedulable agents.
pub mod Reaped
use drsync.Prelude.{
  ℕ, ◌+◌, ◌≡◌, Bool, true, false, ◌&&◌, List, [], ◌∷◌, Option, none, some, Bytes, ◌==◌, ltb,
  if◌then◌else◌, find_row, select, count_where, map, max,
}
use drsync.Model.States.{ShardState, ShardKind, is_kind, is_shard_state}
use drsync.Store.Schema.{Shard, CountRow, Pass, Agent, Store}
use drsync.Store.Triggers.{sum_where}
use drsync.Store.Lease.Select.{is_running}
use drsync.Store.Sweep.{is_schedulable}

abbrev pub in_pass : ℕ → ShardState → ℕ → ShardKind → ShardState → Bool
in_pass pass_id s p k u = (pass_id == p) && is_shard_state s u

-- SELECT shards_reaped FROM passes WHERE id = ?, 0 for no row
unfoldable pub reaped_of : ℕ → List Pass → ℕ
reaped_of pass_id [] = 0
reaped_of pass_id (p ∷ ps) =
    let rest = reaped_of pass_id ps in if p.id == pass_id then p.shards_reaped else rest

-- ShardStateCounts, as the function from a state to its count.
unfoldable pub shard_state_counts : ℕ → Store → ShardState → ℕ
shard_state_counts pass_id s ShardState.done =
    sum_where (in_pass pass_id ShardState.done) s.shards.counts + reaped_of pass_id s.passes
shard_state_counts pass_id s st = sum_where (in_pass pass_id st) s.shards.counts

-- ShardKindsPresent
unfoldable pub shard_kinds_present : ℕ → Store → ShardKind → Bool
shard_kinds_present pass_id s k =
    ltb 0 (sum_where (λ p l u. (pass_id == p) && is_kind k l) s.shards.counts)

abbrev pub is_walk : ShardKind → Bool
is_walk ShardKind.dir = true
is_walk ShardKind.entry_list = true
is_walk _ = false

abbrev pub is_live_state : ShardState → Bool
is_live_state ShardState.queued = true
is_live_state ShardState.leased = true
is_live_state _ = false

-- SchedulerCounts
pub record SchedulerCounts : Type 0 where
  pub walk_pending : ℕ
  pub queued : ℕ

abbrev pub is_walk_pending : Store → ℕ → ShardKind → ShardState → Bool
is_walk_pending s p k u = is_running s p && (is_walk k && is_live_state u)

abbrev pub is_running_queued : Store → ℕ → ShardKind → ShardState → Bool
is_running_queued s p k u = is_running s p && is_shard_state ShardState.queued u

unfoldable pub scheduler_counts : Store → SchedulerCounts
scheduler_counts s = record {
  walk_pending = sum_where (is_walk_pending s) s.shards.counts;
  queued = sum_where (is_running_queued s) s.shards.counts;
}

-- CountSchedulableAgents
unfoldable pub count_schedulable_agents : List Agent → ℕ
count_schedulable_agents agents = max (count_where is_schedulable agents) 1

-- SchedulableAgents: the agents come in the order of their ids.
unfoldable pub schedulable_agents : List Agent → List Bytes
schedulable_agents agents = map (λ (a : Agent). a.id) (select is_schedulable agents)
