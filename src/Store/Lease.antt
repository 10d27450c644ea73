-- ===== src/Store/Lease.antt =====
-- coordinator/internal/store/store.go, LeaseShards: granting queued shards to an agent.
pub mod Select
pub mod Chosen
pub mod Cap
pub mod Valid
pub mod Progress
use drsync.Prelude.{
  ℕ, suc, ◌+◌, ◌-◌, Bool, true, false, ◌&&◌, not, List, [], ◌∷◌, ◌++◌, Option, none, some, Bytes,
  ◌==◌, ltb, if◌then◌else◌, length, find_row, count_where, column_is, bytes_eq,
}
use drsync.Model.States.{ShardState, ShardKind, is_kind, is_shard_state}
use drsync.Store.Schema.{Shard, ShardTable, Agent, Store}
use drsync.Store.Triggers.{update_shards}
use drsync.Store.Shards.{has_id, is_state}
use drsync.Store.Lease.Select.{
  is_entry_list, not_entry_list, grantable, fresh_work, held_last, ranked_take, keep_unseen,
  keep_budget, was_trimmed,
}

-- maxEntrylistPerAgent
abbrev pub max_entrylist_per_agent : ℕ
max_entrylist_per_agent = 4

-- SELECT enabled FROM agents WHERE id = ?: an agent that is not registered is allowed.
unfoldable pub is_enabled : Bytes → List Agent → Bool
is_enabled agent_id agents = elim (find_row (λ (a : Agent). bytes_eq a.id agent_id) agents) [
  | none ↦ true
  | some a ↦ a.enabled
]

-- The entry-list shards that the agent holds.
abbrev pub held_by : Bytes → Shard → Bool
held_by agent_id r =
    is_state ShardState.leased r && (column_is r.lease_agent agent_id && is_entry_list r)

-- elBudget: subtraction on ℕ stops at 0, which is the source's `if elBudget < 0`.
unfoldable pub entry_list_budget : Bytes → List Shard → ℕ
entry_list_budget agent_id rows = max_entrylist_per_agent - count_where (held_by agent_id) rows

-- elExcl: at the cap, entry-list shards are left out of the scans.
unfoldable pub is_allowed : ℕ → Shard → Bool
is_allowed budget r = if budget == 0 then not_entry_list r else true

-- The WHERE clauses of the three scans.
unfoldable pub is_fresh : Bytes → Store → Shard → Bool
is_fresh agent_id s r =
    grantable agent_id s r
    && (is_allowed (entry_list_budget agent_id s.shards.rows) r && fresh_work agent_id r)

unfoldable pub is_again : Bytes → Store → Shard → Bool
is_again agent_id s r =
    grantable agent_id s r
    && (is_allowed (entry_list_budget agent_id s.shards.rows) r && held_last agent_id r)

unfoldable pub is_plain : Bytes → Store → Shard → Bool
is_plain agent_id s r = grantable agent_id s r && not_entry_list r

-- `scan`: the rows of a query that no scan of this call has returned.
unfoldable pub scan : List Shard → ℕ → (Shard → Bool) → List Shard → List Shard
scan seen limit w rows = keep_unseen seen (ranked_take limit w rows)

-- Tier 1, and tier 2 if the first did not fill the grant.
unfoldable pub scan_tiers : Bytes → ℕ → Store → List Shard
scan_tiers agent_id max s =
    let tier1 = scan [] max (is_fresh agent_id s) s.shards.rows in
    if ltb (length tier1) max
    then tier1 ++ scan tier1 (max - length tier1) (is_again agent_id s) s.shards.rows
    else tier1

-- The entry-list budget, and the backfill if it left the grant short.
unfoldable pub trim_and_backfill : Bytes → ℕ → Store → List Shard → List Shard
trim_and_backfill agent_id max s scanned =
    let budget = entry_list_budget agent_id s.shards.rows in
    let kept = keep_budget budget scanned in
    if was_trimmed budget scanned && ltb (length kept) max
    then kept ++ scan scanned (max - length kept) (is_plain agent_id s) s.shards.rows
    else kept

-- What is granted, in order.
unfoldable pub choose : Bytes → ℕ → Store → List Shard
choose agent_id max s = trim_and_backfill agent_id max s (scan_tiers agent_id max s)

-- SET state = 'LEASED', attempt = attempt + 1, lease_id = ?, lease_agent = ?, lease_expiry = ?
abbrev pub lease_to : Bytes → ℕ → ℕ → Shard → Shard
lease_to agent_id lease_id expiry r = record r {
  state = ShardState.leased;
  attempt = r.attempt + 1;
  lease_id = some lease_id;
  lease_agent = some agent_id;
  lease_expiry = some expiry;
}

-- The loop of UPDATEs. `new_lease k` is the k-th value that newLeaseID draws.
unfoldable pub lease_rows : Bytes → ℕ → (ℕ → ℕ) → ℕ → List Shard → ShardTable → ShardTable
lease_rows agent_id expiry new_lease k [] t = t
lease_rows agent_id expiry new_lease k (r ∷ rs) t =
    lease_rows agent_id expiry new_lease (suc k) rs
      (update_shards (has_id r.id) (lease_to agent_id (new_lease k) expiry) t)

-- LeaseShards: the store after it, and the rows as they are returned.
unfoldable pub granted_rows : Bytes → ℕ → (ℕ → ℕ) → ℕ → List Shard → List Shard
granted_rows agent_id expiry new_lease k [] = []
granted_rows agent_id expiry new_lease k (r ∷ rs) =
    lease_to agent_id (new_lease k) expiry r ∷ granted_rows agent_id expiry new_lease (suc k) rs

unfoldable pub lease_shards : Bytes → ℕ → ℕ → (ℕ → ℕ) → Store → Store × List Shard
unfolding is_enabled choose scan_tiers trim_and_backfill lease_rows granted_rows
lease_shards agent_id max expiry new_lease s =
    let out = choose agent_id max s in
    if max == 0
    then (s, [])
    else if is_enabled agent_id s.agents
    then (
      record s { shards = lease_rows agent_id expiry new_lease 0 out s.shards },
      granted_rows agent_id expiry new_lease 0 out,
    )
    else (s, [])
