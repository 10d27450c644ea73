-- ===== src/Store/Lease/Select.antt =====
-- coordinator/internal/store/store.go, LeaseShards: the WHERE clauses of its scans, their order and
-- limit, and the loops over the rows they return.
use drsync.Prelude.{
  ℕ, ◌-◌, Bool, true, false, ◌&&◌, not, List, [], ◌∷◌, Option, none, some, Bytes, ◌==◌, leb,
  if◌then◌else◌, take, find_row, select, column_is, bytes_eq,
}
use drsync.Model.States.{JobState, ShardState, ShardKind, is_kind, is_job_state}
use drsync.Store.Schema.{Shard, Job, Pass, Store}
use drsync.Store.Shards.{has_id, is_state}

abbrev pub is_entry_list : Shard → Bool
is_entry_list r = is_kind r.kind ShardKind.entry_list

-- notEntrylist
abbrev pub not_entry_list : Shard → Bool
not_entry_list r = not (is_entry_list r)

-- JOIN passes, JOIN jobs … j.state = 'RUNNING'
unfoldable pub is_running : Store → ℕ → Bool
is_running s pass_id = elim (find_row (λ (p : Pass). p.id == pass_id) s.passes) [
  | none ↦ false
  | some p ↦ elim (find_row (λ (j : Job). j.id == p.job_id) s.jobs) [
    | none ↦ false
    | some j ↦ is_job_state j.state JobState.running
  ]
]

-- s.target_agent IS NULL OR s.target_agent = ?
abbrev pub may_take : Bytes → Option Bytes → Bool
may_take agent_id none = true
may_take agent_id (some t) = bytes_eq t agent_id

-- selCols
unfoldable pub grantable : Bytes → Store → Shard → Bool
grantable agent_id s r =
    is_state ShardState.queued r && (is_running s r.pass_id && may_take agent_id r.target_agent)

-- NOT (s.attempt > 0 AND s.lease_agent = ?), in SQL's logic: NULL for a NULL agent of a tried shard.
abbrev other_agent : Bytes → Option Bytes → Bool
other_agent agent_id none = false
other_agent agent_id (some a) = not (bytes_eq a agent_id)

unfoldable pub fresh_work : Bytes → Shard → Bool
fresh_work agent_id r = if r.attempt == 0 then true else other_agent agent_id r.lease_agent

-- s.attempt > 0 AND s.lease_agent = ?
unfoldable pub held_last : Bytes → Shard → Bool
held_last agent_id r = not (r.attempt == 0) && column_is r.lease_agent agent_id

-- ORDER BY s.priority DESC, s.id: the rows come in the order of their ids.
unfoldable pub place : Shard → List Shard → List Shard
place r [] = r ∷ []
place r (x ∷ xs) = let rest = place r xs in if leb x.prio r.prio then r ∷ x ∷ xs else x ∷ rest

unfoldable pub by_priority : List Shard → List Shard
by_priority [] = []
by_priority (r ∷ rs) = place r (by_priority rs)

-- SELECT … WHERE … ORDER BY s.priority DESC, s.id LIMIT ?
unfoldable pub ranked_take : ℕ → (Shard → Bool) → List Shard → List Shard
ranked_take limit w rows = take limit (by_priority (select w rows))

unfoldable pub seen_id : ℕ → List Shard → Bool
seen_id i [] = false
seen_id i (r ∷ rs) = if has_id i r then true else seen_id i rs

-- `if seen[r.ID] { continue }`
unfoldable pub keep_unseen : List Shard → List Shard → List Shard
keep_unseen seen [] = []
keep_unseen seen (r ∷ rs) =
    let fresh = r ∷ keep_unseen (r ∷ seen) rs in
    let rest = keep_unseen seen rs in if seen_id r.id seen then rest else fresh

-- Keep at most `budget` entry-list shards.
unfoldable pub keep_budget : ℕ → List Shard → List Shard
keep_budget budget [] = []
keep_budget budget (r ∷ rs) =
    let kept = r ∷ keep_budget (budget - 1) rs in
    let dropped = keep_budget budget rs in
    let plain = r ∷ keep_budget budget rs in
    if is_entry_list r then (if budget == 0 then dropped else kept) else plain

-- `trimmed`: some entry-list shard was dropped.
unfoldable pub was_trimmed : ℕ → List Shard → Bool
was_trimmed budget [] = false
was_trimmed budget (r ∷ rs) =
    let spent = was_trimmed (budget - 1) rs in
    let rest = was_trimmed budget rs in
    if is_entry_list r then (if budget == 0 then true else spent) else rest
