-- ===== src/Store/Sweep.antt =====
-- coordinator/internal/store/store.go: RenewLeasesByID, ExpireLeases, the parked shards, probes of
-- departed agents, and ReapDoneShards.
pub mod Expiry
pub mod Parked
use drsync.Prelude.{
  ℕ, ◌+◌, Bool, true, false, ◌&&◌, not, List, [], ◌∷◌, Option, none, some, Bytes, ◌==◌, ltb, leb,
  if◌then◌else◌, length, take, find_row, select, count_where, delete_where, update_where, column_is,
  bytes_eq, map,
}
use drsync.Model.States.{ShardState, ShardKind, is_kind}
use drsync.Store.Schema.{Shard, ShardTable, Split, Job, Pass, Agent, Store, Error, Result, ok, err}
use drsync.Store.Triggers.{update_shards, delete_shards}
use drsync.Store.Shards.{has_id, is_state, holds_lease, coalesce}

-- MaxShardAttempts
abbrev pub max_shard_attempts : ℕ
max_shard_attempts = 5

unfoldable pub contains_id : List ℕ → ℕ → Bool
contains_id [] i = false
contains_id (x ∷ xs) i = if x == i then true else contains_id xs i

abbrev lease_among : List ℕ → Option ℕ → Bool
lease_among ids none = false
lease_among ids (some l) = contains_id ids l

-- WHERE state = 'LEASED' AND lease_agent = ? AND lease_id IN (…)
unfoldable pub is_renewed : Bytes → List ℕ → Shard → Bool
unfolding contains_id
is_renewed agent_id ids r =
    is_state ShardState.leased r && (column_is r.lease_agent agent_id && lease_among ids r.lease_id)

-- SET lease_expiry = ?
abbrev pub extend_row : ℕ → Shard → Shard
extend_row expiry r = record r { lease_expiry = some expiry }

-- RenewLeasesByID
unfoldable pub renew_leases : Bytes → List ℕ → ℕ → Store → Store × ℕ
renew_leases agent_id ids expiry s = (
  record s { shards = update_shards (is_renewed agent_id ids) (extend_row expiry) s.shards },
  count_where (is_renewed agent_id ids) s.shards.rows,
)

abbrev expiry_before : ℕ → Option ℕ → Bool
expiry_before ms none = false
expiry_before ms (some e) = ltb e ms

-- WHERE state = 'LEASED' AND lease_expiry < ?
abbrev pub is_expired : ℕ → Shard → Bool
is_expired ms r = is_state ShardState.leased r && expiry_before ms r.lease_expiry

abbrev pub is_retriable : ℕ → Shard → Bool
is_retriable ms r = is_expired ms r && ltb r.attempt max_shard_attempts

-- The two UPDATEs of ExpireLeases. `ceiling` is 'attempt ceiling after lease expiry'.
abbrev pub requeue_row : Shard → Shard
requeue_row r = record r { state = ShardState.queued; lease_id = none }

abbrev pub park_row : Bytes → Shard → Shard
park_row ceiling r = record r {
  state = ShardState.parked;
  lease_id = none;
  error = coalesce r.error (some ceiling);
}

-- ExpiredLease: the row as it was, and whether it parked. ORDER BY s.id is the order of the rows.
pub record ExpiredLease : Type 0 where
  pub shard : Shard
  pub parked : Bool

-- ExpireLeases
unfoldable pub expire_leases : ℕ → Bytes → Store → Store × List ExpiredLease
expire_leases ms ceiling s = (
  record s {
    shards =
        update_shards (is_expired ms) (park_row ceiling)
          (update_shards (is_retriable ms) requeue_row s.shards);
  },
  map (λ r. record { shard = r; parked = leb max_shard_attempts r.attempt })
      (select (is_expired ms) s.shards.rows),
)

-- SET state = 'QUEUED', attempt = 0, lease_id = NULL, lease_agent = NULL, lease_expiry = NULL,
-- error = NULL
abbrev pub retry_row : Shard → Shard
retry_row r = record r {
  state = ShardState.queued;
  attempt = 0;
  lease_id = none;
  lease_agent = none;
  lease_expiry = none;
  error = none;
}

abbrev pub is_parked_id : ℕ → Shard → Bool
is_parked_id i r = has_id i r && is_state ShardState.parked r

-- pass_id IN (SELECT p.id FROM passes p JOIN jobs j ON j.id = p.job_id WHERE j.name = ?)
unfoldable pub is_pass_of : Bytes → Store → ℕ → Bool
is_pass_of name s pass_id = elim (find_row (λ (p : Pass). p.id == pass_id) s.passes) [
  | none ↦ false
  | some p ↦ elim (find_row (λ (j : Job). j.id == p.job_id) s.jobs) [
    | none ↦ false
    | some j ↦ bytes_eq j.name name
  ]
]

abbrev pub is_parked_of : Bytes → Store → Shard → Bool
is_parked_of name s r = is_state ShardState.parked r && is_pass_of name s r.pass_id

-- RetryParkedShard
unfoldable pub retry_parked_shard : ℕ → Store → Result Store
retry_parked_shard i s =
    if count_where (is_parked_id i) s.shards.rows == 0
    then err Error.not_parked
    else ok (record s { shards = update_shards (is_parked_id i) retry_row s.shards })

-- RetryParkedByJob
unfoldable pub retry_parked_by_job : Bytes → Store → Store × ℕ
retry_parked_by_job name s = (
  record s { shards = update_shards (is_parked_of name s) retry_row s.shards },
  count_where (is_parked_of name s) s.shards.rows,
)

-- DropParkedShard
unfoldable pub drop_parked_shard : ℕ → Store → Result Store
drop_parked_shard i s =
    if count_where (is_parked_id i) s.shards.rows == 0
    then err Error.not_parked
    else ok (record s { shards = delete_shards (is_parked_id i) s.shards })

-- DropParkedByJob
unfoldable pub drop_parked_by_job : Bytes → Store → Store × ℕ
drop_parked_by_job name s = (
  record s { shards = delete_shards (is_parked_of name s) s.shards },
  count_where (is_parked_of name s) s.shards.rows,
)

-- SELECT id FROM agents WHERE enabled = 1 AND state = 'connected'
abbrev pub is_schedulable : Agent → Bool
is_schedulable a = a.enabled && a.connected

abbrev targets_departed : List Agent → Option Bytes → Bool
targets_departed agents none = false
targets_departed agents (some t) =
    count_where (λ (a : Agent). is_schedulable a && bytes_eq a.id t) agents == 0

abbrev pub is_pending : Shard → Bool
is_pending r = if is_state ShardState.queued r then true else is_state ShardState.leased r

unfoldable pub is_stale_probe : ℕ → List Agent → Shard → Bool
is_stale_probe pass_id agents r =
    (pass_id == r.pass_id)
    && (is_kind r.kind ShardKind.probe && (is_pending r && targets_departed agents r.target_agent))

-- PruneStaleProbes
unfoldable pub prune_stale_probes : ℕ → Store → Store × ℕ
prune_stale_probes pass_id s = (
  record s { shards = delete_shards (is_stale_probe pass_id s.agents) s.shards },
  count_where (is_stale_probe pass_id s.agents) s.shards.rows,
)

unfoldable pub kind_among : List ShardKind → ShardKind → Bool
kind_among [] k = false
kind_among (x ∷ xs) k = if is_kind x k then true else kind_among xs k

-- WHERE pass_id = ? AND state = 'DONE' AND kind IN (…)
unfoldable pub is_reapable : ℕ → List ShardKind → Shard → Bool
is_reapable pass_id kinds r =
    (pass_id == r.pass_id) && (is_state ShardState.done r && kind_among kinds r.kind)

-- ReapDoneShards: the ids of one batch, their splits and rows deleted, and their number added to the
-- pass. `batch` is ReapBatchSize.
unfoldable pub reap_done_shards : ℕ → ℕ → List ShardKind → Store → Store × ℕ
reap_done_shards batch pass_id kinds s =
    let ids =
      map (λ (r : Shard). r.id) (take batch (select (is_reapable pass_id kinds) s.shards.rows)) in
    let hit = λ (r : Shard). contains_id ids r.id in
    let n = count_where hit s.shards.rows in
    (
      record s {
        splits = delete_where (λ (p : Split). contains_id ids p.parent_shard_id) s.splits;
        shards = delete_shards hit s.shards;
        passes =
            update_where (λ (p : Pass). pass_id == p.id)
              (λ p. record p { shards_reaped = p.shards_reaped + n }) s.passes;
      },
      n,
    )
