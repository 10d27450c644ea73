-- ===== src/Examples/LeaseRuns.antt =====
-- A running job with one pass and three shards, granted to an agent, renewed, swept and completed.
use drsync.Prelude.{
  ℕ, ◌+◌, ◌≤◌, ◌≡◌, refl, true, false, List, [], ◌∷◌, none, Bytes, bytes, bytes_eq, arith, length,
  map, max, count_where, select,
}
use drsync.Model.States.{JobState, PassState, ShardState, ShardKind}
use drsync.Store.Schema.{Shard, Counters, Store, Error, err}
use drsync.Store.Triggers.{
  same_key, bump, drop_one, insert_row, on_insert, on_update, on_delete, fire_updates, fire_deletes,
  update_shards, delete_shards, count_of, sum_where,
}
use drsync.Store.Shards.{
  NewShard, new_row, insert_shards, shard_transition, is_held, move_to, accumulate,
}
use drsync.Store.Shards.Valid.{IsValid}
use drsync.Store.Shards.Insert.{empty_table, empty-IsValid, insert_shards-IsValid}
use drsync.Store.Shards.Transitions.{transition_twice, shard_transition-IsValid}
use drsync.Store.Lease.Select.{
  grantable, is_running, fresh_work, held_last, place, by_priority, ranked_take, seen_id,
  keep_unseen, keep_budget, was_trimmed,
}
use drsync.Store.Lease.{
  held_by, is_enabled, is_allowed, entry_list_budget, is_fresh, is_again, is_plain, scan,
  scan_tiers, trim_and_backfill, choose, lease_rows, granted_rows, lease_shards,
}
use drsync.Store.Lease.Cap.{entry_list_cap}
use drsync.Store.Lease.Valid.{lease_shards-IsValid}
use drsync.Store.Lease.Progress.{lease_shards_progress}
use drsync.Store.Sweep.{
  contains_id, kind_among, is_reapable, expire_leases, renew_leases, is_renewed, extend_row,
  reap_done_shards,
}
use drsync.Store.Sweep.Expiry.{
  swept, rows-expire_leases, expired_result_refused, heartbeat_keeps_leases,
}
use drsync.Store.Reachable.{Step, Reachable, Reachable-IsValid}
use drsync.Store.Counts.{shard_state_counts}
use drsync.Store.Counts.Reaped.{reap_keeps_counts}

abbrev pub no_counters : Counters
no_counters = record {
  entries_walked = 0;
  files_copied = 0;
  bytes_copied = 0;
  meta_fixed = 0;
  orphans = 0;
  errors = 0;
  nlink_dup_files = 0;
  nlink_dup_bytes = 0;
  fidelity_exceptions = 0;
  verify_ok = 0;
  verify_fail = 0;
  links_created = 0;
  link_anchor_races = 0;
  link_fallback = 0;
  skipped_newer = 0;
}

abbrev pub agent_a : Bytes
agent_a = bytes "a"

abbrev new_dir : NewShard
new_dir = record { kind = ShardKind.dir; rel_path = bytes "x"; payload = []; target_agent = [] }

abbrev new_list : NewShard
new_list = record {
  kind = ShardKind.entry_list;
  rel_path = bytes "y";
  payload = [];
  target_agent = [];
}

abbrev news : List NewShard
news = new_dir ∷ new_list ∷ new_dir ∷ []

abbrev pub sample : Store
sample = record {
  jobs =
      record { id = 1; name = bytes "j"; spec_yaml = []; state = JobState.running; dry_run = false }
      ∷ [];
  next_job = 2;
  next_pass = 2;
  passes =
      record {
        id = 1;
        job_id = 1;
        pass_no = 1;
        state = PassState.scanning;
        counters = no_counters;
        shards_reaped = 0;
      }
      ∷ [];
  shards = (insert_shards 1 0 news empty_table).0;
  agents = record { id = agent_a; connected = true; enabled = true } ∷ [];
  splits = [];
  chunk_groups = [];
  delete_groups = [];
  link_groups = [];
  link_members = [];
}

sample-IsValid : IsValid sample.shards
sample-IsValid = insert_shards-IsValid 1 0 news empty_table empty-IsValid

abbrev pub new_lease : ℕ → ℕ
new_lease k = 100 + k

abbrev pub granted : Store
granted = (lease_shards agent_a 2 1000 new_lease sample).0

-- What a run of the store computes through.
unfoldable pub store_run : ℕ
unfolding insert_shards insert_row new_row on_insert bump same_key drop_one fire_updates
    fire_deletes on_update on_delete update_shards delete_shards count_of sum_where bytes_eq
    is_running grantable fresh_work held_last place by_priority ranked_take seen_id keep_unseen
    keep_budget was_trimmed is_enabled entry_list_budget is_allowed is_fresh is_again is_plain scan
    scan_tiers trim_and_backfill choose lease_rows granted_rows lease_shards accumulate
    shard_transition contains_id is_renewed renew_leases expire_leases kind_among is_reapable
    reap_done_shards
store_run = 0

-- Two shards are granted, in the order of their ids.
granted_ids :
    map (λ (r : Shard). r.id) (lease_shards agent_a 2 1000 new_lease sample).1 ≡ 1 ∷ 2 ∷ []
unfolding store_run
granted_ids = refl

-- The first of them is completed.
abbrev pub completed : Store
completed = record granted {
  shards = update_shards (is_held 1 100) (move_to ShardState.done none []) granted.shards;
}

transition_twice_example :
    shard_transition 1 100 ShardState.queued none [] 0 none completed ≡ err Error.lease_mismatch
unfolding store_run
transition_twice_example =
    transition_twice 1 100 ShardState.done ShardState.queued none none [] [] 1 0 none none granted
      completed refl

completed-IsValid : IsValid completed.shards
unfolding store_run
completed-IsValid =
    shard_transition-IsValid 1 100 ShardState.done none [] 1 none granted completed (λ e. cc)
      (lease_shards-IsValid agent_a 2 1000 new_lease sample sample-IsValid) refl

entry_list_cap_example :
    count_where (held_by agent_a) (lease_shards agent_a 2 1000 new_lease sample).0.shards.rows
    ≤ max 4 (count_where (held_by agent_a) sample.shards.rows)
entry_list_cap_example = entry_list_cap agent_a 2 1000 new_lease sample sample-IsValid

lease_shards_progress_example : 1 ≤ length (lease_shards agent_a 2 1000 new_lease sample).1
unfolding store_run
lease_shards_progress_example =
    lease_shards_progress agent_a 2 1000 new_lease sample sample-IsValid refl (omega arith)
      (omega arith)

rows-expire_leases_example :
    (expire_leases 2000 (bytes "ceiling") granted).0.shards.rows
    ≡ map (swept 2000 (bytes "ceiling")) granted.shards.rows
rows-expire_leases_example = rows-expire_leases 2000 (bytes "ceiling") granted

expired_result_refused_example :
    shard_transition 1 100 ShardState.done none [] 1 none (expire_leases 2000 [] granted).0
    ≡ err Error.lease_mismatch
unfolding store_run
expired_result_refused_example =
    expired_result_refused 2000 [] 1 100 ShardState.done none [] 1 none granted refl

heartbeat_keeps_leases_example :
    select
      (is_renewed agent_a (100 ∷ []))
      (expire_leases 1500 [] (renew_leases agent_a (100 ∷ []) 3000 granted).0).0.shards.rows
    ≡ map (extend_row 3000) (select (is_renewed agent_a (100 ∷ [])) granted.shards.rows)
heartbeat_keeps_leases_example =
    heartbeat_keeps_leases agent_a (100 ∷ []) 3000 1500 [] granted (omega arith)

reap_keeps_counts_example :
    shard_state_counts 1 (reap_done_shards 20000 1 (ShardKind.dir ∷ []) completed).0 ShardState.done
    ≡ shard_state_counts 1 completed ShardState.done
unfolding store_run
reap_keeps_counts_example =
    reap_keeps_counts 20000 1 (ShardKind.dir ∷ []) completed 1 ShardState.done completed-IsValid
      refl

abbrev bare : Store
bare = record sample { shards = empty_table }

pub sample-Reachable : Reachable sample
sample-Reachable =
    Reachable.next (Reachable.start {s = bare} refl) (Step.insert {s = bare} 1 0 news)

Reachable-IsValid_example : IsValid (lease_shards agent_a 2 1000 new_lease sample).0.shards
Reachable-IsValid_example =
    Reachable-IsValid (lease_shards agent_a 2 1000 new_lease sample).0
      (Reachable.next sample-Reachable (Step.lease {s = sample} agent_a 2 1000 new_lease))
