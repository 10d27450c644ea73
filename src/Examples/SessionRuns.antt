-- ===== src/Examples/SessionRuns.antt =====
-- An agent's session: a grant, its results, a split and a large file.
use drsync.Prelude.{
  true, ℕ, ◌≡◌, ◌≤◌, ◌⊎◌, refl, false, List, [], ◌∷◌, none, some, Bytes, bytes, length, All, arith,
  count_where,
}
use drsync.Model.Spec.{or_number, or_text, or_flag, or_rate, apply_defaults}
use drsync.Model.Spec.Paths.{trim_slashes, has_prefix, paths_overlap}
use drsync.Model.Spec.Validate.{
  check_rule, check_filter, check_filters, has_inner_dot, all_plain, is_domain, matches_address,
  check_recipients, validate_modes, validate_paths, validate_filters, validate, parse_spec,
}
use drsync.Model.Spec.Options.{
  flags_of, server_side_copy_of, conflict_of, untranslatable_of, rules_of, to_job_options,
}
use drsync.Store.Schema.{Store}
use drsync.Store.Shards.{park_shard}
use drsync.Store.Shards.Answered.{IsAnswered}
use drsync.Store.Shards.Valid.{IsValid}
use drsync.Store.Lease.{lease_shards}
use drsync.Store.Counts.{scheduler_counts, count_schedulable_agents}
use drsync.Scheduler.Shares.{fair_share, grant_max_items}
use drsync.Scheduler.Spread.{spreads, walk_overrides}
use drsync.Scheduler.Policy.{Sched, resolve_policy, job_policy}
use drsync.Scheduler.Grant.{
  GrantLib, WorkRequest, WorkGrant, Granted, fleet, build_item, grant_rows, cached_hash,
  options_for, grant_size, grant_work, lease_of,
}
use drsync.Scheduler.Grant.Options.{Equipped}
use drsync.Scheduler.Grant.Rounds.{is_item_of, Undecodable}
use drsync.Scheduler.Grant.Items.{grant_work_settles}
use drsync.Scheduler.Grant.Equipped.{grant_work-Equipped}
use drsync.AgentSrv.Messages.{FileGen, Status, ShardResult, Codec, Fault}
use drsync.AgentSrv.Results.{on_shard_result}
use drsync.AgentSrv.Results.Once.{on_shard_result_stale, on_shard_result_twice}
use drsync.AgentSrv.BigFiles.{chunk_tasks, n_chunks_of}
use drsync.AgentSrv.BigFiles.Tiling.{Tiles, IsChunkOf, chunk_tasks_tile}
use drsync.AgentSrv.Splits.{ShardSplit, entry_shards, on_shard_split}
use drsync.AgentSrv.Splits.Assigned.{refused_split_whole}
use drsync.AgentSrv.Dispatch.{Message, run_session, run_session-IsValid}
use drsync.AgentSrv.Acks.{
  Phase, Acks, raise, on_journal_batch, targets_of, take_targets, flush_journal, send_acks, AckStep,
  AckReachable,
}
use drsync.AgentSrv.Acks.Durable.{times, acked_durable}
use drsync.Examples.LeaseRuns.{store_run, sample, agent_a, new_lease, granted, sample-Reachable}
use drsync.Examples.SpecRuns.{spec_lib, idle}

abbrev grant_lib : GrantLib Bytes
grant_lib = record { specs = spec_lib; unmarshal = λ k b. none; error_text = λ k b. [] }

abbrev request : WorkRequest
request = record { shard_credits = 2; task_credits = 0; cached = [] }

-- The resolution of the sample's spec, and Grant.
grant_run : ℕ
unfolding store_run or_number or_text or_flag or_rate apply_defaults trim_slashes has_prefix
    paths_overlap check_rule check_filter check_filters has_inner_dot all_plain is_domain
    matches_address check_recipients validate_modes validate_paths validate_filters validate
    parse_spec flags_of server_side_copy_of conflict_of untranslatable_of rules_of to_job_options
    park_shard scheduler_counts count_schedulable_agents fair_share spreads walk_overrides
    resolve_policy job_policy fleet build_item grant_rows cached_hash options_for grant_size
    grant_work
grant_run = 0

abbrev outcome : Sched × Store × Granted Bytes
outcome = grant_work grant_lib agent_a request 5 1000 new_lease idle sample

abbrev work_of : Granted Bytes → WorkGrant Bytes
work_of (Granted.grant wg) = wg
work_of (Granted.refused e) = record { items = []; options = [] }

-- The directory is granted, with the options of its job; the entry list, whose payload does not decode, is
-- parked.
outcome_granted : outcome ≡ (outcome.0, outcome.1, Granted.grant (work_of outcome.2))
unfolding grant_run
outcome_granted = refl

grant_work_settles_example :
    (length (work_of outcome.2).items ≤ grant_max_items)
    × All
        (λ r.
          (1 ≤ count_where (is_item_of grant_lib r) (work_of outcome.2).items)
          ⊎ (Undecodable grant_lib r.kind r
              × IsAnswered r.id (lease_of r.lease_id) outcome.1.shards))
        (lease_shards agent_a (grant_size request 5 idle sample) 1000 new_lease sample).1
grant_work_settles_example =
    grant_work_settles grant_lib agent_a request 5 1000 new_lease idle outcome.0 sample outcome.1
      (work_of outcome.2) outcome_granted

grant_work-Equipped_example :
    All
      (λ it. Equipped spec_lib outcome.1 [] (work_of outcome.2).options it.job_id)
      (work_of outcome.2).items
grant_work-Equipped_example =
    grant_work-Equipped grant_lib agent_a request 5 1000 new_lease idle outcome.0 sample outcome.1
      (work_of outcome.2) tt outcome_granted

abbrev codec : Codec
codec = record {
  marshal_chunk = λ t. some t.rel_path;
  unmarshal_chunk = λ b. none;
  marshal_batch = λ bs. [];
  unmarshal_batch = λ b. none;
  marshal_entries = λ d ns. none;
  marshal_result = λ r. some [];
}

abbrev finished : ShardResult
finished = record {
  shard_id = 1;
  lease_id = 100;
  status = Status.ok;
  counters = none;
  error = [];
  deferred_rmdirs = [];
}

on_shard_result_stale_example :
    (on_shard_result codec (record finished { lease_id = 7 }) granted).0 ≡ granted
unfolding store_run
on_shard_result_stale_example =
    on_shard_result_stale codec (record finished { lease_id = 7 }) granted refl

on_shard_result_twice_example :
    (on_shard_result codec finished (on_shard_result codec finished granted).0).0
    ≡ (on_shard_result codec finished granted).0
on_shard_result_twice_example = on_shard_result_twice codec finished granted

abbrev gen : FileGen
gen = record { size = 20; mtime_ns = 3 }

chunk_tasks_tile_example :
    Tiles 0 (chunk_tasks (bytes "f") (bytes "t") gen 8 (n_chunks_of 20 8) 0) 20
    × All
        (IsChunkOf (bytes "f") gen 8)
        (chunk_tasks (bytes "f") (bytes "t") gen 8 (n_chunks_of 20 8) 0)
    × (length (chunk_tasks (bytes "f") (bytes "t") gen 8 (n_chunks_of 20 8) 0) ≡ n_chunks_of 20 8)
chunk_tasks_tile_example =
    chunk_tasks_tile (bytes "f") (bytes "t") gen 8 (omega arith) (omega arith) (omega arith)

-- Its entry list does not marshal.
abbrev split : ShardSplit
split = record {
  parent_shard_id = 1;
  seq = 1;
  subdirs = bytes "x/y" ∷ [];
  delete_subdirs = [];
  entry_lists = record { dir_rel = bytes "x"; names = bytes "n" ∷ [] } ∷ [];
  delete_remainders = [];
  big_files = [];
  link_sightings = [];
}

abbrev hex : ℕ → Bytes
hex n = n ∷ []

refused_split_whole_example : (on_shard_split spec_lib codec hex split idle granted).1 ≡ granted
unfolding on_shard_split entry_shards
refused_split_whole_example =
    refused_split_whole spec_lib codec hex split idle granted Fault.codec refl

abbrev messages : List Message
messages =
    Message.work_request 5 false false request new_lease
    ∷ Message.heartbeat 6 (100 ∷ [])
    ∷ Message.shard_result finished
    ∷ Message.shard_result finished
    ∷ Message.task_result
        (record { task_id = 2; lease_id = 9; status = Status.transient; error = [] } ∷ [])
    ∷ Message.shard_split split
    ∷ []

run_session-IsValid_example :
    IsValid (run_session grant_lib codec hex agent_a 30 messages idle sample).1.shards
run_session-IsValid_example =
    run_session-IsValid grant_lib codec hex agent_a 30 messages idle sample sample-Reachable

-- A batch arrives before the flush and one after it; both sessions' targets are acknowledged.
abbrev at_start : Acks
at_start = record {
  conns = [];
  pending = λ c. 0;
  acked = λ c. 0;
  appended = [];
  unsynced = [];
  durable = [];
  unsure = [];
  targets = [];
  phase = Phase.waiting;
}

abbrev received : Acks
received = on_journal_batch 1 3 (record at_start { conns = 1 ∷ [] })

abbrev acknowledged : Acks
acknowledged = send_acks (on_journal_batch 1 5 (flush_journal true (take_targets received)))

acknowledged-AckReachable : AckReachable acknowledged
unfolding on_journal_batch raise take_targets targets_of flush_journal
acknowledged-AckReachable =
    AckReachable.next
      (AckReachable.next
        (AckReachable.next
          (AckReachable.next
            (AckReachable.next
              (AckReachable.next AckReachable.start (AckStep.sessions {a = at_start} (1 ∷ [])))
              (AckStep.batch {a = record at_start { conns = 1 ∷ [] }} 1 3 (omega arith)))
            (AckStep.collect {a = received} refl))
          (AckStep.flush {a = take_targets received} true refl))
        (AckStep.batch {a = flush_journal true (take_targets received)} 1 5 (omega arith)))
      (AckStep.acknowledge {a = on_journal_batch 1 5 (flush_journal true (take_targets received))}
        refl)

acked_durable_example :
    All (λ e. e.1 ≤ acknowledged.acked e.0 → 1 ≤ times e acknowledged.durable) acknowledged.appended
unfolding send_acks on_journal_batch flush_journal take_targets
acked_durable_example = acked_durable acknowledged acknowledged-AckReachable refl
