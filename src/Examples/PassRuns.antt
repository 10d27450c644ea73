-- ===== src/Examples/PassRuns.antt =====
-- Passes seeded, advanced and triggered, the shares of a fleet, and the phase shown, on small stores.
use drsync.Prelude.{
  ℕ, ◌+◌, ◌*◌, ◌≡◌, ◌≤◌, ◌<◌, refl, Bool, true, false, List, [], ◌∷◌, none, some, Bytes, bytes,
  bytes_eq, arith, All, count_where, min,
}
use mathlib.Core.List.{Permᴰ}
use drsync.Model.States.{JobState, PassState, ShardState, ShardKind, priority}
use drsync.Model.Phase.{effective_state, effective_state-Perm}
use drsync.Store.Shards.Valid.{IsValid}
use drsync.Store.Schema.{Shard, Job, Pass, Store, ShardTable}
use drsync.Store.Triggers.{count_of, same_key, sum_where}
use drsync.Store.Jobs.{create_job, set_job_state}
use drsync.Store.Jobs.Exclusive.{IsExclusive, create_job-IsExclusive, set_job_state-IsExclusive}
use drsync.Store.Passes.{new_pass}
use drsync.Store.Counts.{SchedulerCounts}
use drsync.Store.Sweep.{contains_id, is_stale_probe, is_parked_of}
use drsync.Scheduler.Shares.{fair_share, fair_share_covers}
use drsync.Scheduler.Spread.{SpreadPolicy, WalkOverrides}
use drsync.PassCtrl.Batches.{flat, IsBatch, IsDeepestFirst}
use drsync.Examples.SpecRuns.{raw}
use drsync.Model.Spec.{or_number, or_text, apply_defaults}
use drsync.PassCtrl.Converge.{decide_next_pass, is_converged, seeds_within_ceiling}
use drsync.PassCtrl.Seeds.{
  Env, JournalRecord, RecordType, delete_batch_size, orphan_paths, delete_batches,
}
use drsync.PassCtrl.Seeds.Order.{delete_batches_order}
use drsync.PassCtrl.Advance.{Controller, advance_pass}
use drsync.PassCtrl.Advance.Edges.{MovesAll, advance_pass-MovesAll}
use drsync.PassCtrl.Advance.Barrier.{is_queued_of, advance_waits, parked_first_round}

fair_share_covers_example :
    (fair_share 8 10 3 ≤ 8) × (1 ≤ fair_share 8 10 3) × (min 10 (3 * 8) ≤ 3 * fair_share 8 10 3)
fair_share_covers_example = fair_share_covers 8 10 3 (omega arith) (omega arith)

abbrev auto_policy : SpreadPolicy
auto_policy = record { mode = bytes "auto"; target_per_agent = 4 }

abbrev shallow : SchedulerCounts
shallow = record { walk_pending = 3; queued = 2 }

abbrev deep : SchedulerCounts
deep = record { walk_pending = 40; queued = 30 }

abbrev pushed : WalkOverrides
pushed = record { walk_budget = 0; split_threshold = 1000 }

abbrev present : List (ShardKind × Bool)
present = (ShardKind.dirfix, true) ∷ (ShardKind.verify, true) ∷ []

abbrev present_swapped : List (ShardKind × Bool)
present_swapped = (ShardKind.verify, true) ∷ (ShardKind.dirfix, true) ∷ []

effective_state-Perm_example :
    effective_state PassState.scanning present ≡ effective_state PassState.scanning present_swapped
effective_state-Perm_example =
    effective_state-Perm PassState.scanning present present_swapped ∣ Permᴰ.swap refl refl ∣₁

abbrev pub env : Env
env = record {
  decode = λ y. some raw;
  journal = λ j n. ([], true);
  marshal_reclaim = λ p t. p;
  marshal_dirs = λ ds. [];
  marshal_links = λ j n ls. [];
  marshal_verify = λ es. [];
  marshal_delete = λ ps. [];
}

abbrev pub first_pass : Pass
first_pass = new_pass 1 1 1 PassState.scanning

abbrev changed_pass : Pass
changed_pass = record first_pass { counters = record first_pass.counters { files_copied = 3 } }

seeds_within_ceiling_example :
    (◌≡◌ {A = ℕ} 2 2) × (2 ≤ (apply_defaults raw).passes.max) × (false ≡ false) × (0 < 3 + 0 + 0)
unfolding decide_next_pass is_converged bytes_eq apply_defaults or_number or_text
seeds_within_ceiling_example =
    seeds_within_ceiling (apply_defaults raw) false changed_pass 2 (omega arith) refl

abbrev pub job : Job
job = record { id = 1; name = bytes "j"; spec_yaml = []; state = JobState.running; dry_run = false }

abbrev pub no_shards : ShardTable
no_shards = record { rows = []; counts = []; next_id = 1 }

abbrev pub idle : Store
idle = record {
  jobs = job ∷ [];
  next_job = 2;
  passes = first_pass ∷ [];
  next_pass = 2;
  shards = no_shards;
  agents = [];
  splits = [];
  chunk_groups = [];
  delete_groups = [];
  link_groups = [];
  link_members = [];
}

abbrev controller : List ℕ → Store → Controller
controller marked s = record { store = s; auto_retried = marked; reaps = []; inflight = [] }

create_job-IsExclusive_example :
    IsExclusive
      (λ y. some y)
      (create_job (λ y. some y) (bytes "k") (bytes "/d/e") false idle).0.jobs
unfolding IsExclusive
create_job-IsExclusive_example =
    create_job-IsExclusive (λ y. some y) (bytes "k") (bytes "/d/e") false idle (tt, tt)

set_job_state-IsExclusive_example :
    IsExclusive (λ y. some y) (set_job_state 1 JobState.paused idle).jobs
unfolding IsExclusive
set_job_state-IsExclusive_example =
    set_job_state-IsExclusive (λ y. some y) 1 JobState.paused idle (λ h k. refl, tt) (tt, tt)

advance_pass-MovesAll_example :
    MovesAll (first_pass ∷ []) (advance_pass env job first_pass (controller [] idle)).0.store.passes
advance_pass-MovesAll_example =
    advance_pass-MovesAll env job first_pass (controller [] idle) (λ h. refl, tt)

abbrev shard_in : ShardState → Shard
shard_in st = record {
  id = 1;
  pass_id = 1;
  parent = 0;
  kind = ShardKind.dir;
  rel_path = [];
  payload = [];
  prio = priority ShardKind.dir;
  state = st;
  attempt = 1;
  lease_id = none;
  lease_agent = some (bytes "a");
  lease_expiry = none;
  result = none;
  error = none;
  target_agent = none;
}

-- One parked shard and its row of the rollup.
abbrev parked_store : Store
parked_store = record idle {
  shards = record {
    rows = shard_in ShardState.parked ∷ [];
    counts = record { pass_id = 1; kind = ShardKind.dir; state = ShardState.parked; n = 1 } ∷ [];
    next_id = 2;
  };
}

parked_store-IsValid : IsValid parked_store.shards
unfolding count_of same_key sum_where
parked_store-IsValid = record {
  exact = λ p k s. ground arith;
  summed = λ g. ground arith;
  unique = λ i. ground arith;
  unused = λ i h. ground arith;
  sound = (
    record {
      leased_held = λ h. cc;
      queued_free = λ h. refl;
      known_agent = λ h. refl;
      ranked = refl;
    },
    tt,
  );
}

advance_waits_example :
    ((advance_pass env job first_pass (controller [] parked_store)).0.store.passes
      ≡ first_pass ∷ [])
    × ((advance_pass env job first_pass (controller [] parked_store)).0.store.jobs ≡ job ∷ [])
    × ((advance_pass env job first_pass (controller [] parked_store)).0.store.shards.next_id ≡ 2)
unfolding is_stale_probe
advance_waits_example =
    advance_waits env job first_pass (controller [] parked_store) parked_store-IsValid (omega arith)

parked_first_round_example :
    (count_where
        (is_parked_of (bytes "j") parked_store)
        (advance_pass env job first_pass (controller [] parked_store)).0.store.shards.rows
      ≡ 0)
    × (count_where
          (is_queued_of (bytes "j") parked_store)
          (advance_pass env job first_pass (controller [] parked_store)).0.store.shards.rows
        ≡ count_where (is_queued_of (bytes "j") parked_store) parked_store.shards.rows
          + count_where (is_parked_of (bytes "j") parked_store) parked_store.shards.rows)
    × (contains_id (advance_pass env job first_pass (controller [] parked_store)).0.auto_retried 1
        ≡ true)
unfolding contains_id
parked_first_round_example =
    parked_first_round env job first_pass (controller [] parked_store) parked_store-IsValid refl
      refl (omega arith) refl

abbrev orphan_at : Bytes → JournalRecord
orphan_at p = record { type = RecordType.orphan; rel_path = p; src = none }

abbrev orphans : List JournalRecord
orphans = orphan_at (bytes "a") ∷ orphan_at (bytes "a/b/c") ∷ orphan_at (bytes "a/b") ∷ []

delete_batches_order_example :
    IsDeepestFirst (λ q. q) (flat (delete_batches orphans))
    × (count_where (bytes_eq (bytes "a")) (flat (delete_batches orphans))
        ≡ count_where (bytes_eq (bytes "a")) (orphan_paths orphans))
    × All (IsBatch delete_batch_size) (delete_batches orphans)
delete_batches_order_example = delete_batches_order (bytes_eq (bytes "a")) orphans

abbrev three : List ℕ
three = 1 ∷ 2 ∷ 3 ∷ []
