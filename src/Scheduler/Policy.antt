-- ===== src/Scheduler/Policy.antt =====
-- coordinator/internal/scheduler/scheduler.go: the job policies, resolved once and cached. The lock, which
-- is given up while a spec is resolved, and two lookups that resolve one job at once, are left out.
pub mod Coherent
use drsync.Prelude.{
  ℕ, Bool, not, List, [], ◌∷◌, Option, none, some, Bytes, ◌==◌, find_row, delete_where,
}
use drsync.Model.Spec.{JobSpec}
use drsync.Model.Spec.Validate.{SpecError, Parsed, parse_spec}
use drsync.Model.Spec.Options.{JobOptions, Resolved, to_job_options}
use drsync.Store.Schema.{Job, Store}
use drsync.Store.Jobs.{has_job_id}
use drsync.Store.Counts.{SchedulerCounts, scheduler_counts, count_schedulable_agents}
use drsync.Scheduler.Spread.{SpreadPolicy}

-- The YAML decoder, proto.Marshal of the options, and the FNV hash.
pub record SpecLib : Type 0 where
  pub decode : Bytes → Option JobSpec
  pub marshal : JobOptions → Option Bytes
  pub digest : Bytes → ℕ

-- jobPolicy, the struct
pub record JobPolicy : Type 0 where
  pub opts : JobOptions
  pub spread : SpreadPolicy
  pub hardlinks : Bytes
  pub max_grp_scan : ℕ

pub data PolicyError : Type 0 where
  no_job : PolicyError
  bad_spec : SpecError → PolicyError
  nil_dereference : PolicyError

pub data Lookup : Type 0 where
  found : JobPolicy → Lookup
  missing : PolicyError → Lookup

-- Scheduler: `policies` with the job of each, and the last snapshot of the fleet with its time.
pub record Sched : Type 0 where
  pub policies : List (ℕ × JobPolicy)
  pub counts_at : Option ℕ
  pub counts : SchedulerCounts
  pub agents : ℕ

-- JobSpec.SpreadPolicy
abbrev pub spread_policy : JobSpec → SpreadPolicy
spread_policy s = record {
  mode = s.tuning.spread_mode;
  target_per_agent = s.tuning.spread_target_per_agent;
}

abbrev pub policy_with : JobSpec → Resolved → Lookup
policy_with s Resolved.panicked = Lookup.missing PolicyError.nil_dereference
policy_with s (Resolved.refused e) = Lookup.missing (PolicyError.bad_spec e)
policy_with s (Resolved.resolved o) = Lookup.found (record {
  opts = o;
  spread = spread_policy s;
  hardlinks = s.metadata.hardlinks;
  max_grp_scan = s.metadata.hardlinks_max_group_scan;
})

abbrev pub policy_of_parsed : SpecLib → ℕ → Bool → Parsed → Lookup
policy_of_parsed lib i dry_run (Parsed.refused e) = Lookup.missing (PolicyError.bad_spec e)
policy_of_parsed lib i dry_run (Parsed.accepted s) =
    policy_with s (to_job_options lib.marshal lib.digest i dry_run s)

abbrev pub policy_of_job : SpecLib → ℕ → Option Job → Lookup
policy_of_job lib i none = Lookup.missing PolicyError.no_job
policy_of_job lib i (some j) = policy_of_parsed lib i j.dry_run (parse_spec lib.decode j.spec_yaml)

-- jobPolicy from GetJobByID on.
unfoldable pub resolve_policy : SpecLib → Store → ℕ → Lookup
resolve_policy lib s i = policy_of_job lib i (find_row (has_job_id i) s.jobs)

abbrev pub is_policy_of : ℕ → ℕ × JobPolicy → Bool
is_policy_of i e = i == e.0

abbrev pub remember : Sched → ℕ → Lookup → Sched × Lookup
remember sched i (Lookup.missing e) = (sched, Lookup.missing e)
remember sched i (Lookup.found p) =
    (record sched { policies = (i, p) ∷ sched.policies }, Lookup.found p)

abbrev pub cached_or : SpecLib → Sched → Store → ℕ → Option (ℕ × JobPolicy) → Sched × Lookup
cached_or lib sched s i (some e) = (sched, Lookup.found e.1)
cached_or lib sched s i none = remember sched i (resolve_policy lib s i)

-- jobPolicy, the method
unfoldable pub job_policy : SpecLib → Sched → Store → ℕ → Sched × Lookup
job_policy lib sched s i = cached_or lib sched s i (find_row (is_policy_of i) sched.policies)

-- InvalidateOptions
unfoldable pub invalidate_options : ℕ → Sched → Sched
invalidate_options i sched = record sched {
  policies = delete_where (is_policy_of i) sched.policies;
}
