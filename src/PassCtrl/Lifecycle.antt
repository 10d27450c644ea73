-- ===== src/PassCtrl/Lifecycle.antt =====
-- coordinator/internal/passctrl/passctrl.go: starting and resuming jobs, and seeding passes.
use drsync.Prelude.{
  ℕ, suc, Bool, true, false, List, [], ◌∷◌, Option, none, some, Bytes, ◌==◌, if◌then◌else◌, length,
  map,
}
use drsync.Model.States.{JobState, PassState, ShardKind}
use drsync.Store.Schema.{Job, Pass, Store, Error, Result, ok, err}
use drsync.Store.Shards.{NewShard}
use drsync.Store.Counts.{schedulable_agents}
use drsync.Store.Jobs.{is_executing, destination_conflict, get_job, set_job_state}
use drsync.Store.Passes.{create_pass, active_pass, latest_pass}
use drsync.PassCtrl.Seeds.{spec_of, Env, new_shard, add_shards, delete_batches, delete_shards}

-- The root of the walk.
abbrev pub root_shard : NewShard
root_shard = new_shard ShardKind.dir [] []

abbrev pub probe_shard : Bytes → NewShard
probe_shard agent_id = record {
  kind = ShardKind.probe;
  rel_path = [];
  payload = [];
  target_agent = agent_id;
}

abbrev pub with_shards : List NewShard → Store × Result ℕ → Store × Result (Unit {0})
with_shards news (s, err e) = (s, err e)
with_shards news (s, ok pass_id) = (add_shards pass_id news s, ok tt)

abbrev pub create_seeded : ℕ → ℕ → PassState → List NewShard → Store → Store × Result (Unit {0})
create_seeded job_id pass_no st news s = with_shards news (create_pass job_id pass_no st s)

abbrev pub seed_with : ℕ → ℕ → Store → List Bytes → Store × Result (Unit {0})
seed_with job_id pass_no s [] = create_seeded job_id pass_no PassState.scanning (root_shard ∷ []) s
seed_with job_id pass_no s (a ∷ agents) =
    create_seeded job_id pass_no PassState.probing (map probe_shard (a ∷ agents)) s

-- seedPass
unfoldable pub seed_pass : ℕ → ℕ → Store → Store × Result (Unit {0})
seed_pass job_id pass_no s = seed_with job_id pass_no s (schedulable_agents s.agents)

-- The destination of a spec that parses.
abbrev pub spec_destination : Env → Bytes → Option Bytes
spec_destination env spec_yaml = elim (spec_of env spec_yaml) [
  | none ↦ none
  | some spec ↦ some spec.destination
]

abbrev pub conflict_result : Option Job → Result (Unit {0})
conflict_result none = ok tt
conflict_result (some other) = err (Error.destination_conflict other.name)

-- destinationFree
unfoldable pub destination_free : Env → Job → Store → Result (Unit {0})
destination_free env job s = elim (spec_destination env job.spec_yaml) [
  | none ↦ err Error.spec_invalid
  | some dst ↦
      conflict_result (destination_conflict (spec_destination env) job.name dst is_executing s.jobs)
]

-- `if err := destinationFree(job); err != nil { return err }`, before what comes next.
abbrev pub guarded :
    Result (Unit {0}) → Store → Store × Result (Unit {0}) → Store × Result (Unit {0})
guarded (err e) s next = (s, err e)
guarded (ok _) s next = next

abbrev pub start_found : Env → Job → Store → Store × Result (Unit {0})
start_found env job s = elim job.state [
  | JobState.ready ↦
      guarded (destination_free env job s) s
        (seed_pass job.id 1 (set_job_state job.id JobState.running s))
  | JobState.paused ↦
      guarded (destination_free env job s) s (set_job_state job.id JobState.running s, ok tt)
  | _ ↦ (s, err Error.wrong_state)
]

-- StartJob
unfoldable pub start_job : Env → Bytes → Store → Store × Result (Unit {0})
start_job env name s = elim (get_job name s.jobs) [
  | none ↦ (s, err Error.no_rows)
  | some job ↦ start_found env job s
]

abbrev pub resume_found : Env → Job → Store → Store × Result (Unit {0})
resume_found env job s = elim job.state [
  | JobState.paused ↦
      guarded (destination_free env job s) s (set_job_state job.id JobState.running s, ok tt)
  | _ ↦ (s, err Error.wrong_state)
]

-- ResumeJob
unfoldable pub resume_job : Env → Bytes → Store → Store × Result (Unit {0})
resume_job env name s = elim (get_job name s.jobs) [
  | none ↦ (s, err Error.no_rows)
  | some job ↦ resume_found env job s
]

abbrev pub then_running : ℕ → Store × Result (Unit {0}) → Store × Result (Unit {0})
then_running job_id (s, err e) = (s, err e)
then_running job_id (s, ok _) = (set_job_state job_id JobState.running s, ok tt)

abbrev pub seed_delete_from : Env → Job → Pass → ℕ → Store → Store × Result (Unit {0})
seed_delete_from env job latest pass_no s =
    let j = env.journal job.id latest.pass_no in
    if j.1
    then if length (delete_batches j.0) == 0
      then (s, err Error.no_orphans)
      else then_running job.id
          (create_seeded job.id pass_no PassState.delete (delete_shards env j.0) s)
    else (s, err Error.journal_unreadable)

-- TriggerPass from the latest pass on.
abbrev pub trigger_after : Env → Job → Bool → Store → Option Pass → Store × Result (Unit {0})
trigger_after env job delete_pass s none =
    if delete_pass
    then (s, err Error.no_pass)
    else seed_pass job.id 1 (set_job_state job.id JobState.running s)
trigger_after env job delete_pass s (some latest) =
    if delete_pass
    then seed_delete_from env job latest (suc latest.pass_no) s
    else seed_pass job.id (suc latest.pass_no) (set_job_state job.id JobState.running s)

abbrev pub is_triggerable : JobState → Bool
is_triggerable JobState.running = true
is_triggerable JobState.completed = true
is_triggerable _ = false

abbrev pub trigger_found : Env → Job → Bool → Store → Store × Result (Unit {0})
trigger_found env job delete_pass s =
    if is_triggerable job.state
    then elim (active_pass job.id s) [
      | some active ↦ (s, err Error.pass_active)
      | none ↦ trigger_after env job delete_pass s (latest_pass job.id s)
    ]
    else (s, err Error.wrong_state)

-- TriggerPass
unfoldable pub trigger_pass : Env → Bytes → Bool → Store → Store × Result (Unit {0})
trigger_pass env name delete_pass s = elim (get_job name s.jobs) [
  | none ↦ (s, err Error.no_rows)
  | some job ↦ trigger_found env job delete_pass s
]
