-- ===== src/Api/Actions.antt =====
-- coordinator/internal/api/api.go: jobAction, setState, triggerPass and purgeJob. A route answers with its
-- status; the texts, the log and the removal of the journal's files, which is best effort, are left out.
pub mod Purged
use drsync.Prelude.{
  ℕ, Bool, not, ◌&&◌, List, [], ◌∷◌, Option, none, some, Bytes, bytes_eq, if◌then◌else◌,
}
use drsync.Model.States.{JobState, is_job_state}
use drsync.Store.Schema.{Job, Store, Error, Result, ok, err}
use drsync.Store.Jobs.{get_job, set_job_state}
use drsync.Store.Purge.{delete_job}
use drsync.PassCtrl.Seeds.{Env}
use drsync.PassCtrl.Lifecycle.{start_job, resume_job, trigger_pass}

pub data Action : Type 0 where
  start pause resume cancel : Action

-- 200 (202 for a pass that is triggered), 404, 409, 412 and 500.
pub data Answer : Type 0 where
  done : Answer
  not_found : Answer
  conflict : Error → Answer
  precondition_failed : Answer
  internal_error : Error → Answer

-- setState from the row of the job on.
abbrev pub set_found : JobState → JobState → Store → Option Job → Store × Result (Unit {0})
set_found from to s none = (s, err Error.no_rows)
set_found from to s (some job) =
    if is_job_state job.state from
    then (set_job_state job.id to s, ok tt)
    else (s, err Error.wrong_state)

-- setState
unfoldable pub set_state : Bytes → JobState → JobState → Store → Store × Result (Unit {0})
set_state name from to s = set_found from to s (get_job name s.jobs)

abbrev pub cancel_found : Store → Option Job → Store × Result (List ℕ)
cancel_found s none = (s, err Error.no_rows)
cancel_found s (some job) = (set_job_state job.id JobState.cancelled s, ok (job.id ∷ []))

abbrev pub nobody_told : Store × Result (Unit {0}) → Store × Result (List ℕ)
nobody_told (s, ok _) = (s, ok [])
nobody_told (s, err e) = (s, err e)

-- The switch of jobAction. The list holds the jobs that NotifyJobDone is called with.
unfoldable pub act : Env → Bytes → Action → Store → Store × Result (List ℕ)
act env name Action.start s = nobody_told (start_job env name s)
act env name Action.pause s = nobody_told (set_state name JobState.running JobState.paused s)
act env name Action.resume s = nobody_told (resume_job env name s)
act env name Action.cancel s = cancel_found s (get_job name s.jobs)

abbrev pub answer_of : Result (List ℕ) → Answer
answer_of (ok _) = Answer.done
answer_of (err Error.no_rows) = Answer.not_found
answer_of (err e) = Answer.conflict e

-- jobAction
unfoldable pub job_action : Env → Bytes → Action → Store → Store × Answer
job_action env name action s = let (s', r) = act env name action s in (s', answer_of r)

abbrev pub triggered_of : Store × Result (Unit {0}) → Store × Answer
triggered_of (s, ok _) = (s, Answer.done)
triggered_of (s, err e) = (s, Answer.conflict e)

-- triggerPass, once its body is decoded.
unfoldable pub trigger_route : Env → Bytes → Bool → Bytes → Store → Store × Answer
trigger_route env name delete_pass confirm s =
    if delete_pass && not (bytes_eq confirm name)
    then (s, Answer.precondition_failed)
    else triggered_of (trigger_pass env name delete_pass s)

abbrev pub purged_of : Result ℕ → Answer
purged_of (ok _) = Answer.done
purged_of (err Error.no_rows) = Answer.not_found
purged_of (err Error.job_active) = Answer.conflict Error.job_active
purged_of (err e) = Answer.internal_error e

-- purgeJob
unfoldable pub purge_job : Bytes → Store → Store × Answer
purge_job name s = let (s', r) = delete_job name s in (s', purged_of r)
