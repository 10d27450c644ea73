-- ===== src/Store/Passes.antt =====
-- coordinator/internal/store/store.go: the rows of passes, and the temps and links that a pass leaves.
use drsync.Prelude.{
  ltb, count_where, ℕ, suc, Bool, ◌&&◌, not, List, [], ◌∷◌, ◌++◌, Option, none, some, ◌==◌, leb,
  if◌then◌else◌, update_where,
}
use drsync.Model.States.{PassState, phase_rank}
use drsync.Store.Schema.{Error, Result, ok, err, Counters, Pass, Store}

abbrev pub no_counters : Counters
no_counters = record {
  entries_walked = 0;
  files_copied = 0;
  bytes_copied = 0;
  meta_fixed = 0;
  orphans = 0;
  errors = 0;
  nlink_dup_files = 0;
  nlink_dup_bytes = 0;
  fidelity_exceptions = 0;
  verify_ok = 0;
  verify_fail = 0;
  links_created = 0;
  link_anchor_races = 0;
  link_fallback = 0;
  skipped_newer = 0;
}

abbrev pub new_pass : ℕ → ℕ → ℕ → PassState → Pass
new_pass i job_id pass_no st = record {
  id = i;
  job_id = job_id;
  pass_no = pass_no;
  state = st;
  counters = no_counters;
  shards_reaped = 0;
}

abbrev pub is_numbered : ℕ → ℕ → Pass → Bool
is_numbered job_id pass_no p = (job_id == p.job_id) && (pass_no == p.pass_no)

-- CreatePass: the store and the id of the row. UNIQUE (job_id, pass_no) refuses a number that is taken.
unfoldable pub create_pass : ℕ → ℕ → PassState → Store → Store × Result ℕ
create_pass job_id pass_no st s =
    if ltb 0 (count_where (is_numbered job_id pass_no) s.passes)
    then (s, err Error.not_unique)
    else (
      record s {
        passes = s.passes ++ new_pass s.next_pass job_id pass_no st ∷ [];
        next_pass = suc s.next_pass;
      },
      ok s.next_pass,
    )

-- ORDER BY pass_no DESC LIMIT 1; pass_no is unique within a job.
abbrev pub later_pass : Pass → Option Pass → Pass
later_pass p none = p
later_pass p (some q) = if leb q.pass_no p.pass_no then p else q

unfoldable pub newest_pass : (Pass → Bool) → List Pass → Option Pass
newest_pass p [] = none
newest_pass p (x ∷ xs) =
    let rest = newest_pass p xs in if p x then some (later_pass x rest) else rest

abbrev pub is_complete : PassState → Bool
is_complete st = phase_rank st == phase_rank PassState.complete

abbrev pub is_active_of : ℕ → Pass → Bool
is_active_of job_id p = (p.job_id == job_id) && not (is_complete p.state)

abbrev pub is_pass_of : ℕ → Pass → Bool
is_pass_of job_id p = p.job_id == job_id

-- ActivePass
unfoldable pub active_pass : ℕ → Store → Option Pass
active_pass job_id s = newest_pass (is_active_of job_id) s.passes

-- LatestPass
unfoldable pub latest_pass : ℕ → Store → Option Pass
latest_pass job_id s = newest_pass (is_pass_of job_id) s.passes

abbrev pub has_pass_id : ℕ → Pass → Bool
has_pass_id i p = p.id == i

abbrev pub put_pass_state : PassState → Pass → Pass
put_pass_state st p = record p { state = st }

-- SetPassState
unfoldable pub set_pass_state : ℕ → PassState → Store → Store
set_pass_state i st s = record s {
  passes = update_where (has_pass_id i) (put_pass_state st) s.passes;
}
