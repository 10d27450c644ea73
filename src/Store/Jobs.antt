-- ===== src/Store/Jobs.antt =====
-- coordinator/internal/store/store.go: jobs, and the test of overlapping destinations. A spec is read by
-- `destination_of`: ParseSpec, then Spec.Destination.Path, none for a spec that is refused
-- (parsed_destination of Api, spec_destination of PassCtrl.Lifecycle).
pub mod Exclusive
use drsync.Prelude.{
  ℕ, suc, Bool, true, false, ◌&&◌, ◌||◌, not, List, [], ◌∷◌, ◌++◌, Option, none, some, Bytes,
  bytes_eq, ◌==◌, leb, if◌then◌else◌, find_row, select, update_where, delete_where, count_where,
}
use drsync.Model.States.{JobState, PassState, is_job_state, is_terminal}
use drsync.Model.Spec.Paths.{paths_overlap}
use drsync.Store.Schema.{
  Shard, Counters, Job, Pass, Split, CountRow, ChunkGroup, LinkGroup, LinkMember, ShardTable, Store,
  Error, Result, ok, err,
}
use drsync.Store.Triggers.{delete_shards}

-- JobStatesHoldingDestination
abbrev pub holds_destination : JobState → Bool
holds_destination JobState.created = true
holds_destination JobState.ready = true
holds_destination JobState.running = true
holds_destination JobState.paused = true
holds_destination _ = false

-- JobStatesRunning
abbrev pub is_executing : JobState → Bool
is_executing JobState.running = true
is_executing JobState.paused = true
is_executing _ = false

abbrev pub overlaps : Bytes → Option Bytes → Bool
overlaps dst none = false
overlaps dst (some other) = paths_overlap dst other

-- Whether the loop of destinationConflictLocked stops at a row. The set of states is a test.
abbrev pub is_conflict : (Bytes → Option Bytes) → Bytes → Bytes → (JobState → Bool) → Job → Bool
is_conflict destination_of exclude dst states j =
    if bytes_eq exclude j.name || not (states j.state)
    then false
    else overlaps dst (destination_of j.spec_yaml)

-- DestinationConflict: the first job in the way, if any.
unfoldable pub destination_conflict :
    (Bytes → Option Bytes) → Bytes → Bytes → (JobState → Bool) → List Job → Option Job
destination_conflict destination_of exclude dst states jobs =
    find_row (is_conflict destination_of exclude dst states) jobs

abbrev pub is_named : Bytes → Job → Bool
is_named name j = bytes_eq name j.name

abbrev pub has_job_id : ℕ → Job → Bool
has_job_id i j = i == j.id

-- GetJob
abbrev pub get_job : Bytes → List Job → Option Job
get_job name jobs = find_row (is_named name) jobs

abbrev pub job_row : ℕ → Bytes → Bytes → Bool → Job
job_row i name spec_yaml dry_run = record {
  id = i;
  name = name;
  spec_yaml = spec_yaml;
  state = JobState.ready;
  dry_run = dry_run;
}

unfoldable pub add_job : Bytes → Bytes → Bool → Store → Store
add_job name spec_yaml dry_run s = record s {
  jobs = s.jobs ++ job_row s.next_job name spec_yaml dry_run ∷ [];
  next_job = suc s.next_job;
}

-- CreateJob from the INSERT on, which fails on a name that is taken.
abbrev pub insert_job : Bytes → Bytes → Bool → Store → Option Job → Store × Result ℕ
insert_job name spec_yaml dry_run s (some taken) = (s, err Error.not_unique)
insert_job name spec_yaml dry_run s none = (add_job name spec_yaml dry_run s, ok s.next_job)

-- CreateJob from the destination check on.
abbrev pub check_job : Bytes → Bytes → Bool → Store → Option Job → Store × Result ℕ
check_job name spec_yaml dry_run s (some other) = (s, err (Error.destination_conflict other.name))
check_job name spec_yaml dry_run s none = insert_job name spec_yaml dry_run s (get_job name s.jobs)

-- CreateJob
unfoldable pub create_job : (Bytes → Option Bytes) → Bytes → Bytes → Bool → Store → Store × Result ℕ
create_job destination_of name spec_yaml dry_run s = elim (destination_of spec_yaml) [
  | none ↦ (s, err Error.spec_invalid)
  | some dst ↦
      check_job name spec_yaml dry_run s
        (destination_conflict destination_of name dst holds_destination s.jobs)
]

abbrev pub put_job_state : JobState → Job → Job
put_job_state st j = record j { state = st }

-- SetJobState
unfoldable pub set_job_state : ℕ → JobState → Store → Store
set_job_state i st s = record s { jobs = update_where (has_job_id i) (put_job_state st) s.jobs }
