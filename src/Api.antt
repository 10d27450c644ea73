-- ===== src/Api.antt =====
-- coordinator/internal/api/api.go: submitJob. The name of the user and the answer's text are left out.
pub mod Actions
pub mod Operate
use drsync.Prelude.{
  ℕ, suc, ◌≡◌, ◌≤◌, Bool, true, false, [], ◌∷◌, ◌++◌, Option, none, some, Bytes, bytes_eq, ◌⊎◌, All,
  take, count_where,
}
use drsync.Model.States.{JobState}
use drsync.Model.Spec.{JobSpec}
use drsync.Model.Spec.Validate.{SpecError, Parsed, accepted_spec, parse_spec}
use drsync.Store.Schema.{Job, Store, Error, Result, ok, err}
use drsync.Store.Jobs.{
  holds_destination, destination_conflict, overlaps, is_conflict, insert_job, create_job,
}

abbrev pub destination_of_spec : Option JobSpec → Option Bytes
destination_of_spec none = none
destination_of_spec (some s) = some s.destination

-- How CreateJob reads the destination of a spec: ParseSpec, then Spec.Destination.Path.
unfoldable pub parsed_destination : (Bytes → Option JobSpec) → Bytes → Option Bytes
parsed_destination decode text = destination_of_spec (accepted_spec (parse_spec decode text))

-- The answer: 400 for a body that cannot be read, 201 with the job's id, 422 for the spec, or 409 with the
-- error of CreateJob.
pub data Submitted : Type 0 where
  bad_request : Submitted
  created : ℕ → Submitted
  unprocessable : SpecError → Submitted
  conflict : Error → Submitted

abbrev pub submitted_of : Store × Result ℕ → Store × Submitted
submitted_of (s, ok i) = (s, Submitted.created i)
submitted_of (s, err e) = (s, Submitted.conflict e)

abbrev pub submit_parsed :
    (Bytes → Option JobSpec) → Bytes → Bool → Store → Parsed → Store × Submitted
submit_parsed decode body dry_run s (Parsed.refused e) = (s, Submitted.unprocessable e)
submit_parsed decode body dry_run s (Parsed.accepted spec) =
    submitted_of (create_job (parsed_destination decode) spec.name body dry_run s)

-- The limit on the body, which is cut there.
abbrev pub body_limit : ℕ
body_limit = 1048576

-- submitJob, on what reading the body gives.
unfoldable pub submit_job :
    (Bytes → Option JobSpec) → Option Bytes → Bool → Store → Store × Submitted
submit_job decode none dry_run s = (s, Submitted.bad_request)
submit_job decode (some sent) dry_run s =
    let body = take body_limit sent in submit_parsed decode body dry_run s (parse_spec decode body)

-- A job has another name, and its destination, if it holds one, is apart.
abbrev pub LeavesFree : (Bytes → Option JobSpec) → JobSpec → Job → Type 0
LeavesFree decode spec j =
    (bytes_eq spec.name j.name ≡ false)
    × (holds_destination j.state ≡ true
        → overlaps spec.destination (parsed_destination decode j.spec_yaml) ≡ false)

-- A job holds a destination that overlaps the spec's.
abbrev pub IsInWay : (Bytes → Option JobSpec) → JobSpec → Job → Type 0
IsInWay decode spec j =
    (bytes_eq spec.name j.name ≡ false)
    × (holds_destination j.state ≡ true)
    × (overlaps spec.destination (parsed_destination decode j.spec_yaml) ≡ true)

abbrev pub has_name : Bytes → Job → Bool
has_name name j = bytes_eq name j.name

-- What the answer to a submission of a body says of the spec and of the store before and after it.
abbrev pub IsAnswer : (Bytes → Option JobSpec) → Bytes → Bool → Store → Store × Submitted → Type 0
IsAnswer decode body dry_run s (s', Submitted.bad_request) = ⊥
IsAnswer decode body dry_run s (s', Submitted.created i) =
    (spec : JobSpec) × (parse_spec decode body ≡ Parsed.accepted spec)
    × All (LeavesFree decode spec) s.jobs
    × (i ≡ s.next_job)
    × (s' ≡ record s {
      jobs =
          s.jobs
          ++ record {
            id = i;
            name = spec.name;
            spec_yaml = body;
            state = JobState.ready;
            dry_run = dry_run;
          }
            ∷ [];
      next_job = suc i;
    })
IsAnswer decode body dry_run s (s', Submitted.unprocessable e) =
    (parse_spec decode body ≡ Parsed.refused e) × (s' ≡ s)
IsAnswer decode body dry_run s (s', Submitted.conflict e) =
    (spec : JobSpec) × (parse_spec decode body ≡ Parsed.accepted spec)
    × (s' ≡ s)
    × (((1 ≤ count_where (has_name spec.name) s.jobs) × (e ≡ Error.not_unique))
        ⊎ ((other : Job) × IsInWay decode spec other
            × (1 ≤ count_where (has_name other.name) s.jobs)
            × (e ≡ Error.destination_conflict other.name)))

-- check_job, on what the lookup of the name gives.
abbrev check_with : Bytes → Bytes → Bool → Store → Option Job → Option Job → Store × Result ℕ
check_with name body dry_run s taken (some other) = (s, err (Error.destination_conflict other.name))
check_with name body dry_run s taken none = insert_job name body dry_run s taken

module _ (decode : Bytes → Option JobSpec) (body : Bytes) (dry_run : Bool) (s : Store) where
  abbrev is_in_way : JobSpec → Job → Bool
  is_in_way spec =
      is_conflict (parsed_destination decode) spec.name spec.destination holds_destination
