-- ===== src/Scheduler/Grant.antt =====
-- coordinator/internal/scheduler/scheduler.go: fleet, Grant and buildItem. The queries of the fleet do not
-- fail; proto.Unmarshal of a payload is a parameter; metrics and the log are left out.
pub mod Rounds
pub mod Items
pub mod Options
pub mod Equipped
use drsync.Prelude.{
  ℕ, ◌+◌, ◌-◌, Bool, true, false, ◌||◌, not, List, [], ◌∷◌, ◌++◌, Option, none, some, Bytes, bytes,
  ◌==◌, ltb, min, if◌then◌else◌, find_row, select, map,
}
use drsync.Model.States.{ShardKind}
use drsync.Model.Spec.Options.{JobOptions}
use drsync.Store.Schema.{Shard, Pass, Store, Result, ok, err}
use drsync.Store.Shards.{park_shard}
use drsync.Store.Lease.{lease_shards}
use drsync.Store.Counts.{SchedulerCounts, scheduler_counts, count_schedulable_agents}
use drsync.Store.Sweep.{contains_id}
use drsync.Scheduler.Shares.{fair_share, grant_max_items}
use drsync.Scheduler.Spread.{WalkOverrides, walk_overrides}
use drsync.Scheduler.Policy.{SpecLib, JobPolicy, PolicyError, Lookup, Sched, job_policy}

-- What is not the repository's own: the specs' libraries, and the message that a payload decodes to,
-- by kind, with shard, job and pass set in it.
pub record GrantLib (Message : Type 0) : Type 0 where
  pub specs : SpecLib
  pub unmarshal : ShardKind → Bytes → Option Message
  -- the text of the error for a payload that is refused
  pub error_text : ShardKind → Bytes → Bytes

-- WorkItem: a lease, the shard's ids, and the item.
pub record WorkItem (Message : Type 0) : Type 0 where
  pub lease_id : Option ℕ
  pub shard_id : ℕ
  pub job_id : ℕ
  pub pass_no : ℕ
  pub rel_path : Bytes
  pub overrides : Option WalkOverrides
  pub message : Option Message

-- WorkGrant
pub record WorkGrant (Message : Type 0) : Type 0 where
  pub items : List (WorkItem Message)
  pub options : List JobOptions

-- WorkRequest: `cached` has the job and the hash of the options that the agent holds.
pub record WorkRequest : Type 0 where
  pub shard_credits : ℕ
  pub task_credits : ℕ
  pub cached : List (ℕ × ℕ)

-- ON p.id = s.pass_id
abbrev pub is_pass : ℕ → Pass → Bool
is_pass i p = p.id == i

-- countsTTL, in milliseconds
abbrev pub counts_ttl : ℕ
counts_ttl = 250

abbrev pub is_current : ℕ → Option ℕ → Bool
is_current now none = false
is_current now (some at) = ltb (now - at) counts_ttl

-- fleet
unfoldable pub fleet : ℕ → Store → Sched → Sched
fleet now s sched = if is_current now sched.counts_at then sched else record sched {
  counts_at = some now;
  agents = count_schedulable_agents s.agents;
  counts = scheduler_counts s;
}

abbrev pub item_of : {M : Type 0} → Shard → Pass → Option WalkOverrides → Option M → WorkItem M
item_of r p ov m = record {
  lease_id = r.lease_id;
  shard_id = r.id;
  job_id = p.job_id;
  pass_no = p.pass_no;
  rel_path = r.rel_path;
  overrides = ov;
  message = m;
}

abbrev pub with_message :
    {M : Type 0} → Shard → Pass → Option WalkOverrides → Option M → Option (WorkItem M)
with_message r p ov none = none
with_message r p ov (some m) = some (item_of r p ov (some m))

-- buildItem: none for a payload that does not decode and for a kind that is not granted.
unfoldable pub build_item :
    {M : Type 0}
    → GrantLib M
    → Pass
    → Option WalkOverrides
    → ShardKind
    → Shard
    → Option (WorkItem M)
build_item lib p ov ShardKind.dir r = some (item_of r p ov none)
build_item lib p ov ShardKind.probe r = some (item_of r p none none)
build_item lib p ov ShardKind.reaped r = none
build_item lib p ov ShardKind.entry_list r =
    with_message r p ov (lib.unmarshal ShardKind.entry_list r.payload)
build_item lib p ov kind r = with_message r p none (lib.unmarshal kind r.payload)

-- The loop's variables: the scheduler and the store, the items, the jobs that need options, and the error
-- that ended it.
pub record Granting (M : Type 0) : Type 0 where
  pub sched : Sched
  pub store : Store
  pub items : List (WorkItem M)
  pub jobs : List ℕ
  pub fault : Option PolicyError

abbrev pub or_kept : Store → Result Store → Store
or_kept s (ok s') = s'
or_kept s (err e) = s

abbrev pub lease_of : Option ℕ → ℕ
lease_of none = 0
lease_of (some l) = l

-- needOpts[jobID] = true
abbrev pub need_options : ℕ → List ℕ → List ℕ
need_options job jobs = if contains_id jobs job then jobs else job ∷ jobs

abbrev pub unbuildable : {M : Type 0} → GrantLib M → Shard → Bytes
unbuildable lib r = bytes "unbuildable payload: " ++ lib.error_text r.kind r.payload

-- An item that is built is granted; a shard of which none can be built is parked, the error ignored.
abbrev pub add_or_park :
    {M : Type 0} → GrantLib M → Shard → Pass → Granting M → Option (WorkItem M) → Granting M
add_or_park lib r p g (some item) = record g {
  items = g.items ++ item ∷ [];
  jobs = need_options p.job_id g.jobs;
}
add_or_park lib r p g none = record g {
  store = or_kept g.store (park_shard r.id (lease_of r.lease_id) (unbuildable lib r) g.store);
}

-- cached[jobID], 0 for none; the last entry of a job counts.
unfoldable pub cached_hash : ℕ → ℕ → List (ℕ × ℕ) → ℕ
cached_hash hash job [] = hash
cached_hash hash job (e ∷ es) = cached_hash (if job == e.0 then e.1 else hash) job es

-- What the second loop has: the scheduler, the options, and the error that ended it.
abbrev pub Optioning : Type 0
Optioning = Sched × List JobOptions × Option PolicyError

abbrev pub add_options : List (ℕ × ℕ) → ℕ → List JobOptions → Sched × Lookup → Optioning
add_options cached job out (sched, Lookup.missing e) = (sched, out, some e)
add_options cached job out (sched, Lookup.found pol) =
    if cached_hash 0 job cached == pol.opts.options_hash
    then (sched, out, none)
    else (sched, out ++ pol.opts ∷ [], none)

abbrev pub then_options : (Sched → List JobOptions → Optioning) → Optioning → Optioning
then_options more (sched, out, some e) = (sched, out, some e)
then_options more (sched, out, none) = more sched out

-- The loop over needOpts.
unfoldable pub options_for :
    SpecLib → List (ℕ × ℕ) → Store → List ℕ → Sched → List JobOptions → Optioning
options_for lib cached s [] sched out = (sched, out, none)
options_for lib cached s (job ∷ jobs) sched out =
    then_options (options_for lib cached s jobs)
      (add_options cached job out (job_policy lib sched s job))

-- What Grant returns: the scheduler, the store, and a grant or an error.
pub data Granted (M : Type 0) : Type 0 where
  grant : WorkGrant M → Granted M
  refused : PolicyError → Granted M

abbrev pub start_granting : {M : Type 0} → Sched → Store → Granting M
start_granting sched s = record { sched = sched; store = s; items = []; jobs = []; fault = none }

abbrev pub with_options : {M : Type 0} → Granting M → Optioning → Sched × Store × Granted M
with_options g (sched, out, some e) = (sched, g.store, Granted.refused e)
with_options g (sched, out, none) =
    (sched, g.store, Granted.grant (record { items = g.items; options = out }))

abbrev pub finish_grant :
    {M : Type 0}
    → SpecLib
    → List (ℕ × ℕ)
    → Granting M
    → Option PolicyError
    → Sched × Store × Granted M
finish_grant lib cached g (some e) = (g.sched, g.store, Granted.refused e)
finish_grant lib cached g none = with_options g (options_for lib cached g.store g.jobs g.sched [])

-- How many shards Grant asks LeaseShards for, after fleet.
unfoldable pub grant_size : WorkRequest → ℕ → Sched → Store → ℕ
grant_size req now sched s =
    let f = fleet now s sched in
    min (fair_share (req.shard_credits + req.task_credits) f.counts.queued f.agents) grant_max_items

module _ {M : Type 0} (lib : GrantLib M) where
  abbrev pub grant_row : Shard → Pass → Granting M → Sched × Lookup → Granting M
  grant_row r p g (sched, Lookup.missing e) = record g { sched = sched; fault = some e }
  grant_row r p g (sched, Lookup.found pol) =
      add_or_park lib r p (record g { sched = sched })
        (build_item lib p
          (walk_overrides pol.spread pol.opts.tuning.dir_split_threshold sched.agents sched.counts)
          r.kind r)

  -- A row that LeaseShards returns carries the job of its pass, by the JOIN.
  abbrev pub grant_joined : Shard → Granting M → Option Pass → Granting M
  grant_joined r g none = g
  grant_joined r g (some p) = grant_row r p g (job_policy lib.specs g.sched g.store p.job_id)

  abbrev pub unless_failed : Option PolicyError → Granting M → Granting M → Granting M
  unless_failed (some e) stop go = stop
  unless_failed none stop go = go

  -- The loop over the leased rows; an error of jobPolicy ends it.
  unfoldable pub grant_rows : List Shard → Granting M → Granting M
  grant_rows [] g = g
  grant_rows (r ∷ rs) g =
      let next = grant_joined r g (find_row (is_pass r.pass_id) g.store.passes) in
      unless_failed next.fault next (grant_rows rs next)

  -- Grant, at the time `now`. The new leases run until `expiry`; `new_lease` draws their ids.
  unfoldable pub grant_work :
      Bytes → WorkRequest → ℕ → ℕ → (ℕ → ℕ) → Sched → Store → Sched × Store × Granted M
  grant_work agent_id req now expiry new_lease sched s =
      let leased = lease_shards agent_id (grant_size req now sched s) expiry new_lease s in
      let g = grant_rows leased.1 (start_granting (fleet now s sched) leased.0) in
      finish_grant lib.specs req.cached g g.fault
