-- ===== src/AgentSrv/Dispatch.antt =====
-- coordinator/internal/agentsrv/server.go: onHeartbeat, onWorkRequest, dispatch and the loop of handle, on
-- the messages of one session. Frames are taken decoded; a frame that does not decode, an agent's error
-- and an unknown frame are `unreadable`. A batch of the journal and the figures of an agent do not touch
-- the store; drain and pause change between messages.
use drsync.Prelude.{
  ℕ, ◌+◌, Bool, true, false, ◌||◌, List, [], ◌∷◌, Option, none, some, Bytes, if◌then◌else◌,
}
use drsync.Store.Schema.{Store}
use drsync.Store.Sweep.{renew_leases}
use drsync.Store.Shards.Valid.{IsValid}
use drsync.Store.Reachable.{Step, Reachable, Reachable-IsValid}
use drsync.Scheduler.Policy.{Sched}
use drsync.Scheduler.Grant.{GrantLib, WorkRequest, Granted, grant_work}
use drsync.Scheduler.Grant.Items.{grant_work-Reachable}
use drsync.AgentSrv.Messages.{ShardResult, TaskResult, Codec, Fault}
use drsync.AgentSrv.Results.{on_shard_result, on_task_results}
use drsync.AgentSrv.Results.Once.{on_shard_result-Reachable, on_task_results-Reachable}
use drsync.AgentSrv.Splits.{ShardSplit, Reply, SplitResult, on_shard_split}
use drsync.AgentSrv.Splits.Assigned.{on_shard_split-Reachable}

-- A frame, with the time at which it is handled where that matters. For a work request the flags are
-- ac.drain and ac.pause at that time, and the last argument draws the lease ids.
pub data Message : Type 0 where
  heartbeat : ℕ → List ℕ → Message
  work_request : ℕ → Bool → Bool → WorkRequest → (ℕ → ℕ) → Message
  shard_split : ShardSplit → Message
  shard_result : ShardResult → Message
  task_result : List TaskResult → Message
  journal_batch : Message
  stats_report : Message
  unreadable : Message

-- The scheduler and the store after a message, and whether its handler failed.
abbrev pub Handled : Type 0
Handled = Sched × Store × Bool

abbrev pub is_fault : Option Fault → Bool
is_fault none = false
is_fault (some f) = true

abbrev pub is_closed : Reply → Bool
is_closed (Reply.ack ids) = false
is_closed (Reply.closed f) = true

abbrev pub is_refused : {M : Type 0} → Granted M → Bool
is_refused (Granted.grant wg) = false
is_refused (Granted.refused e) = true

abbrev pub of_results : Sched → Store × Option Fault → Handled
of_results sched (s, f) = (sched, s, is_fault f)

abbrev pub of_split : SplitResult → Handled
of_split (sched, s, r) = (sched, s, is_closed r)

abbrev pub of_grant : {M : Type 0} → Sched × Store × Granted M → Handled
of_grant (sched, s, g) = (sched, s, is_refused g)

module _ {M : Type 0} (lib : GrantLib M) (c : Codec) (hex : ℕ → Bytes) (agent_id : Bytes)
    (lease_ttl : ℕ) where
  -- onWorkRequest: a draining or paused agent gets an empty grant.
  abbrev pub on_work_request : ℕ → Bool → WorkRequest → (ℕ → ℕ) → Sched → Store → Handled
  on_work_request now held req new_lease sched s =
      if held
      then (sched, s, false)
      else of_grant (grant_work lib agent_id req now (now + lease_ttl) new_lease sched s)

  -- dispatch
  unfoldable pub dispatch : Message → Sched → Store → Handled
  dispatch (Message.heartbeat now held) sched s =
      (sched, (renew_leases agent_id held (now + lease_ttl) s).0, false)
  dispatch (Message.work_request now drain pause req new_lease) sched s =
      on_work_request now (drain || pause) req new_lease sched s
  dispatch (Message.shard_split sp) sched s = of_split (on_shard_split lib.specs c hex sp sched s)
  dispatch (Message.shard_result r) sched s = of_results sched (on_shard_result c r s)
  dispatch (Message.task_result ts) sched s = of_results sched (on_task_results c ts s)
  dispatch Message.journal_batch sched s = (sched, s, false)
  dispatch Message.stats_report sched s = (sched, s, false)
  dispatch Message.unreadable sched s = (sched, s, true)

  abbrev pub unless_closed : (Sched → Store → Handled) → Handled → Handled
  unless_closed more (sched, s, true) = (sched, s, true)
  unless_closed more (sched, s, false) = more sched s

  -- The loop of handle: an error closes the session, and what follows is not read.
  unfoldable pub run_session : List Message → Sched → Store → Handled
  run_session [] sched s = (sched, s, false)
  run_session (m ∷ ms) sched s = unless_closed (run_session ms) (dispatch m sched s)

  split-Reachable : (q : SplitResult) → Reachable q.1 → Reachable (of_split q).1
  split-Reachable (sc, s', r) h = h

  grant-Reachable : (q : Sched × Store × Granted M) → Reachable q.1 → Reachable (of_grant q).1
  grant-Reachable (sc, s', g) h = h

  results-Reachable :
      (sched : Sched) (q : Store × Option Fault) → Reachable q.0 → Reachable (of_results sched q).1
  results-Reachable sched (s', f) h = h

  dispatch-Reachable :
      (m : Message) (sched : Sched) (s : Store) → Reachable s → Reachable (dispatch m sched s).1
  unfolding dispatch
  dispatch-Reachable (Message.heartbeat now held) sched s r =
      Reachable.next r (Step.renew agent_id held (now + lease_ttl))
  dispatch-Reachable (Message.work_request now drain pause req new_lease) sched s r =
      by_flags (drain || pause)
    where
      by_flags : (b : Bool) → Reachable (on_work_request now b req new_lease sched s).1
      by_flags true = r
      by_flags false =
          grant-Reachable (grant_work lib agent_id req now (now + lease_ttl) new_lease sched s)
            (grant_work-Reachable lib agent_id req now (now + lease_ttl) new_lease sched s r)
  dispatch-Reachable (Message.shard_split sp) sched s r =
      split-Reachable (on_shard_split lib.specs c hex sp sched s)
        (on_shard_split-Reachable lib.specs c hex sp sched s r)
  dispatch-Reachable (Message.shard_result q) sched s r =
      results-Reachable sched (on_shard_result c q s) (on_shard_result-Reachable c q s r)
  dispatch-Reachable (Message.task_result ts) sched s r =
      results-Reachable sched (on_task_results c ts s) (on_task_results-Reachable c ts s r)
  dispatch-Reachable Message.journal_batch sched s r = r
  dispatch-Reachable Message.stats_report sched s r = r
  dispatch-Reachable Message.unreadable sched s r = r

  run_session-Reachable :
      (ms : List Message) (sched : Sched) (s : Store)
      → Reachable s
      → Reachable (run_session ms sched s).1
  unfolding run_session
  run_session-Reachable [] sched s r = r
  run_session-Reachable (m ∷ ms) sched s r =
      then_reachable (run_session ms) (λ sc s₁ h. run_session-Reachable ms sc s₁ h)
        (dispatch m sched s) (dispatch-Reachable m sched s r)
    where
      then_reachable :
          (more : Sched → Store → Handled)
          → ((sc : Sched) (s₁ : Store) → Reachable s₁ → Reachable (more sc s₁).1)
          → (q : Handled) → Reachable q.1
          → Reachable (unless_closed more q).1
      then_reachable more f (sc, s₁, true) h = h
      then_reachable more f (sc, s₁, false) h = f sc s₁ h

  -- Whatever an agent sends in a session, in whatever order, results that are stale or repeated, splits of
  -- shards that are gone and requests without end included, the shard table of a reachable store stays
  -- valid: its rollup exact, its ids unique and each of its rows sound.
  pub run_session-IsValid :
      (ms : List Message) (sched : Sched) (s : Store)
      → Reachable s
      → IsValid (run_session ms sched s).1.shards
  run_session-IsValid ms sched s r =
      Reachable-IsValid (run_session ms sched s).1 (run_session-Reachable ms sched s r)
