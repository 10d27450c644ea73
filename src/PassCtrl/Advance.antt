-- ===== src/PassCtrl/Advance.antt =====
-- coordinator/internal/passctrl/passctrl.go: advance, one job's phase machine, and the queue of reaps.
-- Emails and the journal histogram of a complete pass, which no later decision reads, are left out.
pub mod Edges
pub mod Barrier
use drsync.Prelude.{
  ℕ, suc, ◌+◌, Bool, true, false, ◌&&◌, not, List, [], ◌∷◌, ◌++◌, Option, none, some, Bytes, ◌==◌,
  ltb, if◌then◌else◌, length, find_row, delete_where, is_some,
}
use drsync.Model.States.{JobState, PassState, ShardState, ShardKind, phase_rank}
use drsync.Store.Schema.{Job, Pass, Store, Error, Result, ok, err}
use drsync.Store.Sweep.{contains_id, prune_stale_probes, retry_parked_by_job}
use drsync.Store.Counts.{shard_state_counts}
use drsync.Store.Jobs.{set_job_state}
use drsync.Store.Passes.{active_pass, set_pass_state}
use drsync.PassCtrl.Converge.{Decision, decide_next_pass}
use drsync.PassCtrl.Seeds.{
  spec_of, Env, add_shards, seed_temp_reclaim, seed_dirfix, seed_linkfix, seed_verify,
}
use drsync.PassCtrl.Lifecycle.{root_shard, seed_pass}

-- reapRequest: a request of the registry has no kinds.
pub record ReapRequest : Type 0 where
  pub pass_id : ℕ
  pub registry : Bool
  pub kinds : List ShardKind

-- Controller: the store, parkedAutoRetried, reapCh and reapInflight.
pub record Controller : Type 0 where
  pub store : Store
  pub auto_retried : List ℕ
  pub reaps : List ReapRequest
  pub inflight : List (ℕ × Bool)

-- reapChanBuffer
abbrev pub reap_chan_buffer : ℕ
reap_chan_buffer = 256

abbrev same_flag : Bool → Bool → Bool
same_flag true b = b
same_flag false b = not b

abbrev pub is_reap_key : ℕ → Bool → ℕ × Bool → Bool
is_reap_key pass_id registry k = (k.0 == pass_id) && same_flag k.1 registry

-- enqueue: a request whose key is in flight is dropped, and so is one that finds the channel full.
unfoldable pub enqueue : ReapRequest → Controller → Controller
enqueue req c =
    if is_some (find_row (is_reap_key req.pass_id req.registry) c.inflight)
    then c
    else if ltb (length c.reaps) reap_chan_buffer
    then record c {
      reaps = c.reaps ++ req ∷ [];
      inflight = (req.pass_id, req.registry) ∷ c.inflight;
    }
    else c

-- enqueueReap and enqueueReapLinkRegistry
abbrev pub enqueue_reap : ℕ → List ShardKind → Controller → Controller
enqueue_reap pass_id kinds c =
    enqueue (record { pass_id = pass_id; registry = false; kinds = kinds }) c

abbrev pub enqueue_reap_link_registry : ℕ → Controller → Controller
enqueue_reap_link_registry pass_id c =
    enqueue (record { pass_id = pass_id; registry = true; kinds = [] }) c

abbrev pub scan_kinds : List ShardKind
scan_kinds = ShardKind.probe ∷ ShardKind.dir ∷ ShardKind.entry_list ∷ ShardKind.chunk ∷ []

abbrev pub with_store : Controller → Store → Controller
with_store c s = record c { store = s }

-- What decideNextPass writes.
abbrev pub apply_decision : Job → Decision → Store → Store × Result (Unit {0})
apply_decision job (Decision.finish converged) s =
    (set_job_state job.id JobState.completed s, ok tt)
apply_decision job Decision.await s = (s, ok tt)
apply_decision job (Decision.seed_next n) s = seed_pass job.id n s

abbrev pub decide : Env → Job → Pass → Controller → Controller × Result (Unit {0})
decide env job pass c = elim (spec_of env job.spec_yaml) [
  | none ↦ (c, err Error.spec_invalid)
  | some spec ↦
      let (s, r) = apply_decision job (decide_next_pass spec job.dry_run pass) c.store in
      (with_store c s, r)
]

-- A seeded phase: on an error what was seeded stays, and the pass keeps its state.
abbrev pub flip :
    Pass → PassState → Controller → Store × Result (Unit {0}) → Controller × Result (Unit {0})
flip pass st c (s, err e) = (with_store c s, err e)
flip pass st c (s, ok _) = (with_store c (set_pass_state pass.id st s), ok tt)

abbrev pub then_reap :
    List ShardKind → ℕ → Controller × Result (Unit {0}) → Controller × Result (Unit {0})
then_reap kinds pass_id (c, err e) = (c, err e)
then_reap kinds pass_id (c, ok _) = (enqueue_reap pass_id kinds c, ok tt)

abbrev pub then_reap_links : ℕ → Controller × Result (Unit {0}) → Controller × Result (Unit {0})
then_reap_links pass_id (c, err e) = (c, err e)
then_reap_links pass_id (c, ok _) = (enqueue_reap_link_registry pass_id c, ok tt)

-- The `switch pass.State` of advance, for a pass whose phase has drained.
unfoldable pub finish_phase :
    PassState → Env → Job → Pass → Controller → Controller × Result (Unit {0})
finish_phase PassState.probing env job pass c =
    flip pass PassState.scanning c (add_shards pass.id (root_shard ∷ []) c.store, ok tt)
finish_phase PassState.scanning env job pass c = then_reap scan_kinds pass.id (
    flip pass PassState.dirfix c
      (seed_dirfix env job.id pass (seed_temp_reclaim env pass.id c.store)))
finish_phase PassState.dirfix env job pass c = then_reap_links pass.id (
    then_reap (ShardKind.dirfix ∷ []) pass.id
      (flip pass PassState.linkfix c (seed_linkfix env pass c.store, ok tt)))
finish_phase PassState.linkfix env job pass c =
    then_reap (ShardKind.linkfix ∷ []) pass.id
      (flip pass PassState.verify c (seed_verify env job.spec_yaml job.id pass c.store))
finish_phase PassState.verify env job pass c = decide env job pass (
    enqueue_reap pass.id (ShardKind.verify ∷ [])
      (with_store c (set_pass_state pass.id PassState.complete c.store)))
finish_phase PassState.delete env job pass c = (
  with_store
      (enqueue_reap pass.id (ShardKind.delete ∷ [])
        (with_store c (set_pass_state pass.id PassState.complete c.store)))
      (set_job_state job.id JobState.completed (set_pass_state pass.id PassState.complete c.store)),
  ok tt,
)
finish_phase _ env job pass c = (c, ok tt)

abbrev pub is_pass_state : PassState → PassState → Bool
is_pass_state a b = phase_rank a == phase_rank b

abbrev pub prune : Pass → Controller → Controller
prune pass c =
    if is_pass_state pass.state PassState.probing
    then with_store c (prune_stale_probes pass.id c.store).0
    else c

abbrev pub eager_reap : Pass → (ShardState → ℕ) → Controller → Controller
eager_reap pass counts c =
    if is_pass_state pass.state PassState.scanning && ltb 0 (counts ShardState.done)
    then enqueue_reap pass.id scan_kinds c
    else c

-- The parked guard: one automatic round, then the pass waits for an operator.
abbrev pub hold_parked : Job → Pass → Controller → Controller
hold_parked job pass c = if contains_id c.auto_retried pass.id then c else record c {
  store = (retry_parked_by_job job.name c.store).0;
  auto_retried = pass.id ∷ c.auto_retried;
}

abbrev pub advance_counted :
    Env → Job → Pass → (ShardState → ℕ) → Controller → Controller × Result (Unit {0})
advance_counted env job pass counts c =
    if ltb 0 (counts ShardState.queued + counts ShardState.leased)
    then (eager_reap pass counts c, ok tt)
    else if ltb 0 (counts ShardState.parked)
    then (hold_parked job pass (eager_reap pass counts c), ok tt)
    else finish_phase pass.state env job pass (eager_reap pass counts c)

unfoldable pub advance_pass : Env → Job → Pass → Controller → Controller × Result (Unit {0})
advance_pass env job pass c =
    let pruned = prune pass c in
    advance_counted env job pass (shard_state_counts pass.id pruned.store) pruned

-- advance
unfoldable pub advance : Env → Job → Controller → Controller × Result (Unit {0})
advance env job c = elim (active_pass job.id c.store) [
  | none ↦ (c, ok tt)
  | some pass ↦ advance_pass env job pass c
]
