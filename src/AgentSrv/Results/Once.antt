-- ===== src/AgentSrv/Results/Once.antt =====
-- coordinator/internal/agentsrv/server.go: results that are delivered again or come late.
use drsync.Prelude.{ℕ, ◌≡◌, refl, List, [], ◌∷◌, Option, none, some, find_row, ◌⊎◌, inl, inr, sym}
use drsync.Store.Schema.{Store, Error}
use drsync.Store.Shards.{has_id}
use drsync.Store.Shards.Answered.{IsAnswered}
use drsync.Store.Reachable.{Reachable}
use drsync.AgentSrv.Messages.{Status, ShardResult, TaskResult, Codec, Fault}
use drsync.AgentSrv.Results.{
  Answer, answer, settle, on_shard_result, result_of, then_results, on_task_results,
}
use drsync.AgentSrv.Results.Calls.{Allowed}
use drsync.AgentSrv.Results.Allowed.{answer-Allowed}

settle-Reachable :
    (i l : ℕ) (s : Store) (a : Answer) → Allowed i l s a → Reachable s → Reachable (settle s a).0
settle-Reachable i l s (Answer.written s') p r = Reachable.next r p.0
settle-Reachable i l s Answer.stale p r = r
settle-Reachable i l s (Answer.failed f) p r = r

pub on_shard_result-Reachable :
    (c : Codec) (r : ShardResult) (s : Store) → Reachable s → Reachable (on_shard_result c r s).0
unfolding on_shard_result
on_shard_result-Reachable c r s =
    settle-Reachable r.shard_id r.lease_id s (answer c r s r.status) (answer-Allowed c r s r.status)

-- Whatever results an agent reports, in one batch, each changes the store by at most one of its calls: a
-- reachable store stays reachable, so all that holds of reachable stores holds after the batch.
pub on_task_results-Reachable :
    (c : Codec) (ts : List TaskResult) (s : Store)
    → Reachable s
    → Reachable (on_task_results c ts s).0
unfolding on_task_results
on_task_results-Reachable c [] s r = r
on_task_results-Reachable c (t ∷ ts) s r =
    then_reachable (on_task_results c ts) (on_task_results-Reachable c ts)
      (on_shard_result c (result_of t) s) (on_shard_result-Reachable c (result_of t) s r)
  where
    then_reachable :
        (more : Store → Store × Option Fault)
        → ((s₁ : Store) → Reachable s₁ → Reachable (more s₁).0)
        → (q : Store × Option Fault) → Reachable q.0
        → Reachable (then_results more q).0
    then_reachable more f (s₁, none) h = f s₁ h
    then_reachable more f (s₁, some x) h = h

settle_answered :
    (i l : ℕ) (s : Store) (a : Answer)
    → Allowed i l s a
    → IsAnswered i l s.shards
    → (settle s a).0 ≡ s
settle_answered i l s (Answer.written s') p h = absurd (p.2 h)
settle_answered i l s Answer.stale p h = refl
settle_answered i l s (Answer.failed f) p h = refl

-- A result under a lease that no leased shard has, expired, answered or never granted, changes nothing
-- in the store, whatever its status.
pub on_shard_result_stale :
    (c : Codec) (r : ShardResult) (s : Store)
    → IsAnswered r.shard_id r.lease_id s.shards
    → (on_shard_result c r s).0 ≡ s
unfolding on_shard_result
on_shard_result_stale c r s h =
    settle_answered r.shard_id r.lease_id s (answer c r s r.status) (answer-Allowed c r s r.status)
      h

settle_twice :
    (c : Codec) (r : ShardResult) (s : Store) (a : Answer)
    → a ≡ answer c r s r.status
    → Allowed r.shard_id r.lease_id s a
    → (on_shard_result c r (settle s a).0).0 ≡ (settle s a).0
unfolding on_shard_result
settle_twice c r s (Answer.written s') e p = on_shard_result_stale c r s' p.1
settle_twice c r s Answer.stale e p = rw (sym e) refl
settle_twice c r s (Answer.failed f) e p = rw (sym e) refl

-- A result that is delivered twice does to the store what it does once: counters are added once, a chunk
-- is counted once, and what follows from it is seeded once.
pub on_shard_result_twice :
    (c : Codec) (r : ShardResult) (s : Store)
    → (on_shard_result c r (on_shard_result c r s).0).0 ≡ (on_shard_result c r s).0
unfolding on_shard_result
on_shard_result_twice c r s =
    settle_twice c r s (answer c r s r.status) refl (answer-Allowed c r s r.status)

-- Where the row of a shard is gone, deleted by the reaper after another agent finished it, a late result
-- OK or SRC_CHANGED is no stale result: the handler fails, which closes the agent's session.
pub late_result_fails :
    (c : Codec) (r : ShardResult) (s : Store)
    → find_row (has_id r.shard_id) s.shards.rows ≡ none
    → (r.status ≡ Status.ok) ⊎ (r.status ≡ Status.src_changed)
    → on_shard_result c r s ≡ (s, some (Fault.stored Error.no_rows))
unfolding on_shard_result answer
late_result_fails c r s h (inl e) = rw (e, h) refl
late_result_fails c r s h (inr e) = rw (e, h) refl
