-- ===== src/PassCtrl/Advance/Barrier.antt =====
-- coordinator/internal/passctrl/passctrl.go, advance: the guards before a phase ends.
use drsync.Prelude.{
  ℕ, ◌+◌, ◌≡◌, ◌≤◌, ◌<◌, refl, ap, ◌∙◌, subst, Bool, true, false, ◌&&◌, not, List, [], ◌∷◌, ◌==◌,
  ltb, arith, ==_refl, Bool-cases, inl, inr, to_nat, Bytes, count_where,
  count_where-update_where_zero, delete_where, update_where,
}
use drsync.Model.States.{PassState, ShardState, is_shard_state}
use drsync.Store.Schema.{Job, Pass, Shard, Agent, Store}
use drsync.Store.Triggers.{update_shards, delete_shards}
use drsync.Store.Shards.{is_state}
use drsync.Store.Shards.Valid.{IsValid}
use drsync.Store.Sweep.{
  contains_id, is_stale_probe, prune_stale_probes, is_pass_of, is_parked_of, retry_row,
  retry_parked_by_job,
}
use drsync.Store.Sweep.Parked.{prune_stale_probes-IsValid}
use drsync.Store.Counts.{in_pass, shard_state_counts}
use drsync.Store.Counts.Reaped.{pass_rows}
use drsync.PassCtrl.Seeds.{Env}
use drsync.PassCtrl.Advance.{
  Controller, is_pass_state, prune, eager_reap, enqueue, hold_parked, advance_counted, advance_pass,
}
use drsync.PassCtrl.Advance.Edges.{store-eager_reap}

positive : (n : ℕ) → 0 < n → ltb 0 n ≡ true
positive n h = ground arith

-- The counts that a tick reads are those of the rows.
counts_lem :
    (p : ℕ) (s : Store)
    → IsValid s.shards
    → (shard_state_counts p s ShardState.queued ≡ pass_rows p ShardState.queued s.shards.rows)
      × (shard_state_counts p s ShardState.leased ≡ pass_rows p ShardState.leased s.shards.rows)
      × (shard_state_counts p s ShardState.parked ≡ pass_rows p ShardState.parked s.shards.rows)
unfolding shard_state_counts
counts_lem p s v = (
  v.summed (in_pass p ShardState.queued),
  v.summed (in_pass p ShardState.leased),
  v.summed (in_pass p ShardState.parked),
)

-- A shard of the pass that is not done, and not a probe that the tick removes.
abbrev pub is_open : Pass → List Agent → Shard → Bool
is_open pass agents r =
    (pass.id == r.pass_id)
    && (not (is_state ShardState.done r) && not (is_stale_probe pass.id agents r))

abbrev is_unfinished : ℕ → Shard → Bool
is_unfinished p r = (p == r.pass_id) && not (is_state ShardState.done r)

open_kept :
    (pass : Pass) (agents : List Agent) (rs : List Shard)
    → count_where (is_open pass agents) rs
      ≤ count_where (is_unfinished pass.id) (delete_where (is_stale_probe pass.id agents) rs)
open_kept pass agents [] = omega arith
open_kept pass agents (r ∷ rs) = ground (arith, open_kept pass agents rs)

open_all :
    (pass : Pass) (agents : List Agent) (rs : List Shard)
    → count_where (is_open pass agents) rs ≤ count_where (is_unfinished pass.id) rs
open_all pass agents [] = omega arith
open_all pass agents (r ∷ rs) = ground (arith, open_all pass agents rs)

state_cases :
    (b : Bool) (st : ShardState)
    → to_nat (b && not (is_shard_state ShardState.done st))
      ≤ to_nat (b && is_shard_state ShardState.queued st)
        + to_nat (b && is_shard_state ShardState.leased st)
        + to_nat (b && is_shard_state ShardState.parked st)
state_cases b ShardState.queued = ground arith
state_cases b ShardState.leased = ground arith
state_cases b ShardState.parked = ground arith
state_cases b ShardState.done = ground arith

unfinished-le :
    (p : ℕ) (rs : List Shard)
    → count_where (is_unfinished p) rs
      ≤ pass_rows p ShardState.queued rs
        + pass_rows p ShardState.leased rs
        + pass_rows p ShardState.parked rs
unfinished-le p [] = omega arith
unfinished-le p (r ∷ rs) = omega (arith, state_cases (p == r.pass_id) r.state, unfinished-le p rs)

-- What the removal of stale probes leaves of the store.
record Pruned (pass : Pass) (c : Controller) : Type 0 where
  valid : IsValid c.store.shards → IsValid (prune pass c).store.shards
  passes : (prune pass c).store.passes ≡ c.store.passes
  jobs : (prune pass c).store.jobs ≡ c.store.jobs
  next_id : (prune pass c).store.shards.next_id ≡ c.store.shards.next_id
  open_rows :
      count_where (is_open pass c.store.agents) c.store.shards.rows
      ≤ count_where (is_unfinished pass.id) (prune pass c).store.shards.rows

prune-Pruned : (pass : Pass) (c : Controller) → Pruned pass c
unfolding prune_stale_probes delete_shards
prune-Pruned pass c = elim (Bool-cases (is_pass_state pass.state PassState.probing)) [
  | inl t ↦ record {
    valid = λ v. rw t (prune_stale_probes-IsValid pass.id c.store v);
    passes = rw t refl;
    jobs = rw t refl;
    next_id = rw t refl;
    open_rows = rw t (open_kept pass c.store.agents c.store.shards.rows);
  }
  | inr f ↦ record {
    valid = λ v. rw f v;
    passes = rw f refl;
    jobs = rw f refl;
    next_id = rw f refl;
    open_rows = rw f (open_all pass c.store.agents c.store.shards.rows);
  }
]

auto_retried-eager_reap :
    (pass : Pass) (counts : ShardState → ℕ) (c : Controller)
    → (eager_reap pass counts c).auto_retried ≡ c.auto_retried
unfolding enqueue
auto_retried-eager_reap pass counts c = ground arith

not_positive : (n : ℕ) → n ≡ 0 → ltb 0 n ≡ false
not_positive n h = ground arith

counted_held :
    (env : Env) (job : Job) (pass : Pass) (counts : ShardState → ℕ) (c : Controller)
    → counts ShardState.queued + counts ShardState.leased ≡ 0
    → 0 < counts ShardState.parked
    → (advance_counted env job pass counts c).0 ≡ hold_parked job pass (eager_reap pass counts c)
counted_held env job pass counts c z p =
    rw (not_positive _ z, positive (counts ShardState.parked) p) refl

contains_id_head : (i : ℕ) (is : List ℕ) → contains_id (i ∷ is) i ≡ true
unfolding contains_id
contains_id_head i is = rw (==_refl i) refl

first_round :
    (job : Job) (pass : Pass) (c : Controller)
    → contains_id c.auto_retried pass.id ≡ false
    → ((hold_parked job pass c).store ≡ (retry_parked_by_job job.name c.store).0)
      × (contains_id (hold_parked job pass c).auto_retried pass.id ≡ true)
first_round job pass c n = rw n (refl, contains_id_head pass.id c.auto_retried)

-- A tick that is not past the guards leaves the passes and the jobs, and inserts no shard.
abbrev Holds : Store → Store → Type 0
Holds s s' = (s'.passes ≡ s.passes) × (s'.jobs ≡ s.jobs) × (s'.shards.next_id ≡ s.shards.next_id)

hold_parked-Holds :
    (job : Job) (pass : Pass) (c : Controller) → Holds c.store (hold_parked job pass c).store
unfolding retry_parked_by_job update_shards
hold_parked-Holds job pass c = elim (Bool-cases (contains_id c.auto_retried pass.id)) [
  | inl t ↦ rw t (refl, refl, refl)
  | inr f ↦ rw f (refl, refl, refl)
]

counted_waits :
    (env : Env) (job : Job) (pass : Pass) (counts : ShardState → ℕ) (c : Controller)
    → 1 ≤ counts ShardState.queued + counts ShardState.leased + counts ShardState.parked
    → Holds c.store (advance_counted env job pass counts c).0.store
counted_waits env job pass counts c h =
    elim (Bool-cases (ltb 0 (counts ShardState.queued + counts ShardState.leased))) [
      | inl t ↦ rw (t, store-eager_reap pass counts c) (refl, refl, refl)
      | inr f ↦
          let q : ltb 0 (counts ShardState.parked) ≡ true = ground (arith, f, h) in
          let w = hold_parked-Holds job pass (eager_reap pass counts c) in
          rw (f, q)
            (subst (λ s. Holds s (hold_parked job pass (eager_reap pass counts c)).store)
              (store-eager_reap pass counts c) w)
    ]

-- No phase ends while it has unfinished work: if a shard of the pass is there that is not done, queued,
-- leased or parked, and is not a probe of a departed agent, then a tick leaves every pass and every job as
-- they are and inserts no shard. The shard table is valid.
pub advance_waits :
    (env : Env) (job : Job) (pass : Pass) (c : Controller)
    → IsValid c.store.shards
    → 1 ≤ count_where (is_open pass c.store.agents) c.store.shards.rows
    → ((advance_pass env job pass c).0.store.passes ≡ c.store.passes)
      × ((advance_pass env job pass c).0.store.jobs ≡ c.store.jobs)
      × ((advance_pass env job pass c).0.store.shards.next_id ≡ c.store.shards.next_id)
unfolding advance_pass
advance_waits env job pass c v h =
    let w = prune-Pruned pass c in
    let n = counts_lem pass.id (prune pass c).store (w.valid v) in
    let r =
      counted_waits env job pass (shard_state_counts pass.id (prune pass c).store) (prune pass c) (
        omega (
          arith,
          h,
          w.open_rows,
          n.0,
          n.1,
          n.2,
          unfinished-le pass.id (prune pass c).store.shards.rows,
        )) in
    (r.0 ∙ w.passes, r.1 ∙ w.jobs, r.2 ∙ w.next_id)

abbrev pub is_queued_of : Bytes → Store → Shard → Bool
is_queued_of name s r = is_state ShardState.queued r && is_pass_of name s r.pass_id

queued_again :
    (name : Bytes) (s : Store) (rs : List Shard)
    → count_where (is_queued_of name s) (update_where (is_parked_of name s) retry_row rs)
      ≡ count_where (is_queued_of name s) rs + count_where (is_parked_of name s) rs
queued_again name s [] = refl
queued_again name s (r ∷ rs) = ground (arith, queued_again name s rs)

-- The first time that a pass has shards left of which all that are not done are parked, once stale
-- probes are removed, a tick queues every parked shard of the job again, and marks the pass. The shard
-- table is valid.
pub parked_first_round :
    (env : Env) (job : Job) (pass : Pass) (c : Controller)
    → IsValid c.store.shards
    → pass_rows pass.id ShardState.queued (prune pass c).store.shards.rows ≡ 0
    → pass_rows pass.id ShardState.leased (prune pass c).store.shards.rows ≡ 0
    → 1 ≤ pass_rows pass.id ShardState.parked (prune pass c).store.shards.rows
    → contains_id (prune pass c).auto_retried pass.id ≡ false
    → let s = (prune pass c).store in
      let d = (advance_pass env job pass c).0 in
      (count_where (is_parked_of job.name s) d.store.shards.rows ≡ 0)
      × (count_where (is_queued_of job.name s) d.store.shards.rows
          ≡ count_where (is_queued_of job.name s) s.shards.rows
            + count_where (is_parked_of job.name s) s.shards.rows)
      × (contains_id d.auto_retried pass.id ≡ true)
unfolding advance_pass retry_parked_by_job update_shards
parked_first_round env job pass c v q l p n =
    let s = (prune pass c).store in
    let counts : ShardState → ℕ = shard_state_counts pass.id s in
    let w = counts_lem pass.id s ((prune-Pruned pass c).valid v) in
    let eager : Controller = eager_reap pass counts (prune pass c) in
    let held =
      counted_held env job pass counts (prune pass c) (omega (arith, w.0, w.1, q, l))
        (omega (arith, w.2, p)) in
    let round = first_round job pass eager (
      ap (λ (xs : List ℕ). contains_id xs pass.id)
        (auto_retried-eager_reap pass counts (prune pass c))
      ∙ n) in
    let store =
      round.0
      ∙ ap (λ (t : Store). (retry_parked_by_job job.name t).0)
          (store-eager_reap pass counts (prune pass c)) in
    rw (held, store)
      (
        count_where-update_where_zero (is_parked_of job.name s) (is_parked_of job.name s) retry_row
            (λ r h. refl) (λ r h. h) s.shards.rows,
        queued_again job.name s s.shards.rows,
        round.1,
      )
