-- ===== src/PassCtrl/Advance/Edges.antt =====
-- coordinator/internal/passctrl/passctrl.go, advance: the moves of the passes' states.
use drsync.Prelude.{
  map, count_where, ℕ, ◌+◌, ◌≡◌, refl, sym, ap, ◌∙◌, ◌⊎◌, inl, inr, subst, Bool, true, false, ◌&&◌,
  List, [], ◌∷◌, ◌++◌, Option, none, some, Bytes, bytes, bytes_eq, ltb, if◌then◌else◌, All, arith,
  update_where, Bool-cases, Option-cases,
}
use drsync.Model.States.{PassState, ShardState, ShardKind}
use drsync.Store.Schema.{Job, Pass, Store, Result, ok, err}
use drsync.Store.Shards.{NewShard}
use drsync.Store.Sweep.{contains_id, prune_stale_probes, retry_parked_by_job}
use drsync.Store.Counts.{shard_state_counts, schedulable_agents}
use drsync.Store.Jobs.{set_job_state}
use drsync.Store.Passes.{is_numbered, create_pass, has_pass_id, put_pass_state, set_pass_state}
use drsync.PassCtrl.Converge.{Decision, decide_next_pass}
use drsync.Model.Spec.{JobSpec}
use drsync.PassCtrl.Seeds.{
  spec_of, Env, add_shards, seed_temp_reclaim, seed_dirfix, link_batches, seed_linkfix, verify_pass,
  seed_verify,
}
use drsync.PassCtrl.Lifecycle.{create_seeded, probe_shard, root_shard, seed_pass, seed_with}
use drsync.PassCtrl.Advance.{
  scan_kinds, is_pass_state, Controller, ReapRequest, enqueue, flip, then_reap, then_reap_links,
  with_store, apply_decision, decide, prune, eager_reap, hold_parked, finish_phase, advance_counted,
  advance_pass,
}

-- The phase that advance moves a drained phase to.
abbrev pub next_phase : PassState → Option PassState
next_phase PassState.probing = some PassState.scanning
next_phase PassState.scanning = some PassState.dirfix
next_phase PassState.dirfix = some PassState.linkfix
next_phase PassState.linkfix = some PassState.verify
next_phase PassState.verify = some PassState.complete
next_phase PassState.delete = some PassState.complete
next_phase _ = none

-- A row stays in its phase or moves to the next one.
abbrev pub Moves : Pass → Pass → Type 0
Moves x y = (y.id ≡ x.id) × ((y.state ≡ x.state) ⊎ (next_phase x.state ≡ some y.state))

-- Every row is still there, moved by at most one phase, and new rows come after them.
pub MovesAll : List Pass → List Pass → Type 0
MovesAll [] ys = Unit
MovesAll (x ∷ xs) [] = ⊥
MovesAll (x ∷ xs) (y ∷ ys) = Moves x y × MovesAll xs ys

-- What a read of the pass by its key says of a row.
abbrev pub Agrees : Pass → Pass → Type 0
Agrees pass x = has_pass_id pass.id x ≡ true → x.state ≡ pass.state

MovesAll-refl : (xs : List Pass) → MovesAll xs xs
unfolding MovesAll
MovesAll-refl [] = tt
MovesAll-refl (x ∷ xs) = ((refl, inl refl), MovesAll-refl xs)

MovesAll-append : (xs ys zs : List Pass) → MovesAll xs ys → MovesAll xs (ys ++ zs)
unfolding MovesAll
MovesAll-append [] ys zs m = tt
MovesAll-append (x ∷ xs) [] zs m = absurd m
MovesAll-append (x ∷ xs) (y ∷ ys) zs m = (m.0, MovesAll-append xs ys zs m.1)

MovesAll-set :
    (pass : Pass) (st : PassState) (xs : List Pass)
    → All (Agrees pass) xs
    → next_phase pass.state ≡ some st
    → MovesAll xs (update_where (has_pass_id pass.id) (put_pass_state st) xs)
unfolding MovesAll
MovesAll-set pass st [] a n = tt
MovesAll-set pass st (x ∷ xs) a n = elim (Bool-cases (has_pass_id pass.id x)) [
  | inl t ↦ rw t ((refl, inr (ap next_phase (a.0 t) ∙ n)), MovesAll-set pass st xs a.1 n)
  | inr f ↦ rw f ((refl, inl refl), MovesAll-set pass st xs a.1 n)
]

store-enqueue : (req : ReapRequest) (c : Controller) → (enqueue req c).store ≡ c.store
unfolding enqueue
store-enqueue req c = ground arith

passes-add_shards : (i : ℕ) (news : List _) (s : Store) → (add_shards i news s).passes ≡ s.passes
unfolding add_shards
passes-add_shards i news s = refl

passes-seed_dirfix :
    (env : Env) (j : ℕ) (pass : Pass) (s : Store)
    → (seed_dirfix env j pass (seed_temp_reclaim env pass.id s)).0.passes ≡ s.passes
unfolding seed_dirfix seed_temp_reclaim add_shards
passes-seed_dirfix env j pass s = refl

passes-seed_verify :
    (env : Env) (y : Bytes) (j : ℕ) (pass : Pass) (s : Store)
    → (seed_verify env y j pass s).0.passes ≡ s.passes
unfolding seed_verify verify_pass add_shards
passes-seed_verify env y j pass s = elim (Option-cases (spec_of env y)) [
  | inl n ↦ rw (n, seed_verify) refl
  | inr (spec, e) ↦ rw (e, seed_verify) (off-or-not (bytes_eq spec.verify.mode (bytes "off")) spec)
]
  where
    off-or-not :
        (b : Bool) (spec : JobSpec)
        → (if b then (s, ok tt) else verify_pass env spec j pass s).0.passes ≡ s.passes
    off-or-not true spec = refl
    off-or-not false spec = refl

passes-link_batches :
    (env : Env) (pass : Pass) (bs : List _) (s : Store)
    → (link_batches env pass bs s).passes ≡ s.passes
unfolding link_batches add_shards
passes-link_batches env pass [] s = refl
passes-link_batches env pass (b ∷ bs) s = passes-link_batches env pass bs _

passes-seed_linkfix :
    (env : Env) (pass : Pass) (s : Store) → (seed_linkfix env pass s).passes ≡ s.passes
unfolding seed_linkfix
passes-seed_linkfix env pass s = passes-link_batches env pass _ s

store-then_reap :
    (ks : List ShardKind) (i : ℕ) (r : Controller × Result (Unit {0}))
    → (then_reap ks i r).0.store ≡ r.0.store
store-then_reap ks i (c, ok u) = store-enqueue _ c
store-then_reap ks i (c, err e) = refl

store-then_reap_links :
    (i : ℕ) (r : Controller × Result (Unit {0})) → (then_reap_links i r).0.store ≡ r.0.store
store-then_reap_links i (c, ok u) = store-enqueue _ c
store-then_reap_links i (c, err e) = refl

MovesAll-flip :
    (pass : Pass) (st : PassState) (c : Controller) (r : Store × Result (Unit {0}))
    → All (Agrees pass) c.store.passes
    → next_phase pass.state ≡ some st
    → r.0.passes ≡ c.store.passes
    → MovesAll c.store.passes (flip pass st c r).0.store.passes
unfolding set_pass_state
MovesAll-flip pass st c (s, ok u) a n e = rw e (MovesAll-set pass st c.store.passes a n)
MovesAll-flip pass st c (s, err x) a n e = rw e (MovesAll-refl c.store.passes)

MovesAll-create_seeded :
    (xs : List Pass) (job_id n : ℕ) (st : PassState) (news : List NewShard) (s : Store)
    → MovesAll xs s.passes
    → MovesAll xs (create_seeded job_id n st news s).0.passes
unfolding create_pass add_shards
MovesAll-create_seeded xs job_id n st news s m =
    elim (Bool-cases (ltb 0 (count_where (is_numbered job_id n) s.passes))) [
      | inl t ↦ rw t m
      | inr f ↦ rw f (MovesAll-append xs s.passes _ m)
    ]

MovesAll-seed_pass :
    (xs : List Pass) (job_id n : ℕ) (s : Store)
    → MovesAll xs s.passes
    → MovesAll xs (seed_pass job_id n s).0.passes
unfolding seed_pass
MovesAll-seed_pass xs job_id n s m = with_agents (schedulable_agents s.agents)
  where
    with_agents : (agents : List Bytes) → MovesAll xs (seed_with job_id n s agents).0.passes
    with_agents [] = MovesAll-create_seeded xs job_id n PassState.scanning (root_shard ∷ []) s m
    with_agents (x ∷ agents) =
        MovesAll-create_seeded xs job_id n PassState.probing (map probe_shard (x ∷ agents)) s m

MovesAll-decide :
    (env : Env) (job : Job) (pass : Pass) (xs : List Pass) (c : Controller)
    → MovesAll xs c.store.passes
    → MovesAll xs (decide env job pass c).0.store.passes
unfolding set_job_state
MovesAll-decide env job pass xs c m = elim (Option-cases (spec_of env job.spec_yaml)) [
  | inl n ↦ rw (n, decide) m
  | inr (spec, e) ↦ rw (e, decide) (MovesAll-apply (decide_next_pass spec job.dry_run pass))
]
  where
    MovesAll-apply : (d : Decision) → MovesAll xs (apply_decision job d c.store).0.passes
    MovesAll-apply (Decision.finish b) = m
    MovesAll-apply Decision.await = m
    MovesAll-apply (Decision.seed_next n) = MovesAll-seed_pass xs job.id n c.store m

finish_phase-MovesAll :
    (st : PassState) (env : Env) (job : Job) (pass : Pass) (c : Controller)
    → All (Agrees pass) c.store.passes
    → st ≡ pass.state
    → MovesAll c.store.passes (finish_phase st env job pass c).0.store.passes
unfolding finish_phase set_pass_state set_job_state
finish_phase-MovesAll PassState.probing env job pass c a e =
    MovesAll-flip pass PassState.scanning c (add_shards pass.id (root_shard ∷ []) c.store, ok tt) a
      (ap next_phase (sym e)) (passes-add_shards pass.id (root_shard ∷ []) c.store)
finish_phase-MovesAll PassState.scanning env job pass c a e =
    rw
      (store-then_reap scan_kinds pass.id (
        flip pass PassState.dirfix c
          (seed_dirfix env job.id pass (seed_temp_reclaim env pass.id c.store))))
      (MovesAll-flip pass PassState.dirfix c _ a (ap next_phase (sym e))
        (passes-seed_dirfix env job.id pass c.store))
finish_phase-MovesAll PassState.dirfix env job pass c a e =
    let flipped : Controller × Result (Unit {0}) =
      flip pass PassState.linkfix c (seed_linkfix env pass c.store, ok tt) in
    rw
      (
        store-then_reap_links pass.id (then_reap (ShardKind.dirfix ∷ []) pass.id flipped),
        store-then_reap (ShardKind.dirfix ∷ []) pass.id flipped,
      )
      (MovesAll-flip pass PassState.linkfix c (seed_linkfix env pass c.store, ok tt) a
        (ap next_phase (sym e)) (passes-seed_linkfix env pass c.store))
finish_phase-MovesAll PassState.linkfix env job pass c a e =
    rw
      (store-then_reap (ShardKind.linkfix ∷ []) pass.id
        (flip pass PassState.verify c (seed_verify env job.spec_yaml job.id pass c.store)))
      (MovesAll-flip pass PassState.verify c _ a (ap next_phase (sym e))
        (passes-seed_verify env job.spec_yaml job.id pass c.store))
finish_phase-MovesAll PassState.verify env job pass c a e =
    MovesAll-decide env job pass c.store.passes _ (
      rw (store-enqueue _ (with_store c (set_pass_state pass.id PassState.complete c.store)))
        (MovesAll-set pass PassState.complete c.store.passes a (ap next_phase (sym e))))
finish_phase-MovesAll PassState.delete env job pass c a e =
    MovesAll-set pass PassState.complete c.store.passes a (ap next_phase (sym e))
finish_phase-MovesAll PassState.pending env job pass c a e = MovesAll-refl c.store.passes
finish_phase-MovesAll PassState.complete env job pass c a e = MovesAll-refl c.store.passes

passes-prune : (pass : Pass) (c : Controller) → (prune pass c).store.passes ≡ c.store.passes
unfolding prune_stale_probes
passes-prune pass c = elim (Bool-cases (is_pass_state pass.state PassState.probing)) [
  | inl t ↦ rw t refl
  | inr f ↦ rw f refl
]

pub store-eager_reap :
    (pass : Pass) (counts : ShardState → ℕ) (c : Controller)
    → (eager_reap pass counts c).store ≡ c.store
store-eager_reap pass counts c =
    elim (Bool-cases
      (is_pass_state pass.state PassState.scanning && ltb 0 (counts ShardState.done))) [
        | inl t ↦ rw t (store-enqueue _ c)
        | inr f ↦ rw f refl
      ]

passes-hold_parked :
    (job : Job) (pass : Pass) (c : Controller)
    → (hold_parked job pass c).store.passes ≡ c.store.passes
unfolding retry_parked_by_job
passes-hold_parked job pass c = elim (Bool-cases (contains_id c.auto_retried pass.id)) [
  | inl t ↦ rw t refl
  | inr f ↦ rw f refl
]

counted-MovesAll :
    (env : Env) (job : Job) (pass : Pass) (counts : ShardState → ℕ) (c : Controller)
    → All (Agrees pass) c.store.passes
    → MovesAll c.store.passes (advance_counted env job pass counts c).0.store.passes
counted-MovesAll env job pass counts c a =
    elim (Bool-cases (ltb 0 (counts ShardState.queued + counts ShardState.leased))) [
      | inl t ↦ rw (t, store-eager_reap pass counts c) (MovesAll-refl c.store.passes)
      | inr f ↦ elim (Bool-cases (ltb 0 (counts ShardState.parked))) [
        | inl t ↦
            rw
              (
                f,
                t,
                passes-hold_parked job pass (eager_reap pass counts c),
                store-eager_reap pass counts c,
              )
              (MovesAll-refl c.store.passes)
        | inr g ↦ rw (f, g) drained
      ]
    ]
  where
    drained :
        MovesAll c.store.passes
          (finish_phase pass.state env job pass (eager_reap pass counts c)).0.store.passes
    drained =
        subst
          (λ (s : Store).
            MovesAll s.passes
              (finish_phase pass.state env job pass (eager_reap pass counts c)).0.store.passes)
          (store-eager_reap pass counts c)
          (finish_phase-MovesAll pass.state env job pass (eager_reap pass counts c)
            (subst (λ (s : Store). All (Agrees pass) s.passes)
              (sym (store-eager_reap pass counts c)) a)
            refl)

-- One tick of a job keeps every pass, and moves the state of each by at most one edge of the phase
-- machine; the rows of the pass's id carry the state that was read.
pub advance_pass-MovesAll :
    (env : Env) (job : Job) (pass : Pass) (c : Controller)
    → All (Agrees pass) c.store.passes
    → MovesAll c.store.passes (advance_pass env job pass c).0.store.passes
unfolding advance_pass
advance_pass-MovesAll env job pass c a =
    subst (λ (xs : List Pass). MovesAll xs (advance_pass env job pass c).0.store.passes)
      (passes-prune pass c)
      (counted-MovesAll env job pass (shard_state_counts pass.id (prune pass c).store)
        (prune pass c)
        (subst (λ (xs : List Pass). All (Agrees pass) xs) (sym (passes-prune pass c)) a))
