-- ===== src/Api/Actions/Purged.antt =====
-- coordinator/internal/api/api.go: cancelling a job and purging it.
use drsync.Prelude.{
  ℕ, ◌≡◌, refl, Bool, true, List, [], ◌∷◌, some, Bytes, ==_refl, arith, update_where, delete_where,
  count_where,
}
use drsync.Model.States.{JobState, is_terminal}
use drsync.Store.Sweep.{contains_id}
use drsync.Store.Schema.{CountRow, Split, ChunkGroup, LinkGroup, LinkMember, Job, Store}
use drsync.Store.Jobs.{has_job_id, get_job, put_job_state, set_job_state}
use drsync.Store.Purge.{
  delete_job, delete_counts, is_pass_of, shard_within, purge_rows, pass_ids, shard_ids,
}
use drsync.Store.Triggers.{delete_shards}
use drsync.PassCtrl.Seeds.{Env}
use drsync.Api.Actions.{Action, Answer, act, job_action, purge_job}

-- The row that the name finds is the one that is updated.
get_job-update :
    (name : Bytes) (st : JobState) (i : ℕ) (j : Job) (js : List Job)
    → get_job name js ≡ some j
    → has_job_id i j ≡ true
    → get_job name (update_where (has_job_id i) (put_job_state st) js) ≡ some (put_job_state st j)
get_job-update name st i j [] h e = ground (arith, h)
get_job-update name st i j (k ∷ js) h e = ground (arith, h, e, get_job-update name st i j js)

cancelled_row :
    (env : Env) (name : Bytes) (s : Store) (j : Job)
    → get_job name s.jobs ≡ some j
    → (job_action env name Action.cancel s).0 ≡ set_job_state j.id JobState.cancelled s
unfolding job_action act
cancelled_row env name s j h = rw h refl

purge_found :
    (name : Bytes) (s : Store) (j : Job)
    → get_job name s.jobs ≡ some j
    → is_terminal j.state ≡ true
    → purge_job name s ≡ (purge_rows j.id (pass_ids j.id s.passes) s, Answer.done)
unfolding purge_job delete_job
purge_found name s j h t = rw (h, t) refl

get_job-set_job_state :
    (name : Bytes) (s : Store) (j : Job)
    → get_job name s.jobs ≡ some j
    → get_job name (set_job_state j.id JobState.cancelled s).jobs
      ≡ some (put_job_state JobState.cancelled j)
unfolding set_job_state
get_job-set_job_state name s j h =
    get_job-update name JobState.cancelled j.id j s.jobs h (==_refl j.id)

-- A DELETE leaves no row that its WHERE matches.
count_where-deleted :
    {A : Type 0} (w : A → Bool) (xs : List A) → count_where w (delete_where w xs) ≡ 0
count_where-deleted w [] = refl
count_where-deleted w (x ∷ xs) = ground (arith, count_where-deleted w xs)

-- The rows of a job are gone, and those of its passes from each table but delete_groups, which is as it
-- was in `before`.
abbrev pub IsGone : Store → ℕ → List ℕ → Store → Type 0
IsGone before i ids s =
    (count_where (has_job_id i) s.jobs ≡ 0)
    × (count_where (is_pass_of i) s.passes ≡ 0)
    × (count_where (shard_within ids) s.shards.rows ≡ 0)
    × (count_where (λ (c : CountRow). contains_id ids c.pass_id) s.shards.counts ≡ 0)
    × (count_where (λ (g : ChunkGroup). contains_id ids g.pass_id) s.chunk_groups ≡ 0)
    × (count_where (λ (g : LinkGroup). contains_id ids g.pass_id) s.link_groups ≡ 0)
    × (count_where (λ (m : LinkMember). contains_id ids m.pass_id) s.link_members ≡ 0)
    × (count_where (λ (p : Split). contains_id (shard_ids ids before.shards.rows) p.parent_shard_id)
          s.splits
        ≡ 0)
    × (s.delete_groups ≡ before.delete_groups)

purge_rows-IsGone : (i : ℕ) (ids : List ℕ) (s : Store) → IsGone s i ids (purge_rows i ids s)
unfolding purge_rows delete_counts delete_shards
purge_rows-IsGone i ids s = (
  count_where-deleted (has_job_id i) s.jobs,
  count_where-deleted (is_pass_of i) s.passes,
  count_where-deleted (shard_within ids) s.shards.rows,
  count_where-deleted (λ (c : CountRow). contains_id ids c.pass_id) _,
  count_where-deleted (λ (g : ChunkGroup). contains_id ids g.pass_id) s.chunk_groups,
  count_where-deleted (λ (g : LinkGroup). contains_id ids g.pass_id) s.link_groups,
  count_where-deleted (λ (m : LinkMember). contains_id ids m.pass_id) s.link_members,
  count_where-deleted (λ (p : Split). contains_id (shard_ids ids s.shards.rows) p.parent_shard_id)
      s.splits,
  refl,
)

passes-set_job_state :
    (i : ℕ) (st : JobState) (s : Store) → (set_job_state i st s).passes ≡ s.passes
unfolding set_job_state
passes-set_job_state i st s = refl

-- A job that exists, in whatever state it is, can be cancelled and then purged: the purge answers that it
-- is done, and the job's row, its passes, and their shards, splits, counts, chunk groups, hard-link groups
-- and members are gone. The rows of delete_groups all stay.
pub cancel_purges :
    (env : Env) (name : Bytes) (s : Store) (j : Job)
    → get_job name s.jobs ≡ some j
    → ((purge_job name (job_action env name Action.cancel s).0).1 ≡ Answer.done)
      × IsGone s j.id
          (pass_ids j.id s.passes)
          (purge_job name (job_action env name Action.cancel s).0).0
unfolding set_job_state
cancel_purges env name s j h =
    let s1 = set_job_state j.id JobState.cancelled s in
    rw
      (
        cancelled_row env name s j h,
        purge_found name s1 (put_job_state JobState.cancelled j) (get_job-set_job_state name s j h)
            refl,
        passes-set_job_state j.id JobState.cancelled s,
      )
      (refl, purge_rows-IsGone j.id (pass_ids j.id s.passes) s1)
