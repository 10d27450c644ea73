-- ===== src/Store/Purge/References.antt =====
-- coordinator/internal/store/store.go, DeleteJob: the rows that name a job, a pass or a parent shard.
use drsync.Prelude.{
  ℕ, ◌≤◌, ◌≡◌, refl, Bool, false, List, [], ◌∷◌, Option, none, some, Bytes, ◌==◌, arith, All, map,
  select, count_where, delete_where, Bool-cases, inl, inr, eq_of_==, ==_comm,
}
use drsync.Model.States.{is_terminal}
use drsync.Store.Schema.{Shard, Job, Pass, Split, ChunkGroup, LinkGroup, LinkMember, Store}
use drsync.Store.Triggers.{delete_shards}
use drsync.Store.Sweep.{contains_id}
use drsync.Store.Jobs.{has_job_id, get_job}
use drsync.Store.Purge.{
  is_pass_of, pass_ids, shard_within, delete_counts, purge_rows, delete_found, delete_job,
}

abbrev HasJob : List Job → ℕ → Type 0
HasJob jobs i = 1 ≤ count_where (λ (j : Job). i == j.id) jobs

abbrev HasPass : List Pass → ℕ → Type 0
HasPass passes i = 1 ≤ count_where (λ (p : Pass). i == p.id) passes

abbrev HasShard : List Shard → ℕ → Type 0
HasShard rows i = 1 ≤ count_where (λ (r : Shard). i == r.id) rows

-- Every row that names a job, a pass or a parent shard names one that is there. `delete_groups` is not
-- among the tables.
pub record IsReferenced (s : Store) : Type 0 where
  pub passes : All (λ (p : Pass). HasJob s.jobs p.job_id) s.passes
  pub shards : All (λ (r : Shard). HasPass s.passes r.pass_id) s.shards.rows
  pub splits : All (λ (p : Split). HasShard s.shards.rows p.parent_shard_id) s.splits
  pub chunk_groups : All (λ (g : ChunkGroup). HasPass s.passes g.pass_id) s.chunk_groups
  pub link_groups : All (λ (g : LinkGroup). HasPass s.passes g.pass_id) s.link_groups
  pub link_members : All (λ (m : LinkMember). HasPass s.passes m.pass_id) s.link_members

-- The rows that a DELETE leaves satisfy what follows from the WHERE being false.
All-left :
    {A : Type 0} (P Q : A → Type 0) (w : A → Bool)
    → ((x : A) → w x ≡ false → P x → Q x)
    → (xs : List A) → All P xs
    → All Q (delete_where w xs)
All-left P Q w f [] h = tt
All-left P Q w f (x ∷ xs) h = elim (Bool-cases (w x)) [
  | inl y ↦ rw y (All-left P Q w f xs h.1)
  | inr n ↦ rw n (f x n h.0, All-left P Q w f xs h.1)
]

-- A row whose key is not among those of the deleted rows is still there.
count_where-left :
    {A : Type 0} (key : A → ℕ) (w : A → Bool) (q : ℕ) (xs : List A)
    → contains_id (map key (select w xs)) q ≡ false
    → 1 ≤ count_where (λ x. q == key x) xs
    → 1 ≤ count_where (λ x. q == key x) (delete_where w xs)
unfolding contains_id
count_where-left key w q [] h c = c
count_where-left key w q (x ∷ xs) h c =
    ground (arith, ==_comm q (key x), count_where-left key w q xs)

job_left :
    (i : ℕ) (p : Pass) (jobs : List Job)
    → is_pass_of i p ≡ false
    → HasJob jobs p.job_id
    → HasJob (delete_where (has_job_id i) jobs) p.job_id
job_left i p [] n h = h
job_left i p (j ∷ jobs) n h = ground (arith, eq_of_== p.job_id j.id, job_left i p jobs n)

purge_rows-IsReferenced :
    (i : ℕ) (s : Store) → IsReferenced s → IsReferenced (purge_rows i (pass_ids i s.passes) s)
unfolding purge_rows delete_shards delete_counts
purge_rows-IsReferenced i s v =
    let ids = pass_ids i s.passes in
    let left = λ (q : ℕ). count_where-left (λ (p : Pass). p.id) (is_pass_of i) q s.passes in
    record {
      passes = All-left _ _ (is_pass_of i) (λ p. job_left i p s.jobs) s.passes v.passes;
      shards = All-left _ _ (shard_within ids) (λ r. left r.pass_id) s.shards.rows v.shards;
      splits =
          All-left _ _ _
            (λ (p : Split).
              count_where-left (λ (r : Shard). r.id) (shard_within ids) p.parent_shard_id
                s.shards.rows)
            s.splits v.splits;
      chunk_groups =
          All-left _ _ _ (λ (g : ChunkGroup). left g.pass_id) s.chunk_groups v.chunk_groups;
      link_groups = All-left _ _ _ (λ (g : LinkGroup). left g.pass_id) s.link_groups v.link_groups;
      link_members =
          All-left _ _ _ (λ (m : LinkMember). left m.pass_id) s.link_members v.link_members;
    }

delete_found-IsReferenced :
    (s : Store) (o : Option Job) → IsReferenced s → IsReferenced (delete_found s o).0
delete_found-IsReferenced s none v = v
delete_found-IsReferenced s (some j) v = elim (Bool-cases (is_terminal j.state)) [
  | inl y ↦ rw y (purge_rows-IsReferenced j.id s v)
  | inr n ↦ rw n v
]

delete_groups-delete_job :
    (name : Bytes) (s : Store) → (delete_job name s).0.delete_groups ≡ s.delete_groups
unfolding delete_job purge_rows
delete_groups-delete_job name s = by_row (get_job name s.jobs)
  where
    by_row : (o : Option Job) → (delete_found s o).0.delete_groups ≡ s.delete_groups
    by_row none = refl
    by_row (some j) = elim (Bool-cases (is_terminal j.state)) [
      | inl y ↦ rw y refl
      | inr n ↦ rw n refl
    ]

-- DeleteJob keeps the references between six tables: if every pass names a job that is there, every
-- shard, chunk group, hard-link group and link member a pass, and every split a parent shard, this holds
-- after it as well. The rows of delete_groups, which are not among these tables, it all leaves, also those
-- of the passes that it deletes.
pub delete_job-IsReferenced :
    (name : Bytes) (s : Store)
    → IsReferenced s
    → IsReferenced (delete_job name s).0 × ((delete_job name s).0.delete_groups ≡ s.delete_groups)
unfolding delete_job
delete_job-IsReferenced name s v =
    (delete_found-IsReferenced s (get_job name s.jobs) v, delete_groups-delete_job name s)
