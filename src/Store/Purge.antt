-- ===== src/Store/Purge.antt =====
-- coordinator/internal/store/store.go, DeleteJob: the statements of its transaction. The journal's two tables are outside
-- the model, and so is the VACUUM after a large purge.
pub mod References
pub mod Valid
use drsync.Prelude.{
  ℕ, Bool, List, [], ◌∷◌, Option, none, some, Bytes, ◌==◌, if◌then◌else◌, map, select, delete_where,
}
use drsync.Model.States.{is_terminal}
use drsync.Store.Schema.{
  Shard, CountRow, Job, Pass, Split, ChunkGroup, LinkGroup, LinkMember, ShardTable, Store, Error,
  Result, ok, err,
}
use drsync.Store.Triggers.{delete_shards}
use drsync.Store.Sweep.{contains_id}
use drsync.Store.Jobs.{has_job_id, get_job}

abbrev pub is_pass_of : ℕ → Pass → Bool
is_pass_of i p = i == p.job_id

-- passSel: SELECT id FROM passes WHERE job_id = ?
abbrev pub pass_ids : ℕ → List Pass → List ℕ
pass_ids i passes = map (λ (p : Pass). p.id) (select (is_pass_of i) passes)

abbrev pub shard_within : List ℕ → Shard → Bool
shard_within ids r = contains_id ids r.pass_id

-- SELECT id FROM shards WHERE pass_id IN (…)
abbrev pub shard_ids : List ℕ → List Shard → List ℕ
shard_ids ids rows = map (λ (r : Shard). r.id) (select (shard_within ids) rows)

-- DELETE FROM shard_counts WHERE pass_id IN (…)
unfoldable pub delete_counts : List ℕ → ShardTable → ShardTable
delete_counts ids t = record t {
  counts = delete_where (λ (c : CountRow). contains_id ids c.pass_id) t.counts;
}

-- The statements of the transaction, given the ids of the job's passes.
unfoldable pub purge_rows : ℕ → List ℕ → Store → Store
purge_rows i ids s = record s {
  splits =
      delete_where (λ (p : Split). contains_id (shard_ids ids s.shards.rows) p.parent_shard_id)
        s.splits;
  shards = delete_counts ids (delete_shards (shard_within ids) s.shards);
  chunk_groups = delete_where (λ (g : ChunkGroup). contains_id ids g.pass_id) s.chunk_groups;
  link_members = delete_where (λ (m : LinkMember). contains_id ids m.pass_id) s.link_members;
  link_groups = delete_where (λ (g : LinkGroup). contains_id ids g.pass_id) s.link_groups;
  passes = delete_where (is_pass_of i) s.passes;
  jobs = delete_where (has_job_id i) s.jobs;
}

-- DeleteJob from the row of the job on.
abbrev pub delete_found : Store → Option Job → Store × Result ℕ
delete_found s none = (s, err Error.no_rows)
delete_found s (some j) =
    if is_terminal j.state
    then (purge_rows j.id (pass_ids j.id s.passes) s, ok j.id)
    else (s, err Error.job_active)

-- DeleteJob
unfoldable pub delete_job : Bytes → Store → Store × Result ℕ
delete_job name s = delete_found s (get_job name s.jobs)
