-- ===== src/Store/Sweep/Parked.antt =====
-- coordinator/internal/store/store.go: RetryParkedShard, RetryParkedByJob, DropParkedShard, DropParkedByJob,
-- PruneStaleProbes and ReapDoneShards on the rows.
use drsync.Prelude.{ℕ, ◌≡◌, refl, List, Bytes, arith, count_where, count_where-update_where_zero}
use drsync.Model.States.{ShardKind}
use drsync.Store.Schema.{Shard, Store, ok}
use drsync.Store.Triggers.{update_shards}
use drsync.Store.Shards.Valid.{IsRow, IsValid, update_shards-IsValid, delete_shards-IsValid}
use drsync.Store.Sweep.{
  retry_row, is_parked_id, is_parked_of, retry_parked_shard, retry_parked_by_job, drop_parked_shard,
  drop_parked_by_job, prune_stale_probes, is_stale_probe, reap_done_shards,
}

retry_row-IsRow : (r : Shard) → IsRow r → IsRow (retry_row r)
retry_row-IsRow r v = record {
  leased_held = λ h. ground arith;
  queued_free = λ h. refl;
  known_agent = λ h. absurd (omega arith);
  ranked = v.ranked;
}

pub retry_parked_shard-IsValid :
    (i : ℕ) (s s' : Store) → IsValid s.shards → retry_parked_shard i s ≡ ok s' → IsValid s'.shards
unfolding retry_parked_shard
retry_parked_shard-IsValid i s s' v e = ground (
  arith,
  update_shards-IsValid (is_parked_id i) retry_row s.shards (λ r. refl) (λ r _. retry_row-IsRow r)
      v,
)

pub retry_parked_by_job-IsValid :
    (name : Bytes) (s : Store) → IsValid s.shards → IsValid (retry_parked_by_job name s).0.shards
unfolding retry_parked_by_job
retry_parked_by_job-IsValid name s v =
    update_shards-IsValid (is_parked_of name s) retry_row s.shards (λ r. refl)
      (λ r _. retry_row-IsRow r) v

pub drop_parked_shard-IsValid :
    (i : ℕ) (s s' : Store) → IsValid s.shards → drop_parked_shard i s ≡ ok s' → IsValid s'.shards
unfolding drop_parked_shard
drop_parked_shard-IsValid i s s' v e =
    ground (arith, delete_shards-IsValid (is_parked_id i) s.shards v)

pub drop_parked_by_job-IsValid :
    (name : Bytes) (s : Store) → IsValid s.shards → IsValid (drop_parked_by_job name s).0.shards
unfolding drop_parked_by_job
drop_parked_by_job-IsValid name s v = delete_shards-IsValid (is_parked_of name s) s.shards v

pub prune_stale_probes-IsValid :
    (p : ℕ) (s : Store) → IsValid s.shards → IsValid (prune_stale_probes p s).0.shards
unfolding prune_stale_probes
prune_stale_probes-IsValid p s v = delete_shards-IsValid (is_stale_probe p s.agents) s.shards v

pub reap_done_shards-IsValid :
    (b p : ℕ) (kinds : List ShardKind) (s : Store)
    → IsValid s.shards
    → IsValid (reap_done_shards b p kinds s).0.shards
unfolding reap_done_shards
reap_done_shards-IsValid b p kinds s v = delete_shards-IsValid _ s.shards v

-- After RetryParkedByJob the job has no parked shard.
retry_parked_by_job_none :
    (name : Bytes) (s : Store)
    → count_where (is_parked_of name s) (retry_parked_by_job name s).0.shards.rows ≡ 0
unfolding retry_parked_by_job update_shards
retry_parked_by_job_none name s =
    count_where-update_where_zero (is_parked_of name s) (is_parked_of name s) retry_row
      (λ r h. refl) (λ r h. h) s.shards.rows
