-- ===== src/Store/Reachable.antt =====
-- coordinator/internal/store/store.go: the writes of the store to shards as the steps of one relation.
use drsync.Prelude.{ℕ, ◌≡◌, sym, subst, Bool, List, Option, Bytes, ◌≢◌}
use drsync.Model.States.{ShardState, ShardKind}
use drsync.Store.Schema.{Counters, Store, ok}
use drsync.Store.Shards.{NewShard, insert_shards, shard_transition}
use drsync.Store.Shards.Valid.{IsValid}
use drsync.Store.Shards.Insert.{empty_table, empty-IsValid, insert_shards-IsValid}
use drsync.Store.Shards.Transitions.{shard_transition-IsValid}
use drsync.Store.Lease.{lease_shards}
use drsync.Store.Lease.Valid.{lease_shards-IsValid}
use drsync.Store.Sweep.{
  renew_leases, expire_leases, retry_parked_shard, retry_parked_by_job, drop_parked_shard,
  drop_parked_by_job, prune_stale_probes, reap_done_shards,
}
use drsync.Store.Sweep.Expiry.{renew_leases-IsValid, expire_leases-IsValid}
use drsync.Store.Sweep.Parked.{
  retry_parked_shard-IsValid, retry_parked_by_job-IsValid, drop_parked_shard-IsValid,
  drop_parked_by_job-IsValid, prune_stale_probes-IsValid, reap_done_shards-IsValid,
}
use drsync.Store.Splits.{SplitWork, record_split}
use drsync.Store.Splits.Valid.{record_split-IsValid}
use drsync.Store.Chunks.{complete_data_chunk, complete_finalize_chunk, abort_chunk_group}
use drsync.Store.Chunks.Valid.{
  complete_data_chunk-IsValid, complete_finalize_chunk-IsValid, abort_chunk_group-IsValid,
}
use drsync.Store.Purge.{delete_job}
use drsync.Store.Purge.Valid.{delete_job-IsValid}
use drsync.Store.DeleteGroups.{complete_delete_remainder}
use drsync.Store.DeleteGroups.Valid.{complete_delete_remainder-IsValid}

-- One call that succeeds. `elsewhere` is any call that writes to other tables alone; shardTransition is
-- called with DONE, QUEUED and PARKED.
pub data Step : Store → Store → Type 0 where
  insert :
      {s : Store} (p parent : ℕ) (news : List NewShard)
      → Step s (record s { shards = (insert_shards p parent news s.shards).0 })
  transition :
      {s s' : Store} (i l : ℕ) (to : ShardState) (res : Option Bytes) (msg : Bytes) (p : ℕ)
      (c : Option Counters)
      → to ≢ ShardState.leased
      → shard_transition i l to res msg p c s ≡ ok s'
      → Step s s'
  lease : {s : Store} (a : Bytes) (n e : ℕ) (new : ℕ → ℕ) → Step s (lease_shards a n e new s).0
  renew : {s : Store} (a : Bytes) (ids : List ℕ) (e : ℕ) → Step s (renew_leases a ids e s).0
  expire : {s : Store} (ms : ℕ) (ceiling : Bytes) → Step s (expire_leases ms ceiling s).0
  retry_one : {s s' : Store} (i : ℕ) → retry_parked_shard i s ≡ ok s' → Step s s'
  retry_job : {s : Store} (name : Bytes) → Step s (retry_parked_by_job name s).0
  drop_one : {s s' : Store} (i : ℕ) → drop_parked_shard i s ≡ ok s' → Step s s'
  drop_job : {s : Store} (name : Bytes) → Step s (drop_parked_by_job name s).0
  prune : {s : Store} (p : ℕ) → Step s (prune_stale_probes p s).0
  reap : {s : Store} (b p : ℕ) (kinds : List ShardKind) → Step s (reap_done_shards b p kinds s).0
  split :
      {s : Store} (build : Bytes → NewShard) (parent seq : ℕ) (w : SplitWork)
      → Step s (record_split build parent seq w s).0
  chunk :
      {s s' : Store} (i l p : ℕ) (rel : Bytes) (fin : NewShard) (c : Option Counters) (b : Bool)
      → complete_data_chunk i l p rel fin c s ≡ ok (s', b)
      → Step s s'
  finalize :
      {s s' : Store} (i l p : ℕ) (rel : Bytes) (c : Option Counters)
      → complete_finalize_chunk i l p rel c s ≡ ok s'
      → Step s s'
  abort :
      {s s' : Store} (i l p : ℕ) (rel : Bytes) → abort_chunk_group i l p rel s ≡ ok s' → Step s s'
  remainder :
      {s s' : Store} (build : Bytes → NewShard) (i l p : ℕ) (rel : Bytes) (res : Option Bytes)
      (b : Bool) (c : NewShard) (ds : List Bytes) (k : Option Counters)
      → complete_delete_remainder build i l p rel res b c ds k s ≡ ok s'
      → Step s s'
  purge : {s : Store} (name : Bytes) → Step s (delete_job name s).0
  elsewhere : {s s' : Store} → s'.shards ≡ s.shards → Step s s'

-- What a store comes to be from an empty table of shards.
pub data Reachable : Store → Type 0 where
  start : {s : Store} → s.shards ≡ empty_table → Reachable s
  next : {s s' : Store} → Reachable s → Step s s' → Reachable s'

Step-IsValid : {s s' : Store} → Step s s' → IsValid s.shards → IsValid s'.shards
Step-IsValid {s} (Step.insert p parent news) v = insert_shards-IsValid p parent news s.shards v
Step-IsValid {s} {s'} (Step.transition i l to res msg p c h e) v =
    shard_transition-IsValid i l to res msg p c s s' h v e
Step-IsValid {s} (Step.lease a n e new) v = lease_shards-IsValid a n e new s v
Step-IsValid {s} (Step.renew a ids e) v = renew_leases-IsValid a ids e s v
Step-IsValid {s} (Step.expire ms ceiling) v = expire_leases-IsValid ms ceiling s v
Step-IsValid {s} {s'} (Step.retry_one i e) v = retry_parked_shard-IsValid i s s' v e
Step-IsValid {s} (Step.retry_job name) v = retry_parked_by_job-IsValid name s v
Step-IsValid {s} {s'} (Step.drop_one i e) v = drop_parked_shard-IsValid i s s' v e
Step-IsValid {s} (Step.drop_job name) v = drop_parked_by_job-IsValid name s v
Step-IsValid {s} (Step.prune p) v = prune_stale_probes-IsValid p s v
Step-IsValid {s} (Step.reap b p kinds) v = reap_done_shards-IsValid b p kinds s v
Step-IsValid {s} (Step.split build parent seq w) v = record_split-IsValid build parent seq w s v
Step-IsValid {s} {s'} (Step.chunk i l p rel fin c b e) v =
    complete_data_chunk-IsValid i l p rel fin c s s' b v e
Step-IsValid {s} {s'} (Step.finalize i l p rel c e) v =
    complete_finalize_chunk-IsValid i l p rel c s s' v e
Step-IsValid {s} {s'} (Step.abort i l p rel e) v = abort_chunk_group-IsValid i l p rel s s' v e
Step-IsValid {s} {s'} (Step.remainder build i l p rel res b c ds k e) v =
    complete_delete_remainder-IsValid build i l p rel res b c ds k s s' v e
Step-IsValid {s} (Step.purge name) v = delete_job-IsValid name s v
Step-IsValid (Step.elsewhere e) v = subst IsValid (sym e) v

-- However the store's calls follow each other, the shard table stays valid: the rollup of the triggers
-- is the exact count of the rows of each pass, kind and state, no id occurs twice or is handed out
-- again, a leased shard names its lease, agent and expiry, and a queued one has no lease.
pub Reachable-IsValid : (s : Store) → Reachable s → IsValid s.shards
Reachable-IsValid s (Reachable.start e) = subst IsValid (sym e) empty-IsValid
Reachable-IsValid s (Reachable.next {s = before} r st) =
    Step-IsValid st (Reachable-IsValid before r)
