-- ===== src/AgentSrv/Results/Allowed.antt =====
-- coordinator/internal/agentsrv/server.go: the answers to a result, by its kind and status, as calls of the store.
use drsync.Prelude.{ℕ, Option, none, some, not, Bool-cases, inl, inr, find_row}
use drsync.Model.States.{ShardKind}
use drsync.Store.Schema.{Shard, Store}
use drsync.Store.Shards.{has_id}
use drsync.AgentSrv.Messages.{
  ChunkTask, Status, ShardResult, Codec, finalize_shard, delete_cleanup_shard,
}
use drsync.AgentSrv.Results.{
  Answer, complete_chunk, is_handoff, answer_ok, abort_chunk, answer_changed, with_row, answer,
}
use drsync.AgentSrv.Results.Calls.{
  Allowed, complete_shard-Allowed, requeue_shard-Allowed, release_shard-Allowed, park_shard-Allowed,
  data_chunk-Allowed, finalize-Allowed, abort-Allowed, remainder-Allowed,
}

complete_chunk-Allowed :
    (c : Codec) (r : ShardResult) (row : Shard) (s : Store) (o : Option ChunkTask)
    → Allowed r.shard_id r.lease_id s (complete_chunk c r row s o)
unfolding complete_chunk
complete_chunk-Allowed c r row s none = tt
complete_chunk-Allowed c r row s (some ct) = elim (Bool-cases ct.reclaim) [
  | inl t ↦
      rw t
        (complete_shard-Allowed r.shard_id r.lease_id row.pass_id (c.marshal_result r) r.counters s)
  | inr f ↦ rw f (elim (Bool-cases ct.finalize) [
    | inl t ↦ rw t (finalize-Allowed r.shard_id r.lease_id row.pass_id ct.rel_path r.counters s)
    | inr g ↦ rw g (
        data_chunk-Allowed r.shard_id r.lease_id row.pass_id ct.rel_path
          (finalize_shard c ct.rel_path ct.temp_name ct.gen) r.counters s)
  ])
]

answer_ok-Allowed :
    (c : Codec) (r : ShardResult) (s : Store) (k : ShardKind) (row : Shard)
    → Allowed r.shard_id r.lease_id s (answer_ok c r s k row)
unfolding answer_ok
answer_ok-Allowed c r s ShardKind.chunk row =
    complete_chunk-Allowed c r row s (c.unmarshal_chunk row.payload)
answer_ok-Allowed c r s ShardKind.delete row =
    remainder-Allowed (delete_cleanup_shard c) r.shard_id r.lease_id row.pass_id row.rel_path
      (c.marshal_result r) (not (is_handoff c row)) (delete_cleanup_shard c row.rel_path)
      r.deferred_rmdirs r.counters s
answer_ok-Allowed c r s ShardKind.dir row =
    complete_shard-Allowed r.shard_id r.lease_id row.pass_id (c.marshal_result r) r.counters s
answer_ok-Allowed c r s ShardKind.entry_list row =
    complete_shard-Allowed r.shard_id r.lease_id row.pass_id (c.marshal_result r) r.counters s
answer_ok-Allowed c r s ShardKind.dirfix row =
    complete_shard-Allowed r.shard_id r.lease_id row.pass_id (c.marshal_result r) r.counters s
answer_ok-Allowed c r s ShardKind.verify row =
    complete_shard-Allowed r.shard_id r.lease_id row.pass_id (c.marshal_result r) r.counters s
answer_ok-Allowed c r s ShardKind.probe row =
    complete_shard-Allowed r.shard_id r.lease_id row.pass_id (c.marshal_result r) r.counters s
answer_ok-Allowed c r s ShardKind.linkfix row =
    complete_shard-Allowed r.shard_id r.lease_id row.pass_id (c.marshal_result r) r.counters s
answer_ok-Allowed c r s ShardKind.reaped row =
    complete_shard-Allowed r.shard_id r.lease_id row.pass_id (c.marshal_result r) r.counters s

abort_chunk-Allowed :
    (r : ShardResult) (row : Shard) (s : Store) (o : Option ChunkTask)
    → Allowed r.shard_id r.lease_id s (abort_chunk r row s o)
abort_chunk-Allowed r row s none = tt
abort_chunk-Allowed r row s (some ct) =
    abort-Allowed r.shard_id r.lease_id row.pass_id ct.rel_path s

answer_changed-Allowed :
    (c : Codec) (r : ShardResult) (s : Store) (k : ShardKind) (row : Shard)
    → Allowed r.shard_id r.lease_id s (answer_changed c r s k row)
unfolding answer_changed
answer_changed-Allowed c r s ShardKind.chunk row =
    abort_chunk-Allowed r row s (c.unmarshal_chunk row.payload)
answer_changed-Allowed c r s ShardKind.dir row =
    requeue_shard-Allowed r.shard_id r.lease_id r.error s
answer_changed-Allowed c r s ShardKind.entry_list row =
    requeue_shard-Allowed r.shard_id r.lease_id r.error s
answer_changed-Allowed c r s ShardKind.dirfix row =
    requeue_shard-Allowed r.shard_id r.lease_id r.error s
answer_changed-Allowed c r s ShardKind.verify row =
    requeue_shard-Allowed r.shard_id r.lease_id r.error s
answer_changed-Allowed c r s ShardKind.delete row =
    requeue_shard-Allowed r.shard_id r.lease_id r.error s
answer_changed-Allowed c r s ShardKind.probe row =
    requeue_shard-Allowed r.shard_id r.lease_id r.error s
answer_changed-Allowed c r s ShardKind.linkfix row =
    requeue_shard-Allowed r.shard_id r.lease_id r.error s
answer_changed-Allowed c r s ShardKind.reaped row =
    requeue_shard-Allowed r.shard_id r.lease_id r.error s

with_row-Allowed :
    (i l : ℕ) (s : Store) (o : Option Shard) (next : ShardKind → Shard → Answer)
    → ((k : ShardKind) (row : Shard) → Allowed i l s (next k row))
    → Allowed i l s (with_row o next)
with_row-Allowed i l s none next f = tt
with_row-Allowed i l s (some row) next f = f row.kind row

pub answer-Allowed :
    (c : Codec) (r : ShardResult) (s : Store) (st : Status)
    → Allowed r.shard_id r.lease_id s (answer c r s st)
unfolding answer
answer-Allowed c r s Status.ok =
    with_row-Allowed r.shard_id r.lease_id s (find_row (has_id r.shard_id) s.shards.rows)
      (answer_ok c r s) (answer_ok-Allowed c r s)
answer-Allowed c r s Status.src_changed =
    with_row-Allowed r.shard_id r.lease_id s (find_row (has_id r.shard_id) s.shards.rows)
      (answer_changed c r s) (answer_changed-Allowed c r s)
answer-Allowed c r s Status.transient = requeue_shard-Allowed r.shard_id r.lease_id r.error s
answer-Allowed c r s Status.mount_sick = requeue_shard-Allowed r.shard_id r.lease_id r.error s
answer-Allowed c r s Status.released = release_shard-Allowed r.shard_id r.lease_id s
answer-Allowed c r s Status.failed = park_shard-Allowed r.shard_id r.lease_id r.error s
