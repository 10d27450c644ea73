-- ===== src/AgentSrv/Results.antt =====
-- coordinator/internal/agentsrv/server.go: the results of shards and tasks that agents report. The
-- metrics are left out.
pub mod Calls
pub mod Allowed
pub mod Once
use drsync.Prelude.{
  ℕ, Bool, true, false, ◌&&◌, not, List, [], ◌∷◌, Option, none, some, Bytes, bytes_eq,
  if◌then◌else◌, find_row,
}
use drsync.Model.States.{ShardKind}
use drsync.Store.Schema.{Shard, Counters, Store, Error, Result, ok, err}
use drsync.Store.Shards.{NewShard, has_id, complete_shard, requeue_shard, release_shard, park_shard}
use drsync.Store.Chunks.{complete_data_chunk, complete_finalize_chunk, abort_chunk_group}
use drsync.Store.DeleteGroups.{complete_delete_remainder}
use drsync.AgentSrv.Messages.{
  ChunkTask, Status, ShardResult, TaskResult, Codec, Fault, finalize_shard, delete_cleanup_shard,
}

-- What becomes of a result: a transaction, ErrLeaseMismatch, or another error.
pub data Answer : Type 0 where
  written : Store → Answer
  stale : Answer
  failed : Fault → Answer

-- errors.Is(err, store.ErrLeaseMismatch)
abbrev pub refuse : Error → Answer
refuse Error.lease_mismatch = Answer.stale
refuse e = Answer.failed (Fault.stored e)

abbrev pub answer_of : Result Store → Answer
answer_of (ok s) = Answer.written s
answer_of (err e) = refuse e

abbrev pub drop_seeded : Result (Store × Bool) → Result Store
drop_seeded (ok (s, _)) = ok s
drop_seeded (err e) = err e

-- completeChunk
unfoldable pub complete_chunk : Codec → ShardResult → Shard → Store → Option ChunkTask → Answer
complete_chunk c r row s none = Answer.failed Fault.codec
complete_chunk c r row s (some ct) =
    if ct.reclaim
    then answer_of
        (complete_shard r.shard_id r.lease_id row.pass_id (c.marshal_result r) r.counters s)
    else if ct.finalize
    then answer_of
        (complete_finalize_chunk r.shard_id r.lease_id row.pass_id ct.rel_path r.counters s)
    else answer_of (
        drop_seeded (
          complete_data_chunk r.shard_id r.lease_id row.pass_id ct.rel_path
            (finalize_shard c ct.rel_path ct.temp_name ct.gen) r.counters s))

abbrev pub is_one_path : Bytes → Option (List Bytes) → Bool
is_one_path rel (some (p ∷ [])) = bytes_eq p rel
is_one_path rel _ = false

-- isHandoff
unfoldable pub is_handoff : Codec → Shard → Bool
is_handoff c row =
    not (bytes_eq row.rel_path []) && is_one_path row.rel_path (c.unmarshal_batch row.payload)

-- The inner `switch` of RESULT_OK.
unfoldable pub answer_ok : Codec → ShardResult → Store → ShardKind → Shard → Answer
answer_ok c r s ShardKind.chunk row = complete_chunk c r row s (c.unmarshal_chunk row.payload)
answer_ok c r s ShardKind.delete row = answer_of (
    complete_delete_remainder (delete_cleanup_shard c) r.shard_id r.lease_id row.pass_id
      row.rel_path (c.marshal_result r) (not (is_handoff c row))
      (delete_cleanup_shard c row.rel_path) r.deferred_rmdirs r.counters s)
answer_ok c r s other row =
    answer_of (complete_shard r.shard_id r.lease_id row.pass_id (c.marshal_result r) r.counters s)

abbrev pub abort_chunk : ShardResult → Shard → Store → Option ChunkTask → Answer
abort_chunk r row s none = Answer.failed Fault.codec
abort_chunk r row s (some ct) =
    answer_of (abort_chunk_group r.shard_id r.lease_id row.pass_id ct.rel_path s)

-- RESULT_SRC_CHANGED
unfoldable pub answer_changed : Codec → ShardResult → Store → ShardKind → Shard → Answer
answer_changed c r s ShardKind.chunk row = abort_chunk r row s (c.unmarshal_chunk row.payload)
answer_changed c r s other row = answer_of (requeue_shard r.shard_id r.lease_id r.error s)

-- ShardMeta, and the error of a row that is gone.
abbrev pub with_row : Option Shard → (ShardKind → Shard → Answer) → Answer
with_row none next = Answer.failed (Fault.stored Error.no_rows)
with_row (some row) next = next row.kind row

-- The `switch` on the status.
unfoldable pub answer : Codec → ShardResult → Store → Status → Answer
answer c r s Status.ok = with_row (find_row (has_id r.shard_id) s.shards.rows) (answer_ok c r s)
answer c r s Status.src_changed =
    with_row (find_row (has_id r.shard_id) s.shards.rows) (answer_changed c r s)
answer c r s Status.transient = answer_of (requeue_shard r.shard_id r.lease_id r.error s)
answer c r s Status.mount_sick = answer_of (requeue_shard r.shard_id r.lease_id r.error s)
answer c r s Status.released = answer_of (release_shard r.shard_id r.lease_id s)
answer c r s Status.failed = answer_of (park_shard r.shard_id r.lease_id r.error s)

abbrev pub settle : Store → Answer → Store × Option Fault
settle s (Answer.written s') = (s', none)
settle s Answer.stale = (s, none)
settle s (Answer.failed f) = (s, some f)

-- onShardResult
unfoldable pub on_shard_result : Codec → ShardResult → Store → Store × Option Fault
on_shard_result c r s = settle s (answer c r s r.status)

abbrev pub result_of : TaskResult → ShardResult
result_of t = record {
  shard_id = t.task_id;
  lease_id = t.lease_id;
  status = t.status;
  counters = none;
  error = t.error;
  deferred_rmdirs = [];
}

abbrev pub then_results :
    (Store → Store × Option Fault) → Store × Option Fault → Store × Option Fault
then_results more (s, some f) = (s, some f)
then_results more (s, none) = more s

-- onTaskResults
unfoldable pub on_task_results : Codec → List TaskResult → Store → Store × Option Fault
on_task_results c [] s = (s, none)
on_task_results c (t ∷ ts) s =
    then_results (on_task_results c ts) (on_shard_result c (result_of t) s)
