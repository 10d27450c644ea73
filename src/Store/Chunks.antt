-- ===== src/Store/Chunks.antt =====
-- coordinator/internal/store/store.go: the chunks of one large file, CompleteDataChunk,
-- CompleteFinalizeChunk and AbortChunkGroup.
pub mod Once
pub mod Keeping
pub mod Valid
use drsync.Prelude.{
  ℕ, suc, ◌+◌, Bool, true, false, ◌&&◌, not, List, [], ◌∷◌, Option, none, some, Bytes, bytes_eq,
  ◌==◌, leb, if◌then◌else◌, find_row, count_where, update_where,
}
use drsync.Model.States.{ShardState}
use drsync.Store.Schema.{Shard, Counters, ChunkGroup, GroupState, Store, Error, Result, ok, err}
use drsync.Store.Triggers.{update_shards}
use drsync.Store.Shards.{NewShard, insert_shards, is_held, accumulate}

-- SET state = 'DONE', lease_id = NULL
abbrev pub finish_row : Shard → Shard
finish_row r = record r { state = ShardState.done; lease_id = none }

-- The UPDATE and the counters with which each of the three calls begins.
unfoldable pub finish_held : ℕ → ℕ → ℕ → Option Counters → Store → Result Store
finish_held shard_id lease_id pass_id counters s =
    if count_where (is_held shard_id lease_id) s.shards.rows == 0
    then err Error.lease_mismatch
    else ok (record s {
      shards = update_shards (is_held shard_id lease_id) finish_row s.shards;
      passes = accumulate pass_id counters s.passes;
    })

abbrev pub is_chunk_group : ℕ → Bytes → ChunkGroup → Bool
is_chunk_group pass_id rel_path g = (g.pass_id == pass_id) && bytes_eq g.rel_path rel_path

abbrev pub bump_done : ChunkGroup → ChunkGroup
bump_done g = record g { n_done = suc g.n_done }

abbrev pub is_copying : GroupState → Bool
is_copying GroupState.copying = true
is_copying _ = false

-- Not (state != "copying" || nDone < nChunks), of the row that the UPDATE returns.
abbrev pub is_assembled : ChunkGroup → Bool
is_assembled g = is_copying g.state && leb g.n_chunks g.n_done

-- UPDATE chunk_groups SET n_done = n_done + 1 … RETURNING, and the finalize shard.
abbrev pub count_chunk : ℕ → Bytes → NewShard → Store → Option ChunkGroup → Result (Store × Bool)
count_chunk pass_id rel_path finalize s none = err Error.no_rows
count_chunk pass_id rel_path finalize s (some g) =
    let counted = record s {
      chunk_groups = update_where (is_chunk_group pass_id rel_path) bump_done s.chunk_groups;
    } in
    if is_assembled (bump_done g)
    then ok (record counted { shards = (insert_shards pass_id 0 (finalize ∷ []) s.shards).0 }, true)
    else ok (counted, false)

abbrev pub complete_finished : ℕ → Bytes → NewShard → Result Store → Result (Store × Bool)
complete_finished pass_id rel_path finalize (err e) = err e
complete_finished pass_id rel_path finalize (ok s) =
    count_chunk pass_id rel_path finalize s
      (find_row (is_chunk_group pass_id rel_path) s.chunk_groups)

-- CompleteDataChunk
unfoldable pub complete_data_chunk :
    ℕ → ℕ → ℕ → Bytes → NewShard → Option Counters → Store → Result (Store × Bool)
complete_data_chunk shard_id lease_id pass_id rel_path finalize counters s =
    complete_finished pass_id rel_path finalize (finish_held shard_id lease_id pass_id counters s)

abbrev pub put_group_state : ℕ → Bytes → GroupState → Result Store → Result Store
put_group_state pass_id rel_path st (err e) = err e
put_group_state pass_id rel_path st (ok s) = ok (record s {
  chunk_groups =
      update_where (is_chunk_group pass_id rel_path) (λ g. record g { state = st }) s.chunk_groups;
})

-- CompleteFinalizeChunk
unfoldable pub complete_finalize_chunk : ℕ → ℕ → ℕ → Bytes → Option Counters → Store → Result Store
complete_finalize_chunk shard_id lease_id pass_id rel_path counters s =
    put_group_state pass_id rel_path GroupState.done
      (finish_held shard_id lease_id pass_id counters s)

-- AbortChunkGroup
unfoldable pub abort_chunk_group : ℕ → ℕ → ℕ → Bytes → Store → Result Store
abort_chunk_group shard_id lease_id pass_id rel_path s =
    put_group_state pass_id rel_path GroupState.aborted
      (finish_held shard_id lease_id pass_id none s)

-- Data chunks of one group completed one after the other, by shard and lease: the store, and how many
-- finalize shards were seeded. It is none when one of the calls is refused.
abbrev pub add_seeded : Bool → Option (Store × ℕ) → Option (Store × ℕ)
add_seeded seeded none = none
add_seeded true (some (s, k)) = some (s, suc k)
add_seeded false (some (s, k)) = some (s, k)

abbrev pub then_chunks : (Store → Option (Store × ℕ)) → Result (Store × Bool) → Option (Store × ℕ)
then_chunks more (err e) = none
then_chunks more (ok (s, seeded)) = add_seeded seeded (more s)

unfoldable pub complete_chunks : ℕ → Bytes → NewShard → List (ℕ × ℕ) → Store → Option (Store × ℕ)
complete_chunks pass_id rel_path finalize [] s = some (s, 0)
complete_chunks pass_id rel_path finalize (e ∷ es) s =
    then_chunks (complete_chunks pass_id rel_path finalize es)
      (complete_data_chunk e.0 e.1 pass_id rel_path finalize none s)
