-- ===== src/Store/Chunks/Keeping.antt =====
-- coordinator/internal/store/store.go, CompleteDataChunk, CompleteFinalizeChunk and AbortChunkGroup: properties
-- of the shard table under the UPDATE of the held row and the insertion of a shard.
use drsync.Prelude.{
  ℕ, ◌≡◌, refl, Bool, [], ◌∷◌, Option, none, some, Bytes, Bool-cases, inl, inr, arith, find_row,
}
use drsync.Store.Schema.{ShardTable, Counters, ChunkGroup, GroupState, Store, Result, ok, err}
use drsync.Store.Triggers.{update_shards}
use drsync.Store.Shards.{NewShard, is_held, insert_shards}
use drsync.Store.Chunks.{
  finish_row, finish_held, is_chunk_group, bump_done, is_assembled, count_chunk, complete_finished,
  complete_data_chunk, put_group_state, complete_finalize_chunk, abort_chunk_group,
}

module _ (P : ShardTable → Type 0)
    (keep : (p : ℕ) (c : NewShard) (t : ShardTable)
      → P t
      → P (insert_shards p 0 (c ∷ []) t).0) where
  finish_held-keeps :
      (i l p : ℕ) (c : Option Counters) (s s' : Store)
      → P (update_shards (is_held i l) finish_row s.shards)
      → finish_held i l p c s ≡ ok s'
      → P s'.shards
  unfolding finish_held
  finish_held-keeps i l p c s s' v e = ground (arith, v)

  count_chunk-keeps :
      (p : ℕ) (rel : Bytes) (fin : NewShard) (s s' : Store) (b : Bool) (o : Option ChunkGroup)
      → P s.shards
      → count_chunk p rel fin s o ≡ ok (s', b)
      → P s'.shards
  count_chunk-keeps p rel fin s s' b none v e = cc
  count_chunk-keeps p rel fin s s' b (some g) v e = elim (Bool-cases (is_assembled (bump_done g))) [
    | inl t ↦ ground (arith, keep p fin s.shards v)
    | inr f ↦ ground arith
  ]

  complete_finished-keeps :
      (p : ℕ) (rel : Bytes) (fin : NewShard) (s' : Store) (b : Bool) (r : Result Store)
      → ((s : Store) → r ≡ ok s → P s.shards)
      → complete_finished p rel fin r ≡ ok (s', b)
      → P s'.shards
  complete_finished-keeps p rel fin s' b (err x) v e = cc
  complete_finished-keeps p rel fin s' b (ok s) v e =
      count_chunk-keeps p rel fin s s' b (find_row (is_chunk_group p rel) s.chunk_groups) (v s refl)
        e

  pub complete_data_chunk-keeps :
      (i l p : ℕ) (rel : Bytes) (fin : NewShard) (c : Option Counters) (s s' : Store) (b : Bool)
      → P (update_shards (is_held i l) finish_row s.shards)
      → complete_data_chunk i l p rel fin c s ≡ ok (s', b)
      → P s'.shards
  unfolding complete_data_chunk
  complete_data_chunk-keeps i l p rel fin c s s' b v e =
      complete_finished-keeps p rel fin s' b (finish_held i l p c s)
        (λ s₁ q. finish_held-keeps i l p c s s₁ v q) e

  put_group_state-keeps :
      (p : ℕ) (rel : Bytes) (st : GroupState) (s' : Store) (r : Result Store)
      → ((s : Store) → r ≡ ok s → P s.shards)
      → put_group_state p rel st r ≡ ok s'
      → P s'.shards
  put_group_state-keeps p rel st s' (err x) v e = cc
  put_group_state-keeps p rel st s' (ok s) v e = ground (arith, v s refl)

  pub complete_finalize_chunk-keeps :
      (i l p : ℕ) (rel : Bytes) (c : Option Counters) (s s' : Store)
      → P (update_shards (is_held i l) finish_row s.shards)
      → complete_finalize_chunk i l p rel c s ≡ ok s'
      → P s'.shards
  unfolding complete_finalize_chunk
  complete_finalize_chunk-keeps i l p rel c s s' v e =
      put_group_state-keeps p rel GroupState.done s' (finish_held i l p c s)
        (λ s₁ q. finish_held-keeps i l p c s s₁ v q) e

  pub abort_chunk_group-keeps :
      (i l p : ℕ) (rel : Bytes) (s s' : Store)
      → P (update_shards (is_held i l) finish_row s.shards)
      → abort_chunk_group i l p rel s ≡ ok s'
      → P s'.shards
  unfolding abort_chunk_group
  abort_chunk_group-keeps i l p rel s s' v e =
      put_group_state-keeps p rel GroupState.aborted s' (finish_held i l p none s)
        (λ s₁ q. finish_held-keeps i l p none s s₁ v q) e
