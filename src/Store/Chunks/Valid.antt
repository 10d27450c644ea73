-- ===== src/Store/Chunks/Valid.antt =====
-- coordinator/internal/store/store.go, the calls on chunks: the shard table.
use drsync.Prelude.{ℕ, ◌≡◌, refl, Bool, Option, Bytes, arith}
use drsync.Store.Schema.{Shard, ShardTable, Counters, Store, ok}
use drsync.Store.Triggers.{update_shards}
use drsync.Store.Shards.{NewShard, is_held}
use drsync.Store.Shards.Valid.{IsRow, IsValid, update_shards-IsValid}
use drsync.Store.Shards.Insert.{insert_one-IsValid}
use drsync.Store.Chunks.{
  finish_row, complete_data_chunk, complete_finalize_chunk, abort_chunk_group,
}
use drsync.Store.Chunks.Keeping.{
  complete_data_chunk-keeps, complete_finalize_chunk-keeps, abort_chunk_group-keeps,
}

finish_row-IsRow : (r : Shard) → IsRow r → IsRow (finish_row r)
finish_row-IsRow r v = record {
  leased_held = λ e. absurd (ground arith);
  queued_free = λ e. refl;
  known_agent = v.known_agent;
  ranked = v.ranked;
}

finish_rows-IsValid :
    (i l : ℕ) (t : ShardTable) → IsValid t → IsValid (update_shards (is_held i l) finish_row t)
finish_rows-IsValid i l t v =
    update_shards-IsValid (is_held i l) finish_row t (λ r. refl) (λ r _. finish_row-IsRow r) v

pub complete_data_chunk-IsValid :
    (i l p : ℕ) (rel : Bytes) (fin : NewShard) (c : Option Counters) (s s' : Store) (b : Bool)
    → IsValid s.shards
    → complete_data_chunk i l p rel fin c s ≡ ok (s', b)
    → IsValid s'.shards
complete_data_chunk-IsValid i l p rel fin c s s' b v =
    complete_data_chunk-keeps IsValid insert_one-IsValid i l p rel fin c s s' b
      (finish_rows-IsValid i l s.shards v)

pub complete_finalize_chunk-IsValid :
    (i l p : ℕ) (rel : Bytes) (c : Option Counters) (s s' : Store)
    → IsValid s.shards
    → complete_finalize_chunk i l p rel c s ≡ ok s'
    → IsValid s'.shards
complete_finalize_chunk-IsValid i l p rel c s s' v =
    complete_finalize_chunk-keeps IsValid insert_one-IsValid i l p rel c s s'
      (finish_rows-IsValid i l s.shards v)

pub abort_chunk_group-IsValid :
    (i l p : ℕ) (rel : Bytes) (s s' : Store)
    → IsValid s.shards
    → abort_chunk_group i l p rel s ≡ ok s'
    → IsValid s'.shards
abort_chunk_group-IsValid i l p rel s s' v =
    abort_chunk_group-keeps IsValid insert_one-IsValid i l p rel s s'
      (finish_rows-IsValid i l s.shards v)
