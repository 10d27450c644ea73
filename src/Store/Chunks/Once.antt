-- ===== src/Store/Chunks/Once.antt =====
-- coordinator/internal/store/store.go, CompleteDataChunk: when the finalize shard is seeded.
use drsync.Prelude.{ℕ, Bool, bytes_eq, ◌==◌, ◌&&◌}
use drsync.Model.States.{is_kind}
use drsync.Store.Schema.{Shard, Store}
use drsync.Store.Shards.{NewShard}

-- The shards of the pass of the finalize shard's kind and path.
abbrev pub is_like : ℕ → NewShard → Shard → Bool
is_like p fin r = (r.pass_id == p) && (is_kind r.kind fin.kind && bytes_eq r.rel_path fin.rel_path)
