-- ===== src/Store/DeleteGroups/Valid.antt =====
-- coordinator/internal/store/store.go, closeDeleteGroupTx and its callers: the shard table.
use drsync.Prelude.{ℕ, ◌≡◌, refl, Bool, List, Option, Bytes, arith}
use drsync.Store.Schema.{Shard, Counters, DeleteGroup, Store, ok}
use drsync.Store.Shards.{NewShard, is_held}
use drsync.Store.Shards.Valid.{IsRow, IsValid, update_shards-IsValid}
use drsync.Store.Shards.Insert.{insert_one-IsValid}
use drsync.Store.DeleteGroups.{close_if, finish_delete, complete_delete_remainder}
use drsync.Store.DeleteGroups.Closing.{close_if-keeps, complete_delete_remainder-keeps}

pub close_if-IsValid :
    (build : Bytes → NewShard) (p : ℕ) (rel : Bytes) (b : Bool) (c : NewShard) (g : DeleteGroup)
    (s : Store)
    → IsValid s.shards
    → IsValid (close_if build p rel b c g s).shards
close_if-IsValid = close_if-keeps IsValid insert_one-IsValid

finish_delete-IsRow : (res : Option Bytes) (r : Shard) → IsRow r → IsRow (finish_delete res r)
finish_delete-IsRow res r v = record {
  leased_held = λ e. absurd (ground arith);
  queued_free = λ e. absurd (ground arith);
  known_agent = v.known_agent;
  ranked = v.ranked;
}

pub complete_delete_remainder-IsValid :
    (build : Bytes → NewShard) (i l p : ℕ) (rel : Bytes) (res : Option Bytes) (b : Bool)
    (c : NewShard) (ds : List Bytes) (k : Option Counters) (s s' : Store)
    → IsValid s.shards
    → complete_delete_remainder build i l p rel res b c ds k s ≡ ok s'
    → IsValid s'.shards
complete_delete_remainder-IsValid build i l p rel res b c ds k s s' v =
    complete_delete_remainder-keeps IsValid insert_one-IsValid build i l p rel res b c ds k s s' (
      update_shards-IsValid (is_held i l) (finish_delete res) s.shards (λ r. refl)
        (λ r _. finish_delete-IsRow res r) v)
