-- ===== src/Store/Shards/Answered.antt =====
-- coordinator/internal/store/store.go: the leases that have been answered.
use drsync.Prelude.{
  ℕ, ◌≡◌, false, List, [], ◌∷◌, Option, Bytes, arith, count_where, count_where-append,
  count_where-update_where_zero,
}
use drsync.Model.States.{ShardState, is_shard_state}
use drsync.Store.Schema.{Shard, ShardTable, Counters, Store, ok}
use drsync.Store.Triggers.{insert_row, update_shards}
use drsync.Store.Shards.{NewShard, new_row, insert_shards, is_held, move_to, shard_transition}

-- No leased row has this id and lease.
abbrev pub IsAnswered : ℕ → ℕ → ShardTable → Type 0
IsAnswered i l t = count_where (is_held i l) t.rows ≡ 0

pub insert_shards-IsAnswered :
    (i l p parent : ℕ) (news : List NewShard) (t : ShardTable)
    → IsAnswered i l t
    → IsAnswered i l (insert_shards p parent news t).0
unfolding insert_shards insert_row new_row
insert_shards-IsAnswered i l p parent [] t v = v
insert_shards-IsAnswered i l p parent (ns ∷ rest) t v =
    insert_shards-IsAnswered i l p parent rest (insert_row (new_row p parent ns) t) (
      ground (
        arith,
        v,
        count_where-append (is_held i l) t.rows
            (record (new_row p parent ns) { id = t.next_id } ∷ []),
      ))

-- An UPDATE of the held rows that takes them out of LEASED.
pub update_shards-IsAnswered :
    (i l : ℕ) (f : Shard → Shard) (t : ShardTable)
    → ((r : Shard) → is_shard_state ShardState.leased (f r).state ≡ false)
    → IsAnswered i l (update_shards (is_held i l) f t)
unfolding update_shards
update_shards-IsAnswered i l f t h =
    count_where-update_where_zero (is_held i l) (is_held i l) f (λ x _. ground (arith, h x))
      (λ x e. e) t.rows

pub shard_transition-IsAnswered :
    (i l : ℕ) (to : ShardState) (res : Option Bytes) (msg : Bytes) (p : ℕ) (c : Option Counters)
    (s s' : Store)
    → is_shard_state ShardState.leased to ≡ false
    → shard_transition i l to res msg p c s ≡ ok s'
    → IsAnswered i l s'.shards
unfolding shard_transition
shard_transition-IsAnswered i l to res msg p c s s' h e =
    ground (arith, update_shards-IsAnswered i l (move_to to res msg) s.shards (λ (r : Shard). h))

pub insert_one-IsAnswered :
    (i l p : ℕ) (c : NewShard) (t : ShardTable)
    → IsAnswered i l t
    → IsAnswered i l (insert_shards p 0 (c ∷ []) t).0
insert_one-IsAnswered i l p c t = insert_shards-IsAnswered i l p 0 (c ∷ []) t
