-- ===== src/Store/Shards/Insert.antt =====
-- coordinator/internal/store/store.go, InsertShards: the rows it adds.
use drsync.Prelude.{ℕ, refl, List, [], ◌∷◌, arith}
use drsync.Store.Schema.{ShardTable}
use drsync.Store.Triggers.{insert_row, count_of, sum_where}
use drsync.Store.Shards.{NewShard, new_row, insert_shards}
use drsync.Store.Shards.Valid.{IsValid, insert_row-IsValid}

abbrev pub empty_table : ShardTable
empty_table = record { rows = []; counts = []; next_id = 1 }

pub empty-IsValid : IsValid empty_table
unfolding count_of sum_where
empty-IsValid = record {
  exact = λ p k s. refl;
  summed = λ g. refl;
  unique = λ i. omega arith;
  unused = λ i h. refl;
  sound = tt;
}

pub insert_shards-IsValid :
    (p parent : ℕ) (news : List NewShard) (t : ShardTable)
    → IsValid t
    → IsValid (insert_shards p parent news t).0
unfolding insert_shards new_row
insert_shards-IsValid p parent [] t v = v
insert_shards-IsValid p parent (ns ∷ rest) t v =
    insert_shards-IsValid p parent rest (insert_row (new_row p parent ns) t)
      (insert_row-IsValid (new_row p parent ns) t (refl, refl, refl, refl) v)

pub insert_one-IsValid :
    (p : ℕ) (c : NewShard) (t : ShardTable) → IsValid t → IsValid (insert_shards p 0 (c ∷ []) t).0
insert_one-IsValid p c t = insert_shards-IsValid p 0 (c ∷ []) t
