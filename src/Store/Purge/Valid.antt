-- ===== src/Store/Purge/Valid.antt =====
-- coordinator/internal/store/store.go, DeleteJob: the shard table and the rollup.
use drsync.Prelude.{
  ℕ, ◌≡◌, refl, sym, ◌∙◌, Bool, true, false, not, ◌&&◌, List, [], ◌∷◌, Option, none, some, Bytes,
  arith, All, delete_where, Bool-cases, inl, inr, eq_of_==,
}
use drsync.Model.States.{ShardState, ShardKind, is_terminal}
use drsync.Store.Schema.{Shard, CountRow, Job, ShardTable, Store}
use drsync.Store.Triggers.{same_key, delete_shards, count_of, sum_where}
use drsync.Store.Triggers.Exact.{row_count}
use drsync.Store.Triggers.Sums.{rows_where}
use drsync.Store.Sweep.{contains_id}
use drsync.Store.Shards.Valid.{IsValid, delete_shards-IsValid}
use drsync.Store.Jobs.{get_job}
use drsync.Store.Purge.{shard_within, delete_counts, pass_ids, purge_rows, delete_found, delete_job}

-- The part of a condition that lies outside some passes.
abbrev outside : List ℕ → (ℕ → ShardKind → ShardState → Bool) → ℕ → ShardKind → ShardState → Bool
outside ids g p k s = not (contains_id ids p) && g p k s

sum_where-delete_counts :
    (ids : List ℕ) (g : ℕ → ShardKind → ShardState → Bool) (cs : List CountRow)
    → sum_where g (delete_where (λ (c : CountRow). contains_id ids c.pass_id) cs)
      ≡ sum_where (outside ids g) cs
unfolding sum_where
sum_where-delete_counts ids g [] = refl
sum_where-delete_counts ids g (c ∷ cs) = ground (arith, sum_where-delete_counts ids g cs)

rows_where-outside :
    (ids : List ℕ) (g : ℕ → ShardKind → ShardState → Bool) (rs : List Shard)
    → All (λ r. shard_within ids r ≡ false) rs
    → rows_where (outside ids g) rs ≡ rows_where g rs
rows_where-outside ids g [] h = refl
rows_where-outside ids g (r ∷ rs) h = ground (arith, h.0, rows_where-outside ids g rs h.1)

-- A key outside the passes keeps its count.
count_of-kept :
    (ids : List ℕ) (p : ℕ) (k : ShardKind) (s : ShardState)
    → contains_id ids p ≡ false
    → (cs : List CountRow)
    → count_of p k s (delete_where (λ (c : CountRow). contains_id ids c.pass_id) cs)
      ≡ count_of p k s cs
unfolding count_of same_key
count_of-kept ids p k s h [] = refl
count_of-kept ids p k s h (c ∷ cs) =
    ground (arith, eq_of_== p c.pass_id, count_of-kept ids p k s h cs)

count_of-gone :
    (ids : List ℕ) (p : ℕ) (k : ShardKind) (s : ShardState)
    → contains_id ids p ≡ true
    → (cs : List CountRow)
    → count_of p k s (delete_where (λ (c : CountRow). contains_id ids c.pass_id) cs) ≡ 0
unfolding count_of same_key
count_of-gone ids p k s h [] = refl
count_of-gone ids p k s h (c ∷ cs) =
    ground (arith, eq_of_== p c.pass_id, count_of-gone ids p k s h cs)

row_count-gone :
    (ids : List ℕ) (p : ℕ) (k : ShardKind) (s : ShardState)
    → contains_id ids p ≡ true
    → (rs : List Shard) → All (λ r. shard_within ids r ≡ false) rs
    → row_count p k s rs ≡ 0
unfolding same_key
row_count-gone ids p k s h [] a = refl
row_count-gone ids p k s h (r ∷ rs) a =
    ground (arith, eq_of_== p r.pass_id, a.0, row_count-gone ids p k s h rs a.1)

delete_counts-IsValid :
    (ids : List ℕ) (t : ShardTable)
    → All (λ r. shard_within ids r ≡ false) t.rows
    → IsValid t
    → IsValid (delete_counts ids t)
unfolding delete_counts
delete_counts-IsValid ids t a v = record {
  exact = λ p k s. elim (Bool-cases (contains_id ids p)) [
    | inl y ↦ count_of-gone ids p k s y t.counts ∙ sym (row_count-gone ids p k s y t.rows a)
    | inr n ↦ count_of-kept ids p k s n t.counts ∙ v.exact p k s
  ];
  summed = λ g.
      sum_where-delete_counts ids g t.counts
      ∙ (v.summed (outside ids g) ∙ rows_where-outside ids g t.rows a);
  unique = v.unique;
  unused = v.unused;
  sound = v.sound;
}

-- After the DELETE of the shards of some passes none of them is left.
none_within :
    (ids : List ℕ) (rs : List Shard)
    → All (λ r. shard_within ids r ≡ false) (delete_where (shard_within ids) rs)
none_within ids [] = tt
none_within ids (r ∷ rs) = ground (arith, none_within ids rs)

purge_rows-IsValid :
    (i : ℕ) (ids : List ℕ) (s : Store) → IsValid s.shards → IsValid (purge_rows i ids s).shards
unfolding purge_rows delete_shards
purge_rows-IsValid i ids s v =
    delete_counts-IsValid ids (delete_shards (shard_within ids) s.shards)
      (none_within ids s.shards.rows) (delete_shards-IsValid (shard_within ids) s.shards v)

delete_found-IsValid :
    (s : Store) (o : Option Job) → IsValid s.shards → IsValid (delete_found s o).0.shards
delete_found-IsValid s none v = v
delete_found-IsValid s (some j) v = elim (Bool-cases (is_terminal j.state)) [
  | inl y ↦ rw y (purge_rows-IsValid j.id (pass_ids j.id s.passes) s v)
  | inr n ↦ rw n v
]

pub delete_job-IsValid :
    (name : Bytes) (s : Store) → IsValid s.shards → IsValid (delete_job name s).0.shards
unfolding delete_job
delete_job-IsValid name s v = delete_found-IsValid s (get_job name s.jobs) v
