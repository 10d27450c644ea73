-- ===== src/Store/Triggers.antt =====
-- coordinator/internal/store/store.go, `schema`: the triggers on `shards` that write `shard_counts`, and the three
-- statements on `shards` that fire them.
pub mod Exact
pub mod Sums
use drsync.Prelude.{
  ℕ, ◌+◌, ◌-◌, Bool, ◌&&◌, List, [], ◌∷◌, ◌++◌, ◌==◌, if◌then◌else◌, update_where, delete_where,
}
use drsync.Model.States.{ShardState, ShardKind, is_kind, is_shard_state}
use drsync.Store.Schema.{Shard, CountRow, ShardTable}

-- Equality of two values of the primary key (pass_id, kind, state) of `shard_counts`.
unfoldable pub same_key : ℕ → ShardKind → ShardState → ℕ → ShardKind → ShardState → Bool
same_key p k s q l u = (p == q) && (is_kind k l && is_shard_state s u)

abbrev pub has_key : ℕ → ShardKind → ShardState → CountRow → Bool
has_key p k s c = same_key p k s c.pass_id c.kind c.state

abbrev pub shard_has_key : ℕ → ShardKind → ShardState → Shard → Bool
shard_has_key p k s r = same_key p k s r.pass_id r.kind r.state

-- INSERT … ON CONFLICT DO UPDATE SET n = n + 1
unfoldable pub bump : ℕ → ShardKind → ShardState → List CountRow → List CountRow
bump p k s [] = record { pass_id = p; kind = k; state = s; n = 1 } ∷ []
bump p k s (c ∷ cs) =
    let rest = bump p k s cs in if has_key p k s c then record c { n = c.n + 1 } ∷ cs else c ∷ rest

-- UPDATE shard_counts SET n = n - 1 WHERE … the primary key: at most one row. (That the rollup is
-- exact keeps n above 0 here.)
unfoldable pub drop_one : ℕ → ShardKind → ShardState → List CountRow → List CountRow
drop_one p k s [] = []
drop_one p k s (c ∷ cs) =
    let rest = drop_one p k s cs in
    if has_key p k s c then record c { n = c.n - 1 } ∷ cs else c ∷ rest

-- shard_counts_ai
unfoldable pub on_insert : Shard → List CountRow → List CountRow
on_insert r = bump r.pass_id r.kind r.state

-- shard_counts_ad
unfoldable pub on_delete : Shard → List CountRow → List CountRow
on_delete r = drop_one r.pass_id r.kind r.state

-- shard_counts_au, with its WHEN clause
unfoldable pub on_update : Shard → Shard → List CountRow → List CountRow
on_update old new cs =
    if shard_has_key new.pass_id new.kind new.state old
    then cs
    else bump new.pass_id new.kind new.state (drop_one old.pass_id old.kind old.state cs)

unfoldable pub fire_updates :
    (Shard → Bool) → (Shard → Shard) → List Shard → List CountRow → List CountRow
fire_updates p f [] cs = cs
fire_updates p f (r ∷ rs) cs = fire_updates p f rs (if p r then on_update r (f r) cs else cs)

unfoldable pub fire_deletes : (Shard → Bool) → List Shard → List CountRow → List CountRow
fire_deletes p [] cs = cs
fire_deletes p (r ∷ rs) cs = fire_deletes p rs (if p r then on_delete r cs else cs)

-- INSERT INTO shards: the row takes the next id.
unfoldable pub insert_row : Shard → ShardTable → ShardTable
insert_row r t = record t {
  rows = t.rows ++ (record r { id = t.next_id } ∷ []);
  counts = on_insert r t.counts;
  next_id = t.next_id + 1;
}

-- UPDATE shards SET … WHERE …
unfoldable pub update_shards : (Shard → Bool) → (Shard → Shard) → ShardTable → ShardTable
update_shards p f t = record t {
  rows = update_where p f t.rows;
  counts = fire_updates p f t.rows t.counts;
}

-- DELETE FROM shards WHERE …
unfoldable pub delete_shards : (Shard → Bool) → ShardTable → ShardTable
delete_shards p t = record t {
  rows = delete_where p t.rows;
  counts = fire_deletes p t.rows t.counts;
}

-- n of a key, or 0.
unfoldable pub count_of : ℕ → ShardKind → ShardState → List CountRow → ℕ
count_of p k s [] = 0
count_of p k s (c ∷ cs) = let rest = count_of p k s cs in if has_key p k s c then c.n else rest

-- SELECT COALESCE(SUM(n), 0) … WHERE a condition on the key
unfoldable pub sum_where : (ℕ → ShardKind → ShardState → Bool) → List CountRow → ℕ
sum_where g [] = 0
sum_where g (c ∷ cs) =
    let rest = sum_where g cs in if g c.pass_id c.kind c.state then c.n + rest else rest
