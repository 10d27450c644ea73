-- ===== src/Store/Triggers/Sums.antt =====
-- coordinator/internal/store/store.go, `schema`: sums over the rollup `shard_counts`.
use drsync.Prelude.{
  ℕ, ◌+◌, ◌≤◌, ◌≡◌, refl, Bool, true, ◌&&◌, List, [], ◌∷◌, ◌==◌, to_nat, arith, count_where,
  count_where-append, update_where, delete_where, Bool-cases, eq_of_==, &&_true, inl, inr,
}
use drsync.Model.States.{
  ShardState, ShardKind, is_kind, is_shard_state, eq_of_kind_code, eq_of_shard_state_code,
}
use drsync.Store.Schema.{Shard, CountRow, ShardTable}
use drsync.Store.Triggers.{
  same_key, has_key, bump, drop_one, on_insert, on_delete, on_update, fire_updates, fire_deletes,
  insert_row, update_shards, delete_shards, count_of, sum_where,
}
use drsync.Store.Triggers.Exact.{IsExact, Covers, Covers-head, Covers-tail, count_of-on_delete}

abbrev Condition : Type 0
Condition = ℕ → ShardKind → ShardState → Bool

-- A condition gives keys that agree the same value.
congr :
    (g : Condition) (p : ℕ) (k : ShardKind) (s : ShardState) (q : ℕ) (l : ShardKind)
    (u : ShardState)
    → same_key p k s q l u ≡ true
    → g p k s ≡ g q l u
unfolding same_key
congr g p k s q l u h =
    let (a, bc) = &&_true (p == q) (is_kind k l && is_shard_state s u) h in
    let (b, d) = &&_true (is_kind k l) (is_shard_state s u) bc in
    rw (
      eq_of_== p q a,
      eq_of_kind_code k l (eq_of_== _ _ b),
      eq_of_shard_state_code s u (eq_of_== _ _ d),
    )

sum_where-bump :
    (g : Condition) (q : ℕ) (l : ShardKind) (u : ShardState) (cs : List CountRow)
    → sum_where g (bump q l u cs) ≡ to_nat (g q l u) + sum_where g cs
unfolding sum_where bump
sum_where-bump g q l u [] = ground arith
sum_where-bump g q l u (c ∷ cs) = elim (Bool-cases (has_key q l u c)) [
  | inl hit ↦ rw hit (ground (arith, congr g q l u c.pass_id c.kind c.state))
  | inr miss ↦ rw miss (ground (arith, sum_where-bump g q l u cs))
]

sum_where-drop_one :
    (g : Condition) (q : ℕ) (l : ShardKind) (u : ShardState) (cs : List CountRow)
    → 1 ≤ count_of q l u cs
    → sum_where g (drop_one q l u cs) + to_nat (g q l u) ≡ sum_where g cs
unfolding sum_where drop_one count_of
sum_where-drop_one g q l u [] h = absurd (omega arith)
sum_where-drop_one g q l u (c ∷ cs) h = elim (Bool-cases (has_key q l u c)) [
  | inl hit ↦ rw hit (ground (arith, congr g q l u c.pass_id c.kind c.state))
  | inr miss ↦ rw miss (ground (arith, sum_where-drop_one g q l u cs))
]

-- The number of rows whose key meets the condition.
abbrev pub rows_where : Condition → List Shard → ℕ
rows_where g = count_where (λ r. g r.pass_id r.kind r.state)

sum_where-on_update :
    (g : Condition) (old new : Shard) (cs : List CountRow)
    → 1 ≤ count_of old.pass_id old.kind old.state cs
    → sum_where g (on_update old new cs) + to_nat (g old.pass_id old.kind old.state)
      ≡ sum_where g cs + to_nat (g new.pass_id new.kind new.state)
unfolding on_update
sum_where-on_update g old new cs h = ground (
  arith,
  congr g new.pass_id new.kind new.state old.pass_id old.kind old.state,
  sum_where-bump g new.pass_id new.kind new.state (drop_one old.pass_id old.kind old.state cs),
  sum_where-drop_one g old.pass_id old.kind old.state cs,
)

sum_where-fire_updates :
    (g : Condition) (w : Shard → Bool) (f : Shard → Shard) (rs : List Shard) (cs : List CountRow)
    → Covers cs rs
    → sum_where g (fire_updates w f rs cs) + rows_where g rs
      ≡ sum_where g cs + rows_where g (update_where w f rs)
unfolding fire_updates
sum_where-fire_updates g w f [] cs h = refl
sum_where-fire_updates g w f (r ∷ rs) cs h = elim (Bool-cases (w r)) [
  | inl hit ↦ rw hit (
      omega (
        arith,
        sum_where-on_update g r (f r) cs (Covers-head r rs cs h),
        sum_where-fire_updates g w f rs (on_update r (f r) cs) (Covers-tail r rs (f r) cs h),
      ))
  | inr miss ↦
      rw miss (omega (arith, sum_where-fire_updates g w f rs cs (λ q l u. omega (arith, h q l u))))
]

sum_where-fire_deletes :
    (g : Condition) (w : Shard → Bool) (rs : List Shard) (cs : List CountRow)
    → Covers cs rs
    → sum_where g (fire_deletes w rs cs) + rows_where g rs
      ≡ sum_where g cs + rows_where g (delete_where w rs)
unfolding fire_deletes on_delete
sum_where-fire_deletes g w [] cs h = refl
sum_where-fire_deletes g w (r ∷ rs) cs h = elim (Bool-cases (w r)) [
  | inl hit ↦ rw hit (
      omega (
        arith,
        sum_where-drop_one g r.pass_id r.kind r.state cs (Covers-head r rs cs h),
        sum_where-fire_deletes g w rs (on_delete r cs)
            (λ q l u. omega (arith, h q l u, count_of-on_delete q l u r cs)),
      ))
  | inr miss ↦
      rw miss (omega (arith, sum_where-fire_deletes g w rs cs (λ q l u. omega (arith, h q l u))))
]

abbrev pub IsSummed : ShardTable → Type 0
IsSummed t = (g : Condition) → sum_where g t.counts ≡ rows_where g t.rows

pub insert_row-IsSummed : (r : Shard) (t : ShardTable) → IsSummed t → IsSummed (insert_row r t)
unfolding insert_row on_insert
insert_row-IsSummed r t h g = omega (
  arith,
  h g,
  sum_where-bump g r.pass_id r.kind r.state t.counts,
  count_where-append (λ (x : Shard). g x.pass_id x.kind x.state) t.rows
      (record r { id = t.next_id } ∷ []),
)

pub update_shards-IsSummed :
    (w : Shard → Bool) (f : Shard → Shard) (t : ShardTable)
    → IsExact t
    → IsSummed t
    → IsSummed (update_shards w f t)
unfolding update_shards
update_shards-IsSummed w f t e h g =
    omega
      (arith, h g, sum_where-fire_updates g w f t.rows t.counts (λ q l u. omega (arith, e q l u)))

pub delete_shards-IsSummed :
    (w : Shard → Bool) (t : ShardTable) → IsExact t → IsSummed t → IsSummed (delete_shards w t)
unfolding delete_shards
delete_shards-IsSummed w t e h g =
    omega (arith, h g, sum_where-fire_deletes g w t.rows t.counts (λ q l u. omega (arith, e q l u)))
