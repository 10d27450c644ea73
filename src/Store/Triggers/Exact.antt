-- ===== src/Store/Triggers/Exact.antt =====
-- coordinator/internal/store/store.go, `schema`: the rollup `shard_counts` key by key.
use drsync.Prelude.{
  ℕ, ◌+◌, ◌-◌, ◌≤◌, ◌≡◌, refl, Bool, true, ◌&&◌, List, [], ◌∷◌, ◌==◌, to_nat, arith, count_where,
  count_where-append, update_where, delete_where, Bool-cases, eq_of_==, ==_refl, ==_comm, &&_true,
  inl, inr,
}
use mathlib.Core.Path.{ap₂}
use drsync.Model.States.{
  ShardState, ShardKind, is_kind, is_shard_state, kind_code, shard_state_code,
}
use drsync.Store.Schema.{Shard, CountRow, ShardTable}
use drsync.Store.Triggers.{
  same_key, has_key, shard_has_key, bump, drop_one, on_insert, on_delete, on_update, fire_updates,
  fire_deletes, insert_row, update_shards, delete_shards, count_of,
}

same_key_refl : (p : ℕ) (k : ShardKind) (s : ShardState) → same_key p k s p k s ≡ true
unfolding same_key
same_key_refl p k s = rw (==_refl p, ==_refl (kind_code k), ==_refl (shard_state_code s))

-- Keys that agree are compared alike.
same_key-eq :
    (p : ℕ) (k : ShardKind) (s : ShardState) (q : ℕ) (l : ShardKind) (u : ShardState) (p' : ℕ)
    (k' : ShardKind) (s' : ShardState)
    → same_key q l u p' k' s' ≡ true
    → same_key p k s p' k' s' ≡ same_key p k s q l u
unfolding same_key
same_key-eq p k s q l u p' k' s' h =
    let (a, bc) = &&_true (q == p') (is_kind l k' && is_shard_state u s') h in
    let (b, d) = &&_true (is_kind l k') (is_shard_state u s') bc in
    rw (eq_of_== q p' a, eq_of_== _ _ b, eq_of_== _ _ d)

same_key_comm :
    (p : ℕ) (k : ShardKind) (s : ShardState) (q : ℕ) (l : ShardKind) (u : ShardState)
    → same_key p k s q l u ≡ same_key q l u p k s
unfolding same_key
same_key_comm p k s q l u = ap₂ ◌&&◌ (==_comm p q) (
    ap₂ ◌&&◌ (==_comm (kind_code k) (kind_code l))
      (==_comm (shard_state_code s) (shard_state_code u)))

count_of-bump :
    (p : ℕ) (k : ShardKind) (s : ShardState) (q : ℕ) (l : ShardKind) (u : ShardState)
    (cs : List CountRow)
    → count_of p k s (bump q l u cs) ≡ to_nat (same_key p k s q l u) + count_of p k s cs
unfolding count_of bump
count_of-bump p k s q l u [] = ground arith
count_of-bump p k s q l u (c ∷ cs) = elim (Bool-cases (has_key q l u c)) [
  | inl hit ↦ rw hit (ground (arith, same_key-eq p k s q l u c.pass_id c.kind c.state))
  | inr miss ↦ rw miss (
      ground (
        arith,
        same_key-eq q l u p k s c.pass_id c.kind c.state,
        same_key_comm p k s q l u,
        count_of-bump p k s q l u cs,
      ))
]

count_of-drop_one :
    (p : ℕ) (k : ShardKind) (s : ShardState) (q : ℕ) (l : ShardKind) (u : ShardState)
    (cs : List CountRow)
    → count_of p k s (drop_one q l u cs) ≡ count_of p k s cs - to_nat (same_key p k s q l u)
unfolding count_of drop_one
count_of-drop_one p k s q l u [] = ground arith
count_of-drop_one p k s q l u (c ∷ cs) =
    let ih = count_of-drop_one p k s q l u cs in
    let agree = same_key-eq p k s q l u c.pass_id c.kind c.state in
    let agree' = same_key-eq q l u p k s c.pass_id c.kind c.state in
    elim (Bool-cases (has_key q l u c)) [
      | inl hit ↦ rw hit (ground (arith, agree))
      | inr miss ↦ rw miss (ground (arith, agree', ih, same_key_comm p k s q l u))
    ]

-- The number of rows with a key.
abbrev pub row_count : ℕ → ShardKind → ShardState → List Shard → ℕ
row_count p k s = count_where (shard_has_key p k s)

-- The rollup counts at least these rows, for every key.
abbrev pub Covers : List CountRow → List Shard → Type 0
Covers cs rs = (p : ℕ) (k : ShardKind) (s : ShardState) → row_count p k s rs ≤ count_of p k s cs

same_key-congr :
    (p : ℕ) (k : ShardKind) (s : ShardState) (q : ℕ) (l : ShardKind) (u : ShardState) (c : CountRow)
    → same_key p k s q l u ≡ true
    → has_key p k s c ≡ has_key q l u c
unfolding same_key
same_key-congr p k s q l u c h =
    let (a, bc) = &&_true (p == q) (is_kind k l && is_shard_state s u) h in
    let (b, d) = &&_true (is_kind k l) (is_shard_state s u) bc in
    rw (eq_of_== p q a, eq_of_== _ _ b, eq_of_== _ _ d)

count_of-congr :
    (p : ℕ) (k : ShardKind) (s : ShardState) (q : ℕ) (l : ShardKind) (u : ShardState)
    (cs : List CountRow)
    → same_key p k s q l u ≡ true
    → count_of p k s cs ≡ count_of q l u cs
unfolding count_of
count_of-congr p k s q l u [] h = refl
count_of-congr p k s q l u (c ∷ cs) h =
    rw (same_key-congr p k s q l u c h, count_of-congr p k s q l u cs h)

-- One row's UPDATE trigger moves that row from its old key to its new one.
count_of-on_update :
    (p : ℕ) (k : ShardKind) (s : ShardState) (old new : Shard) (cs : List CountRow)
    → 1 ≤ count_of old.pass_id old.kind old.state cs
    → count_of p k s (on_update old new cs) + to_nat (shard_has_key p k s old)
      ≡ count_of p k s cs + to_nat (shard_has_key p k s new)
unfolding on_update
count_of-on_update p k s old new cs h = ground (
  arith,
  same_key-eq p k s new.pass_id new.kind new.state old.pass_id old.kind old.state,
  same_key-eq old.pass_id old.kind old.state p k s old.pass_id old.kind old.state,
  count_of-bump p k s new.pass_id new.kind new.state (drop_one old.pass_id old.kind old.state cs),
  count_of-drop_one p k s old.pass_id old.kind old.state cs,
  count_of-congr p k s old.pass_id old.kind old.state cs,
)

pub Covers-head :
    (r : Shard) (rs : List Shard) (cs : List CountRow)
    → Covers cs (r ∷ rs)
    → 1 ≤ count_of r.pass_id r.kind r.state cs
Covers-head r rs cs h =
    ground (arith, h r.pass_id r.kind r.state, same_key_refl r.pass_id r.kind r.state)

pub Covers-tail :
    (r : Shard) (rs : List Shard) (new : Shard) (cs : List CountRow)
    → Covers cs (r ∷ rs)
    → Covers (on_update r new cs) rs
Covers-tail r rs new cs h p k s =
    omega (arith, h p k s, count_of-on_update p k s r new cs (Covers-head r rs cs h))

-- Over a whole UPDATE statement.
count_of-fire_updates :
    (p : ℕ) (k : ShardKind) (s : ShardState) (w : Shard → Bool) (f : Shard → Shard)
    (rs : List Shard) (cs : List CountRow)
    → Covers cs rs
    → count_of p k s (fire_updates w f rs cs) + row_count p k s rs
      ≡ count_of p k s cs + row_count p k s (update_where w f rs)
unfolding fire_updates
count_of-fire_updates p k s w f [] cs h = refl
count_of-fire_updates p k s w f (r ∷ rs) cs h = elim (Bool-cases (w r)) [
  | inl hit ↦ rw hit (
      omega (
        arith,
        count_of-on_update p k s r (f r) cs (Covers-head r rs cs h),
        count_of-fire_updates p k s w f rs (on_update r (f r) cs) (Covers-tail r rs (f r) cs h),
      ))
  | inr miss ↦
      rw miss
        (omega (arith, count_of-fire_updates p k s w f rs cs (λ q l u. omega (arith, h q l u))))
]

pub count_of-on_delete :
    (p : ℕ) (k : ShardKind) (s : ShardState) (r : Shard) (cs : List CountRow)
    → count_of p k s (on_delete r cs) ≡ count_of p k s cs - to_nat (shard_has_key p k s r)
unfolding on_delete
count_of-on_delete p k s r cs = count_of-drop_one p k s r.pass_id r.kind r.state cs

count_of-fire_deletes :
    (p : ℕ) (k : ShardKind) (s : ShardState) (w : Shard → Bool) (rs : List Shard)
    (cs : List CountRow)
    → Covers cs rs
    → count_of p k s (fire_deletes w rs cs) + row_count p k s rs
      ≡ count_of p k s cs + row_count p k s (delete_where w rs)
unfolding fire_deletes
count_of-fire_deletes p k s w [] cs h = refl
count_of-fire_deletes p k s w (r ∷ rs) cs h = elim (Bool-cases (w r)) [
  | inl hit ↦ rw hit (
      omega (
        arith,
        h p k s,
        count_of-on_delete p k s r cs,
        count_of-fire_deletes p k s w rs (on_delete r cs)
            (λ q l u. omega (arith, h q l u, count_of-on_delete q l u r cs)),
      ))
  | inr miss ↦
      rw miss (omega (arith, count_of-fire_deletes p k s w rs cs (λ q l u. omega (arith, h q l u))))
]

-- The rollup agrees with GROUP BY over the rows.
abbrev pub IsExact : ShardTable → Type 0
IsExact t =
    (p : ℕ) (k : ShardKind) (s : ShardState) → count_of p k s t.counts ≡ row_count p k s t.rows

pub insert_row-IsExact : (r : Shard) (t : ShardTable) → IsExact t → IsExact (insert_row r t)
unfolding insert_row on_insert
insert_row-IsExact r t h p k s = omega (
  arith,
  h p k s,
  count_of-bump p k s r.pass_id r.kind r.state t.counts,
  count_where-append (shard_has_key p k s) t.rows (record r { id = t.next_id } ∷ []),
)

pub update_shards-IsExact :
    (w : Shard → Bool) (f : Shard → Shard) (t : ShardTable)
    → IsExact t
    → IsExact (update_shards w f t)
unfolding update_shards
update_shards-IsExact w f t h p k s = omega (
  arith,
  h p k s,
  count_of-fire_updates p k s w f t.rows t.counts (λ q l u. omega (arith, h q l u)),
)

pub delete_shards-IsExact :
    (w : Shard → Bool) (t : ShardTable) → IsExact t → IsExact (delete_shards w t)
unfolding delete_shards
delete_shards-IsExact w t h p k s = omega (
  arith,
  h p k s,
  count_of-fire_deletes p k s w t.rows t.counts (λ q l u. omega (arith, h q l u)),
)
