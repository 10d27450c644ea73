-- ===== src/Store/Shards/Valid.antt =====
-- coordinator/internal/store/store.go: the predicate on the shard table, under inserts, updates and deletes.
use drsync.Prelude.{
  ℕ, ◌+◌, ◌≤◌, ◌<◌, ◌≡◌, refl, Bool, true, List, [], ◌∷◌, none, ◌==◌, is_some, to_nat, ◌++◌, arith,
  All, All-append, All-update_where, All-delete_where, count_where-delete_where, count_where,
  count_where-append, update_where,
}
use drsync.Model.States.{ShardState, is_shard_state, priority}
use drsync.Store.Schema.{Shard, ShardTable}
use drsync.Store.Triggers.{insert_row, update_shards, delete_shards}
use drsync.Store.Triggers.Sums.{
  IsSummed, insert_row-IsSummed, update_shards-IsSummed, delete_shards-IsSummed,
}
use drsync.Store.Triggers.Exact.{
  IsExact, insert_row-IsExact, update_shards-IsExact, delete_shards-IsExact,
}

-- A leased shard names its lease, its agent and its expiry; a queued one has no lease; and a shard
-- that was ever granted still names an agent, so no comparison with its agent is NULL.
pub record IsRow (r : Shard) : Type 0 where
  pub leased_held :
      is_shard_state ShardState.leased r.state ≡ true
      → (is_some r.lease_id ≡ true) × (is_some r.lease_expiry ≡ true) × (0 < r.attempt)
  pub queued_free : is_shard_state ShardState.queued r.state ≡ true → r.lease_id ≡ none
  pub known_agent : 0 < r.attempt → is_some r.lease_agent ≡ true
  pub ranked : r.prio ≡ priority r.kind

abbrev pub id_count : ℕ → List Shard → ℕ
id_count i = count_where (λ r. i == r.id)

pub record IsValid (t : ShardTable) : Type 0 where
  pub exact : IsExact t
  pub summed : IsSummed t
  pub unique : (i : ℕ) → id_count i t.rows ≤ 1
  pub unused : (i : ℕ) → t.next_id ≤ i → id_count i t.rows ≡ 0
  pub sound : All IsRow t.rows

id_count-update_where :
    (i : ℕ) (w : Shard → Bool) (f : Shard → Shard)
    → ((r : Shard) → (f r).id ≡ r.id)
    → (rs : List Shard) → id_count i (update_where w f rs) ≡ id_count i rs
id_count-update_where i w f keep [] = refl
id_count-update_where i w f keep (r ∷ rs) =
    ground (arith, keep r, id_count-update_where i w f keep rs)

pub update_shards-IsValid :
    (w : Shard → Bool) (f : Shard → Shard) (t : ShardTable)
    → ((r : Shard) → (f r).id ≡ r.id)
    → ((r : Shard) → w r ≡ true → IsRow r → IsRow (f r))
    → IsValid t
    → IsValid (update_shards w f t)
unfolding update_shards
update_shards-IsValid w f t same keep v = record {
  summed = update_shards-IsSummed w f t v.exact v.summed;
  exact = update_shards-IsExact w f t v.exact;
  unique = λ i. omega (arith, v.unique i, id_count-update_where i w f same t.rows);
  unused = λ i h. omega (arith, v.unused i h, id_count-update_where i w f same t.rows);
  sound = All-update_where IsRow w f keep t.rows v.sound;
}

pub delete_shards-IsValid :
    (w : Shard → Bool) (t : ShardTable) → IsValid t → IsValid (delete_shards w t)
unfolding delete_shards
delete_shards-IsValid w t v = record {
  summed = delete_shards-IsSummed w t v.exact v.summed;
  exact = delete_shards-IsExact w t v.exact;
  unique = λ i. omega (arith, v.unique i, count_where-delete_where (λ r. i == r.id) w t.rows);
  unused = λ i h. omega (arith, v.unused i h, count_where-delete_where (λ r. i == r.id) w t.rows);
  sound = All-delete_where IsRow w t.rows v.sound;
}

-- A row that is free of a lease and of grants.
abbrev IsFresh : Shard → Type 0
IsFresh r =
    (r.state ≡ ShardState.queued)
    × (r.lease_id ≡ none)
    × (r.attempt ≡ 0)
    × (r.prio ≡ priority r.kind)

IsFresh-IsRow : (r : Shard) → IsFresh r → IsRow r
IsFresh-IsRow r h = record {
  leased_held = λ l. ground arith;
  queued_free = λ q. h.1;
  known_agent = λ a. ground arith;
  ranked = h.3;
}

id_count-add :
    (i : ℕ) (rs : List Shard) (r : Shard)
    → id_count i (rs ++ r ∷ []) ≡ id_count i rs + to_nat (i == r.id)
id_count-add i rs r = omega (arith, count_where-append (λ (x : Shard). i == x.id) rs (r ∷ []))

pub insert_row-IsValid :
    (r : Shard) (t : ShardTable) → IsFresh r → IsValid t → IsValid (insert_row r t)
unfolding insert_row
insert_row-IsValid r t h v = record {
  summed = insert_row-IsSummed r t v.summed;
  exact = insert_row-IsExact r t v.exact;
  unique = λ i.
      ground (arith, v.unique i, v.unused i, id_count-add i t.rows (record r { id = t.next_id }));
  unused = λ i h'. ground (arith, v.unused i, id_count-add i t.rows (record r { id = t.next_id }));
  sound = All-append IsRow t.rows _ v.sound (IsFresh-IsRow (record r { id = t.next_id }) h, tt);
}
