-- ===== src/Store/Lease/Cap.antt =====
-- coordinator/internal/store/store.go, LeaseShards and the cap on the entry-list shards that one agent holds.
use drsync.Prelude.{
  ℕ, suc, ◌+◌, ◌≤◌, ◌≡◌, refl, ◌&&◌, List, [], ◌∷◌, Bytes, ◌==◌, to_nat, arith, All, All-weaken,
  count_where, update_where, max,
}
use drsync.Store.Schema.{Shard, ShardTable, Store}
use drsync.Store.Triggers.{update_shards}
use drsync.Store.Shards.{has_id}
use drsync.Store.Shards.Valid.{IsValid, id_count}
use drsync.Store.Lease.Select.{is_entry_list}
use drsync.Store.Lease.{
  max_entrylist_per_agent, held_by, entry_list_budget, choose, lease_to, lease_rows, lease_shards,
}
use drsync.Store.Lease.Chosen.{All-choose, entry_lists-choose}

-- The entry-list rows with an id.
abbrev id_entry_lists : ℕ → List Shard → ℕ
id_entry_lists i = count_where (λ x. (i == x.id) && is_entry_list x)

-- `r` stands for the one row of the table with its id: it has the row's kind.
abbrev Names : List Shard → Shard → Type 0
Names rows r = (id_entry_lists r.id rows ≤ to_nat (is_entry_list r)) × (1 ≤ id_count r.id rows)

id_entry_lists-le : (i : ℕ) (rs : List Shard) → id_entry_lists i rs ≤ id_count i rs
id_entry_lists-le i [] = omega arith
id_entry_lists-le i (r ∷ rs) = ground (arith, id_entry_lists-le i rs)

All-Names : (rs : List Shard) → ((i : ℕ) → id_count i rs ≤ 1) → All (Names rs) rs
All-Names [] u = tt
All-Names (r ∷ rs) u = (
  ground (arith, u r.id, id_entry_lists-le r.id rs),
  All-weaken (Names rs) (Names (r ∷ rs)) (λ x h. ground (arith, u x.id)) rs
      (All-Names rs (λ i. ground (arith, u i))),
)

id_entry_lists-lease :
    (i j : ℕ) (agent_id : Bytes) (l e : ℕ) (rs : List Shard)
    → id_entry_lists i (update_where (has_id j) (lease_to agent_id l e) rs) ≡ id_entry_lists i rs
id_entry_lists-lease i j a l e [] = refl
id_entry_lists-lease i j a l e (r ∷ rs) = ground (arith, id_entry_lists-lease i j a l e rs)

id_count-lease :
    (i j : ℕ) (agent_id : Bytes) (l e : ℕ) (rs : List Shard)
    → id_count i (update_where (has_id j) (lease_to agent_id l e) rs) ≡ id_count i rs
id_count-lease i j a l e [] = refl
id_count-lease i j a l e (r ∷ rs) = ground (arith, id_count-lease i j a l e rs)

-- One UPDATE gives the agent at most the entry-list rows with that id.
held-lease :
    (i : ℕ) (agent_id : Bytes) (l e : ℕ) (rs : List Shard)
    → count_where (held_by agent_id) (update_where (has_id i) (lease_to agent_id l e) rs)
      ≤ count_where (held_by agent_id) rs + id_entry_lists i rs
held-lease i a l e [] = omega arith
held-lease i a l e (r ∷ rs) = ground (arith, held-lease i a l e rs)

held-lease_rows :
    (agent_id : Bytes) (e : ℕ) (new : ℕ → ℕ) (k : ℕ) (out : List Shard) (t : ShardTable)
    → All (Names t.rows) out
    → count_where (held_by agent_id) (lease_rows agent_id e new k out t).rows
      ≤ count_where (held_by agent_id) t.rows + count_where is_entry_list out
unfolding lease_rows update_shards
held-lease_rows a e new k [] t n = omega arith
held-lease_rows a e new k (r ∷ rs) t n = omega (
  arith,
  n.0,
  held-lease r.id a (new k) e t.rows,
  held-lease_rows a e new (suc k) rs (update_shards (has_id r.id) (lease_to a (new k) e) t) (
      All-weaken (Names t.rows) _
        (λ x h. omega (
          arith,
          h,
          id_entry_lists-lease x.id r.id a (new k) e t.rows,
          id_count-lease x.id r.id a (new k) e t.rows,
        ))
        rs n.1),
)

-- An agent never comes to hold more entry-list shards than the cap by a grant: after LeaseShards it
-- holds at most `max_entrylist_per_agent` of them, or no more than it held before.
pub entry_list_cap :
    (agent_id : Bytes) (n e : ℕ) (new : ℕ → ℕ) (s : Store)
    → IsValid s.shards
    → count_where (held_by agent_id) (lease_shards agent_id n e new s).0.shards.rows
      ≤ max max_entrylist_per_agent (count_where (held_by agent_id) s.shards.rows)
unfolding lease_shards entry_list_budget
entry_list_cap a n e new s v = ground (
  arith,
  entry_lists-choose a n s,
  held-lease_rows a e new 0 (choose a n s) s.shards (
      All-weaken _ _ (λ r h. h.0) (choose a n s)
        (All-choose a n s (Names s.shards.rows) (All-Names s.shards.rows v.unique))),
)
