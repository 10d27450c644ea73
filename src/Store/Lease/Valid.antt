-- ===== src/Store/Lease/Valid.antt =====
-- coordinator/internal/store/store.go, LeaseShards: the shard table.
use drsync.Prelude.{ℕ, suc, ◌≤◌, ◌≡◌, refl, List, [], ◌∷◌, Bytes, arith, length}
use drsync.Store.Schema.{Shard, ShardTable, Store}
use drsync.Store.Shards.{has_id}
use drsync.Store.Shards.Valid.{IsRow, IsValid, update_shards-IsValid}
use drsync.Store.Lease.{lease_to, lease_rows, granted_rows, choose, lease_shards}
use drsync.Store.Lease.Chosen.{length-choose}

lease_to-IsRow :
    (agent_id : Bytes) (l e : ℕ) (r : Shard) → IsRow r → IsRow (lease_to agent_id l e r)
lease_to-IsRow a l e r v = record {
  leased_held = λ _. (refl, refl, omega arith);
  queued_free = λ h. ground arith;
  known_agent = λ _. refl;
  ranked = v.ranked;
}

lease_rows-IsValid :
    (agent_id : Bytes) (e : ℕ) (new : ℕ → ℕ) (k : ℕ) (out : List Shard) (t : ShardTable)
    → IsValid t
    → IsValid (lease_rows agent_id e new k out t)
unfolding lease_rows
lease_rows-IsValid a e new k [] t v = v
lease_rows-IsValid a e new k (r ∷ rs) t v = lease_rows-IsValid a e new (suc k) rs _ (
    update_shards-IsValid (has_id r.id) (lease_to a (new k) e) t (λ x. refl)
      (λ x _ q. lease_to-IsRow a (new k) e x q) v)

-- LeaseShards keeps the table valid: its rollup exact, its ids unique, and each leased row with a
-- lease, an agent and an expiry.
pub lease_shards-IsValid :
    (agent_id : Bytes) (n e : ℕ) (new : ℕ → ℕ) (s : Store)
    → IsValid s.shards
    → IsValid (lease_shards agent_id n e new s).0.shards
unfolding lease_shards
lease_shards-IsValid a n e new s v =
    ground (arith, lease_rows-IsValid a e new 0 (choose a n s) s.shards v)

pub length-granted_rows :
    (agent_id : Bytes) (e : ℕ) (new : ℕ → ℕ) (k : ℕ) (out : List Shard)
    → length (granted_rows agent_id e new k out) ≡ length out
unfolding granted_rows
length-granted_rows a e new k [] = refl
length-granted_rows a e new k (r ∷ rs) = omega (arith, length-granted_rows a e new (suc k) rs)

-- LeaseShards grants at most as many shards as it is asked for.
pub length-lease_shards :
    (agent_id : Bytes) (n e : ℕ) (new : ℕ → ℕ) (s : Store)
    → length (lease_shards agent_id n e new s).1 ≤ n
unfolding lease_shards
length-lease_shards a n e new s =
    ground (arith, length-choose a n s, length-granted_rows a e new 0 (choose a n s))
