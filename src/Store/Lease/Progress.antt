-- ===== src/Store/Lease/Progress.antt =====
-- coordinator/internal/store/store.go, LeaseShards: its second tier, of shards that the agent held last.
use drsync.Prelude.{
  ℕ, suc, ◌+◌, ◌-◌, ◌≤◌, ◌≡◌, refl, Bool, true, ◌&&◌, List, [], ◌∷◌, ◌++◌, Bytes, ltb, arith, All,
  All-weaken, length, take, select, count_where, length-append, length-take, if◌then◌else◌, &&_true,
}
use drsync.Store.Schema.{Shard, Store}
use drsync.Store.Shards.Valid.{IsRow, IsValid}
use drsync.Store.Lease.Select.{
  grantable, fresh_work, held_last, place, by_priority, ranked_take, keep_unseen, keep_budget,
  seen_id,
}
use drsync.Store.Lease.{
  entry_list_budget, is_allowed, is_fresh, is_again, is_plain, scan, scan_tiers, trim_and_backfill,
  choose, is_enabled, lease_shards,
}
use drsync.Store.Lease.Chosen.{All-scan_tiers}
use drsync.Store.Lease.Valid.{length-granted_rows}

length-select : (w : Shard → Bool) (rows : List Shard) → length (select w rows) ≡ count_where w rows
length-select w [] = refl
length-select w (r ∷ rs) = ground (arith, length-select w rs)

length-place : (r : Shard) (xs : List Shard) → length (place r xs) ≡ suc (length xs)
unfolding place
length-place r [] = refl
length-place r (x ∷ xs) = ground (arith, length-place r xs)

length-by_priority : (xs : List Shard) → length (by_priority xs) ≡ length xs
unfolding by_priority
length-by_priority [] = refl
length-by_priority (x ∷ xs) = omega (arith, length-place x (by_priority xs), length-by_priority xs)

-- With nothing seen, the first row of a query is kept.
keep_unseen-pos : (xs : List Shard) → 1 ≤ length xs → 1 ≤ length (keep_unseen [] xs)
unfolding keep_unseen seen_id
keep_unseen-pos [] h = h
keep_unseen-pos (x ∷ xs) h = omega arith

scan-pos :
    (n : ℕ) (w : Shard → Bool) (rows : List Shard)
    → 1 ≤ n
    → 1 ≤ count_where w rows
    → 1 ≤ length (scan [] n w rows)
unfolding scan ranked_take
scan-pos n w rows h c = keep_unseen-pos (take n (by_priority (select w rows))) (
    omega (
      arith,
      length-take n (by_priority (select w rows)),
      length-by_priority (select w rows),
      length-select w rows,
    ))

-- What the agent may be granted now, entry-list shards only within its budget.
abbrev pub is_eligible : Bytes → Store → Shard → Bool
is_eligible agent_id s r =
    grantable agent_id s r && is_allowed (entry_list_budget agent_id s.shards.rows) r

module _ (agent_id : Bytes) (s : Store) where
  -- Each eligible row falls to tier 1 or to tier 2.
  tiers_cover :
      (rows : List Shard)
      → All IsRow rows
      → count_where (is_eligible agent_id s) rows
        ≤ count_where (is_fresh agent_id s) rows + count_where (is_again agent_id s) rows
  unfolding is_fresh is_again fresh_work held_last
  tiers_cover [] v = omega arith
  tiers_cover (r ∷ rs) v = ground (arith, v.0.known_agent, tiers_cover rs)

  second_tier :
      (n : ℕ) (tier1 : List Shard)
      → 1 ≤ n
      → (length tier1 ≡ 0 → 1 ≤ length (scan [] n (is_again agent_id s) s.shards.rows))
      → 1
        ≤ length (
            if ltb (length tier1) n
            then tier1 ++ scan tier1 (n - length tier1) (is_again agent_id s) s.shards.rows
            else tier1)
  second_tier n [] h c = ground (arith, c refl)
  second_tier n (x ∷ xs) h c = ground (
    arith,
    length-append (x ∷ xs)
        (scan (x ∷ xs) (n - length (x ∷ xs)) (is_again agent_id s) s.shards.rows),
  )

  scan_tiers-pos :
      (n : ℕ)
      → 1 ≤ n
      → All IsRow s.shards.rows
      → 1 ≤ count_where (is_eligible agent_id s) s.shards.rows
      → 1 ≤ length (scan_tiers agent_id n s)
  unfolding scan_tiers
  scan_tiers-pos n h v c = second_tier n (scan [] n (is_fresh agent_id s) s.shards.rows) h (λ e.
      scan-pos n (is_again agent_id s) s.shards.rows h (
        grind
          (arith, scan-pos n (is_fresh agent_id s) s.shards.rows h, tiers_cover s.shards.rows v)))

  keep_budget-pos :
      (b : ℕ) (xs : List Shard)
      → All (λ r. is_allowed b r ≡ true) xs
      → 1 ≤ length xs
      → 1 ≤ length (keep_budget b xs)
  unfolding keep_budget is_allowed
  keep_budget-pos b [] a h = h
  keep_budget-pos b (x ∷ xs) a h = ground arith

  fresh-allowed :
      (r : Shard)
      → is_fresh agent_id s r ≡ true
      → is_allowed (entry_list_budget agent_id s.shards.rows) r ≡ true
  unfolding is_fresh
  fresh-allowed r h = (&&_true _ _ (&&_true (grantable agent_id s r) _ h).1).0

  again-allowed :
      (r : Shard)
      → is_again agent_id s r ≡ true
      → is_allowed (entry_list_budget agent_id s.shards.rows) r ≡ true
  unfolding is_again
  again-allowed r h = (&&_true _ _ (&&_true (grantable agent_id s r) _ h).1).0

  choose-pos :
      (n : ℕ)
      → 1 ≤ n
      → All IsRow s.shards.rows
      → 1 ≤ count_where (is_eligible agent_id s) s.shards.rows
      → 1 ≤ length (choose agent_id n s)
  unfolding choose trim_and_backfill
  choose-pos n h v c =
      let budget = entry_list_budget agent_id s.shards.rows in
      let scanned = scan_tiers agent_id n s in
      let kept = keep_budget budget scanned in
      let more = scan scanned (n - length kept) (is_plain agent_id s) s.shards.rows in
      ground (
        arith,
        keep_budget-pos budget scanned
            (All-weaken (λ r. IsRow r × (is_allowed budget r ≡ true))
              (λ r. is_allowed budget r ≡ true) (λ r q. q.1) scanned
              (All-scan_tiers agent_id n s IsRow (is_allowed budget) fresh-allowed again-allowed v))
            (scan_tiers-pos n h v c),
        length-append kept more,
      )

-- Work is not stranded: an enabled agent that asks for work is granted some whenever a shard is
-- queued in a running job that it may take, of any kind while it has room for entry-list shards and of
-- any other kind always. The retries that it held last are among them.
pub lease_shards_progress :
    (agent_id : Bytes) (n e : ℕ) (new : ℕ → ℕ) (s : Store)
    → IsValid s.shards
    → is_enabled agent_id s.agents ≡ true
    → 1 ≤ n
    → 1 ≤ count_where (is_eligible agent_id s) s.shards.rows
    → 1 ≤ length (lease_shards agent_id n e new s).1
unfolding lease_shards
lease_shards_progress a n e new s v en h c =
    ground (arith, choose-pos a s n h v.sound c, length-granted_rows a e new 0 (choose a n s))
