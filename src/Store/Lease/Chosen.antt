-- ===== src/Store/Lease/Chosen.antt =====
-- coordinator/internal/store/store.go, LeaseShards: the rows that it chooses.
use drsync.Prelude.{
  ℕ, ◌-◌, ◌≤◌, ◌≡◌, refl, Bool, true, false, List, [], ◌∷◌, Bytes, if◌then◌else◌, length, select,
  count_where, arith, All, All-append, All-take, All-select, All-weaken, All-pair, select-All,
  &&_true, length-append, length-take, count_where-append, Bool-cases, inl, inr,
}
use drsync.Store.Schema.{Shard, Store}
use drsync.Store.Lease.Select.{
  is_entry_list, not_entry_list, grantable, place, by_priority, ranked_take, keep_unseen,
  keep_budget,
}
use drsync.Store.Lease.{
  choose, entry_list_budget, scan, is_fresh, is_again, is_plain, scan_tiers, trim_and_backfill,
}

module _ {κ} (P : Shard → Type κ) where
  All-place : (r : Shard) (xs : List Shard) → P r → All P xs → All P (place r xs)
  unfolding place
  All-place r [] p q = (p, tt)
  All-place r (x ∷ xs) p q = ground (arith, All-place r xs p)

  All-by_priority : (xs : List Shard) → All P xs → All P (by_priority xs)
  unfolding by_priority
  All-by_priority [] p = tt
  All-by_priority (x ∷ xs) p = All-place x (by_priority xs) p.0 (All-by_priority xs p.1)

  All-keep_unseen : (seen xs : List Shard) → All P xs → All P (keep_unseen seen xs)
  unfolding keep_unseen
  All-keep_unseen seen [] p = tt
  All-keep_unseen seen (x ∷ xs) p =
      ground (arith, All-keep_unseen (x ∷ seen) xs, All-keep_unseen seen xs)

  All-keep_budget : (b : ℕ) (xs : List Shard) → All P xs → All P (keep_budget b xs)
  unfolding keep_budget
  All-keep_budget b [] p = tt
  All-keep_budget b (x ∷ xs) p = ground (arith, All-keep_budget (b - 1) xs, All-keep_budget b xs)

All-ranked_take {κ} :
    (P : Shard → Type κ) (n : ℕ) (w : Shard → Bool) (rows : List Shard)
    → All P rows
    → All (λ r. P r × (w r ≡ true)) (ranked_take n w rows)
unfolding ranked_take
All-ranked_take P n w rows p = All-take _ n _ (
    All-by_priority (λ r. P r × (w r ≡ true)) (select w rows)
      (All-pair P (λ r. w r ≡ true) _ (All-select P w rows p) (select-All w rows)))

length-keep_unseen : (seen xs : List Shard) → length (keep_unseen seen xs) ≤ length xs
unfolding keep_unseen
length-keep_unseen seen [] = omega arith
length-keep_unseen seen (x ∷ xs) =
    ground (arith, length-keep_unseen (x ∷ seen) xs, length-keep_unseen seen xs)

length-keep_budget : (b : ℕ) (xs : List Shard) → length (keep_budget b xs) ≤ length xs
unfolding keep_budget
length-keep_budget b [] = omega arith
length-keep_budget b (x ∷ xs) =
    ground (arith, length-keep_budget (b - 1) xs, length-keep_budget b xs)

length-ranked_take :
    (n : ℕ) (w : Shard → Bool) (rows : List Shard) → length (ranked_take n w rows) ≤ n
unfolding ranked_take
length-ranked_take n w rows = omega (arith, length-take n (by_priority (select w rows)))

entry_lists-keep_budget :
    (b : ℕ) (xs : List Shard) → count_where is_entry_list (keep_budget b xs) ≤ b
unfolding keep_budget
entry_lists-keep_budget b [] = omega arith
entry_lists-keep_budget b (x ∷ xs) = elim (Bool-cases (is_entry_list x)) [
  | inl y ↦ rw y (ground (arith, entry_lists-keep_budget (b - 1) xs, entry_lists-keep_budget b xs))
  | inr n ↦ rw n (ground (arith, entry_lists-keep_budget b xs))
]

entry_lists-none :
    (xs : List Shard) → All (λ r. not_entry_list r ≡ true) xs → count_where is_entry_list xs ≡ 0
entry_lists-none [] p = refl
entry_lists-none (x ∷ xs) p = ground (arith, entry_lists-none xs)

length-scan :
    (seen : List Shard) (n : ℕ) (w : Shard → Bool) (rows : List Shard)
    → length (scan seen n w rows) ≤ n
unfolding scan
length-scan seen n w rows =
    omega (arith, length-keep_unseen seen (ranked_take n w rows), length-ranked_take n w rows)

All-scan {κ} :
    (P : Shard → Type κ) (seen : List Shard) (n : ℕ) (w : Shard → Bool) (rows : List Shard)
    → All P rows
    → All (λ r. P r × (w r ≡ true)) (scan seen n w rows)
unfolding scan
All-scan P seen n w rows p =
    All-keep_unseen (λ r. P r × (w r ≡ true)) seen _ (All-ranked_take P n w rows p)

All-trivial : (xs : List Shard) → All (λ _. Unit {0}) xs
All-trivial [] = tt
All-trivial (x ∷ xs) = (tt, All-trivial xs)

All-if {κ} :
    (P : Shard → Type κ) (xs ys : List Shard) (b : Bool)
    → All P xs
    → All P ys
    → All P (if b then xs else ys)
All-if P xs ys true p q = p
All-if P xs ys false p q = q

module _ (agent_id : Bytes) (max : ℕ) (s : Store) where
  plain-not_entry_list : (r : Shard) → is_plain agent_id s r ≡ true → not_entry_list r ≡ true
  unfolding is_plain
  plain-not_entry_list r h = (&&_true (grantable agent_id s r) (not_entry_list r) h).1

  plain-grantable : (r : Shard) → is_plain agent_id s r ≡ true → grantable agent_id s r ≡ true
  unfolding is_plain
  plain-grantable r h = (&&_true (grantable agent_id s r) (not_entry_list r) h).0

  -- What the WHERE clause of a scan gives, every row of the scan has.
  All-scan_where {κ} :
      (P : Shard → Type κ) (w q : Shard → Bool)
      → ((r : Shard) → w r ≡ true → q r ≡ true)
      → (seen : List Shard) (n : ℕ) → All P s.shards.rows
      → All (λ r. P r × (q r ≡ true)) (scan seen n w s.shards.rows)
  All-scan_where P w q f seen n p =
      All-weaken (λ r. P r × (w r ≡ true)) (λ r. P r × (q r ≡ true)) (λ r h. (h.0, f r h.1))
        (scan seen n w s.shards.rows) (All-scan P seen n w s.shards.rows p)

  pub All-scan_tiers {κ} :
      (P : Shard → Type κ) (q : Shard → Bool)
      → ((r : Shard) → is_fresh agent_id s r ≡ true → q r ≡ true)
      → ((r : Shard) → is_again agent_id s r ≡ true → q r ≡ true)
      → All P s.shards.rows
      → All (λ r. P r × (q r ≡ true)) (scan_tiers agent_id max s)
  unfolding scan_tiers
  All-scan_tiers P q f g p =
      let tier1 = All-scan_where P (is_fresh agent_id s) q f [] max p in
      All-if (λ r. P r × (q r ≡ true)) _ _ _
        (All-append (λ r. P r × (q r ≡ true)) _ _ tier1
          (All-scan_where P (is_again agent_id s) q g _ _ p))
        tier1

  fresh-grantable : (r : Shard) → is_fresh agent_id s r ≡ true → grantable agent_id s r ≡ true
  unfolding is_fresh
  fresh-grantable r h = (&&_true _ _ h).0

  again-grantable : (r : Shard) → is_again agent_id s r ≡ true → grantable agent_id s r ≡ true
  unfolding is_again
  again-grantable r h = (&&_true _ _ h).0

  length-scan_tiers : length (scan_tiers agent_id max s) ≤ max
  unfolding scan_tiers
  length-scan_tiers =
      let tier1 = scan [] max (is_fresh agent_id s) s.shards.rows in
      let tier2 = scan tier1 (max - length tier1) (is_again agent_id s) s.shards.rows in
      ground (
        arith,
        length-scan [] max (is_fresh agent_id s) s.shards.rows,
        length-scan tier1 (max - length tier1) (is_again agent_id s) s.shards.rows,
        length-append tier1 tier2,
      )

  length-trim_and_backfill :
      (scanned : List Shard)
      → length scanned ≤ max
      → length (trim_and_backfill agent_id max s scanned) ≤ max
  unfolding trim_and_backfill
  length-trim_and_backfill scanned h =
      let kept = keep_budget (entry_list_budget agent_id s.shards.rows) scanned in
      let more = scan scanned (max - length kept) (is_plain agent_id s) s.shards.rows in
      ground (
        arith,
        length-keep_budget (entry_list_budget agent_id s.shards.rows) scanned,
        length-scan scanned (max - length kept) (is_plain agent_id s) s.shards.rows,
        length-append kept more,
      )

  entry_lists-trim_and_backfill :
      (scanned : List Shard)
      → count_where is_entry_list (trim_and_backfill agent_id max s scanned)
        ≤ entry_list_budget agent_id s.shards.rows
  unfolding trim_and_backfill
  entry_lists-trim_and_backfill scanned =
      let budget = entry_list_budget agent_id s.shards.rows in
      let kept = keep_budget budget scanned in
      let more = scan scanned (max - length kept) (is_plain agent_id s) s.shards.rows in
      ground (
        arith,
        entry_lists-keep_budget budget scanned,
        entry_lists-none more (
            All-weaken _ _ (λ r h. plain-not_entry_list r h.1) more
              (All-scan (λ _. Unit {0}) scanned (max - length kept) (is_plain agent_id s)
                s.shards.rows (All-trivial s.shards.rows))),
        count_where-append is_entry_list kept more,
      )

  -- LeaseShards never chooses more shards than it is asked for.
  pub length-choose : length (choose agent_id max s) ≤ max
  unfolding choose
  length-choose = length-trim_and_backfill (scan_tiers agent_id max s) length-scan_tiers

  -- Nor more entry-list shards than the agent has room for.
  pub entry_lists-choose :
      count_where is_entry_list (choose agent_id max s) ≤ entry_list_budget agent_id s.shards.rows
  unfolding choose
  entry_lists-choose = entry_lists-trim_and_backfill (scan_tiers agent_id max s)

  -- Each chosen row is a row of the table that the agent may be granted.
  pub All-choose {κ} :
      (P : Shard → Type κ)
      → All P s.shards.rows
      → All (λ r. P r × (grantable agent_id s r ≡ true)) (choose agent_id max s)
  unfolding choose trim_and_backfill
  All-choose P p =
      let kept =
        All-keep_budget (λ r. P r × (grantable agent_id s r ≡ true))
          (entry_list_budget agent_id s.shards.rows) (scan_tiers agent_id max s)
          (All-scan_tiers P (grantable agent_id s) fresh-grantable again-grantable p) in
      All-if (λ r. P r × (grantable agent_id s r ≡ true)) _ _ _
        (All-append (λ r. P r × (grantable agent_id s r ≡ true)) _ _ kept
          (All-scan_where P (is_plain agent_id s) (grantable agent_id s) plain-grantable _ _ p))
        kept
