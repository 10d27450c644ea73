-- ===== src/Store/Counts/Reaped.antt =====
-- coordinator/internal/store/store.go, ShardStateCounts and ReapDoneShards.
use drsync.Prelude.{
  ℕ, ◌+◌, ◌≤◌, ◌≡◌, refl, Bool, true, false, ◌&&◌, not, List, [], ◌∷◌, ◌==◌, if◌then◌else◌, arith,
  All, All-weaken, All-take, select, take, count_where, count_where-split_delete, count_where_mono,
  delete_where, update_where, map, Bool-cases, &&_true, inl, inr,
}
use drsync.Model.States.{ShardState, ShardKind, is_shard_state}
use drsync.Store.Schema.{Shard, Pass, Store}
use drsync.Store.Triggers.{delete_shards}
use drsync.Store.Shards.{is_state}
use drsync.Store.Shards.Valid.{IsValid, id_count}
use drsync.Store.Sweep.{contains_id, is_reapable, reap_done_shards}
use drsync.Store.Sweep.Parked.{reap_done_shards-IsValid}
use drsync.Store.Counts.{in_pass, reaped_of, shard_state_counts}

-- The shards of a pass in a state.
abbrev pub pass_rows : ℕ → ShardState → List Shard → ℕ
pass_rows p st = count_where (λ r. (p == r.pass_id) && is_state st r)

abbrev with_id : ℕ → (Shard → Bool) → List Shard → ℕ
with_id i w = count_where (λ r. (i == r.id) && w r)

-- Every id of a selection stands for a row that the selection's test passes.
All-with_id :
    (w : Shard → Bool) (rs : List Shard) → All (λ (r : Shard). 1 ≤ with_id r.id w rs) (select w rs)
All-with_id w [] = tt
All-with_id w (r ∷ rs) = elim (Bool-cases (w r)) [
  | inl y ↦
      rw y (ground arith, All-weaken _ _ (λ x h. omega (arith, h)) (select w rs) (All-with_id w rs))
  | inr n ↦ rw n (All-weaken _ _ (λ x h. omega (arith, h)) (select w rs) (All-with_id w rs))
]

split_id :
    (i : ℕ) (w : Shard → Bool) (rs : List Shard)
    → with_id i w rs + with_id i (λ r. not (w r)) rs ≡ id_count i rs
split_id i w [] = refl
split_id i w (r ∷ rs) = ground (arith, split_id i w rs)

abbrev is_hit : List ℕ → Shard → Bool
is_hit ids r = contains_id ids r.id

ids_of : List Shard → List ℕ
ids_of = map (λ r. r.id)

-- With unique ids, the rows that carry a selected id are selected rows.
hits_pass :
    (w : Shard → Bool) (rs picked : List Shard)
    → ((i : ℕ) → id_count i rs ≤ 1)
    → All (λ (r : Shard). 1 ≤ with_id r.id w rs) picked
    → count_where (λ r. is_hit (ids_of picked) r && not (w r)) rs ≡ 0
unfolding ids_of contains_id
hits_pass w rs [] u a = none_hit rs
  where
    none_hit : (rs : List Shard) → count_where (λ (r : Shard). false && not (w r)) rs ≡ 0
    none_hit [] = refl
    none_hit (x ∷ xs) = omega (arith, none_hit xs)
hits_pass w rs (p ∷ ps) u a =
    omega (arith, u p.id, a.0, split_id p.id w rs, hits_pass w rs ps u a.1, step rs)
  where
    step :
        (xs : List Shard)
        → count_where (λ (r : Shard). is_hit (ids_of (p ∷ ps)) r && not (w r)) xs
          ≤ with_id p.id (λ r. not (w r)) xs
            + count_where (λ (r : Shard). is_hit (ids_of ps) r && not (w r)) xs
    step [] = omega arith
    step (x ∷ xs) = ground (arith, step xs)

-- The rows that one batch of ReapDoneShards deletes.
abbrev reap_hits : ℕ → ℕ → List ShardKind → List Shard → Shard → Bool
reap_hits b p kinds rs = is_hit (ids_of (take b (select (is_reapable p kinds) rs)))

hits_reapable :
    (b p : ℕ) (kinds : List ShardKind) (rs : List Shard)
    → ((i : ℕ) → id_count i rs ≤ 1)
    → count_where (λ r. reap_hits b p kinds rs r && not (is_reapable p kinds r)) rs ≡ 0
hits_reapable b p kinds rs u = hits_pass (is_reapable p kinds) rs _ u (
    All-take (λ (r : Shard). 1 ≤ with_id r.id (is_reapable p kinds) rs) b _
      (All-with_id (is_reapable p kinds) rs))

-- A row that is hit and in another pass or state than the batch's is no row of the batch.
hits_apart :
    (h : Shard → Bool) (p q : ℕ) (kinds : List ShardKind) (st : ShardState)
    → ((p == q) && is_shard_state ShardState.done st) ≡ false
    → (r : Shard) → (h r && ((q == r.pass_id) && is_state st r)) ≡ true
    → (h r && not (is_reapable p kinds r)) ≡ true
unfolding is_reapable
hits_apart h p q kinds st e r g = ground arith

hits_done :
    (h : Shard → Bool) (p : ℕ) (kinds : List ShardKind) (rs : List Shard)
    → count_where h rs
      ≤ count_where (λ r. h r && ((p == r.pass_id) && is_state ShardState.done r)) rs
        + count_where (λ r. h r && not (is_reapable p kinds r)) rs
unfolding is_reapable
hits_done h p kinds [] = omega arith
hits_done h p kinds (r ∷ rs) = ground (arith, hits_done h p kinds rs)

-- The pass has a row.
abbrev pub has_pass : ℕ → List Pass → Bool
has_pass q [] = false
has_pass q (x ∷ xs) = let rest = has_pass q xs in if x.id == q then true else rest

abbrev add_reaped : ℕ → ℕ → List Pass → List Pass
add_reaped p n =
    update_where (λ (x : Pass). p == x.id) (λ x. record x { shards_reaped = x.shards_reaped + n })

reaped_of-update :
    (q p n : ℕ) (ps : List Pass)
    → reaped_of q (add_reaped p n ps)
      ≡ reaped_of q ps + (if (p == q) && has_pass q ps then n else 0)
unfolding reaped_of
reaped_of-update q p n [] = ground arith
reaped_of-update q p n (x ∷ xs) = ground (arith, reaped_of-update q p n xs)

done_is :
    (h : Shard → Bool) (p q : ℕ) (st : ShardState)
    → ((p == q) && is_shard_state ShardState.done st) ≡ true
    → (r : Shard) → (h r && ((p == r.pass_id) && is_state ShardState.done r)) ≡ true
    → (h r && ((q == r.pass_id) && is_state st r)) ≡ true
done_is h p q st e r g = ground arith

-- The row count of (q, st), before and after one batch that deletes `h`.
deleted_rows :
    (h : Shard → Bool) (p q : ℕ) (kinds : List ShardKind) (st : ShardState) (rs : List Shard)
    → count_where (λ r. h r && not (is_reapable p kinds r)) rs ≡ 0
    → pass_rows q st rs
      ≡ (if (p == q) && is_shard_state ShardState.done st then count_where h rs else 0)
        + pass_rows q st (delete_where h rs)
deleted_rows h p q kinds st rs z =
    elim (Bool-cases ((p == q) && is_shard_state ShardState.done st)) [
      | inl e ↦ rw e (
          omega (
            arith,
            z,
            hits_done h p kinds rs,
            count_where_mono _ _ (done_is h p q st e) rs,
            count_where_mono (λ (r : Shard). h r && ((q == r.pass_id) && is_state st r)) h
                (λ r g. (&&_true (h r) _ g).0) rs,
            count_where-split_delete (λ (r : Shard). (q == r.pass_id) && is_state st r) h rs,
          ))
      | inr e ↦ rw e (
          omega (
            arith,
            z,
            count_where-split_delete (λ (r : Shard). (q == r.pass_id) && is_state st r) h rs,
            count_where_mono _ _ (hits_apart h p q kinds st e) rs,
          ))
    ]

has_pass-eq : (p q : ℕ) (ps : List Pass) → (p == q) ≡ true → has_pass p ps ≡ has_pass q ps
has_pass-eq p q [] h = refl
has_pass-eq p q (x ∷ xs) h = ground (arith, has_pass-eq p q xs)

counts_agree :
    (p q n : ℕ) (st : ShardState) (s s' : Store)
    → pass_rows q st s.shards.rows
      ≡ (if (p == q) && is_shard_state ShardState.done st then n else 0)
        + pass_rows q st s'.shards.rows
    → reaped_of q s'.passes
      ≡ reaped_of q s.passes + (if (p == q) && has_pass q s.passes then n else 0)
    → IsValid s.shards
    → IsValid s'.shards
    → has_pass p s.passes ≡ true
    → shard_state_counts q s' st ≡ shard_state_counts q s st
unfolding shard_state_counts
counts_agree p q n ShardState.queued s s' rows reaped v v' f = ground (
  arith,
  has_pass-eq p q s.passes,
  v.summed (in_pass q ShardState.queued),
  v'.summed (in_pass q ShardState.queued),
)
counts_agree p q n ShardState.leased s s' rows reaped v v' f = ground (
  arith,
  has_pass-eq p q s.passes,
  v.summed (in_pass q ShardState.leased),
  v'.summed (in_pass q ShardState.leased),
)
counts_agree p q n ShardState.done s s' rows reaped v v' f = ground (
  arith,
  has_pass-eq p q s.passes,
  v.summed (in_pass q ShardState.done),
  v'.summed (in_pass q ShardState.done),
)
counts_agree p q n ShardState.parked s s' rows reaped v v' f = ground (
  arith,
  has_pass-eq p q s.passes,
  v.summed (in_pass q ShardState.parked),
  v'.summed (in_pass q ShardState.parked),
)

-- Reaping is invisible in the reported counts: for every pass and state ShardStateCounts says the
-- same after a batch of ReapDoneShards as before it, though the rows are gone.
pub reap_keeps_counts :
    (b p : ℕ) (kinds : List ShardKind) (s : Store) (q : ℕ) (st : ShardState)
    → IsValid s.shards
    → has_pass p s.passes ≡ true
    → shard_state_counts q (reap_done_shards b p kinds s).0 st ≡ shard_state_counts q s st
unfolding reap_done_shards delete_shards ids_of
reap_keeps_counts b p kinds s q st v f =
    let h = reap_hits b p kinds s.shards.rows in
    let after = reap_done_shards-IsValid b p kinds s v in
    counts_agree p q (count_where h s.shards.rows) st s (reap_done_shards b p kinds s).0
      (deleted_rows h p q kinds st s.shards.rows (hits_reapable b p kinds s.shards.rows v.unique))
      (reaped_of-update q p (count_where h s.shards.rows) s.passes) v after f
