-- ===== src/Scheduler/Grant/Items.antt =====
-- coordinator/internal/scheduler/scheduler.go, Grant: what becomes of the shards that were leased.
use drsync.Prelude.{
  ℕ, suc, ◌+◌, ◌≤◌, ◌≡◌, ◌⊎◌, refl, sym, ap, subst, true, false, List, [], ◌∷◌, Option, none, some,
  Bytes, ◌==◌, inl, inr, arith, find_row, count_where, length, All, All-weaken, Bool-cases,
  Option-cases,
}
use drsync.Store.Schema.{Shard, Pass, Store}
use drsync.Store.Shards.Answered.{IsAnswered}
use drsync.Store.Lease.Select.{is_running, grantable}
use drsync.Store.Lease.{is_enabled, choose, granted_rows, lease_shards}
use drsync.Store.Lease.Chosen.{All-choose}
use drsync.Store.Lease.Valid.{length-lease_shards}
use drsync.Store.Reachable.{Step, Reachable}
use drsync.Scheduler.Shares.{grant_max_items}
use drsync.Scheduler.Policy.{PolicyError, Sched, job_policy}
use drsync.Scheduler.Grant.{
  GrantLib, is_pass, WorkGrant, WorkRequest, Granting, Granted, fleet, grant_size, lease_of,
  grant_joined, unless_failed, grant_rows, start_granting, Optioning, options_for, with_options,
  finish_grant, grant_work,
}
use drsync.Scheduler.Grant.Rounds.{is_item_of, Undecodable, Settled, grant_row-Round}

grant_size_max :
    (req : WorkRequest) (now : ℕ) (sched : Sched) (s : Store)
    → grant_size req now sched s ≤ grant_max_items
unfolding grant_size
grant_size_max req now sched s = omega arith

module _ {M : Type 0} (lib : GrantLib M) where
  -- The JOIN of LeaseShards: each row has its pass.
  abbrev pub HasPass : List Pass → Shard → Type 0
  HasPass ps r = (p : Pass) × (find_row (is_pass r.pass_id) ps ≡ some p)

  -- What the loop keeps and does.
  record Loop (rs : List Shard) (g g' : Granting M) : Type 0 where
    reachable : Reachable g.store → Reachable g'.store
    grown : length g'.items ≤ length g.items + length rs
    kept : (x : Shard) → Settled lib g x → Settled lib g' x
    settled : All (HasPass g.store.passes) rs → g'.fault ≡ none → All (Settled lib g') rs

  joined_lem :
      (r : Shard) (g : Granting M) (o : Option Pass)
      → (Reachable g.store → Reachable (grant_joined lib r g o).store)
        × ((grant_joined lib r g o).store.passes ≡ g.store.passes)
        × (length (grant_joined lib r g o).items ≤ suc (length g.items))
        × ((x : Shard) → Settled lib g x → Settled lib (grant_joined lib r g o) x)
  joined_lem r g none = (λ h. h, refl, omega arith, λ x h. h)
  joined_lem r g (some p) =
      let w = grant_row-Round lib r p g (job_policy lib.specs g.sched g.store p.job_id) in
      (w.reachable, w.passes, w.grown, w.kept)

  joined-Settled :
      (r : Shard) (g : Granting M) (o : Option Pass) (p : Pass)
      → o ≡ some p
      → (grant_joined lib r g o).fault ≡ none
      → Settled lib (grant_joined lib r g o) r
  joined-Settled r g none p e h = cc
  joined-Settled r g (some q) p e h =
      (grant_row-Round lib r q g (job_policy lib.specs g.sched g.store q.job_id)).settled h

  rows_lem : (rs : List Shard) (g : Granting M) → Loop rs g (grant_rows lib rs g)
  unfolding grant_rows
  rows_lem [] g = record {
    reachable = λ h. h;
    grown = omega arith;
    kept = λ x h. h;
    settled = λ h e. tt;
  }
  rows_lem (r ∷ rs) g =
      let o = find_row (is_pass r.pass_id) g.store.passes in
      let next = grant_joined lib r g o in by_fault next.fault refl (rows_lem rs next)
    where
      by_fault :
          (f : Option PolicyError)
          → f ≡ (grant_joined lib r g (find_row (is_pass r.pass_id) g.store.passes)).fault
          → Loop rs (grant_joined lib r g (find_row (is_pass r.pass_id) g.store.passes)) (
              grant_rows lib rs
                (grant_joined lib r g (find_row (is_pass r.pass_id) g.store.passes)))
          → Loop (r ∷ rs) g (
              unless_failed lib f
                (grant_joined lib r g (find_row (is_pass r.pass_id) g.store.passes))
                (grant_rows lib rs
                  (grant_joined lib r g (find_row (is_pass r.pass_id) g.store.passes))))
      by_fault (some e) q ih =
          let w = joined_lem r g (find_row (is_pass r.pass_id) g.store.passes) in
          record { reachable = w.0; grown = omega (arith, w.2); kept = w.3; settled = λ h z. cc }
      by_fault none q ih =
          let w = joined_lem r g (find_row (is_pass r.pass_id) g.store.passes) in
          record {
            reachable = λ h. ih.reachable (w.0 h);
            grown = omega (arith, w.2, ih.grown);
            kept = λ x h. ih.kept x (w.3 x h);
            settled = λ h z. (
              ih.kept r (
                  joined-Settled r g (find_row (is_pass r.pass_id) g.store.passes) h.0.0 h.0.1
                    (sym q)),
              ih.settled (rw w.1 h.1) z,
            );
          }

  no_pass_no_run :
      (s : Store) (i : ℕ) → find_row (is_pass i) s.passes ≡ none → is_running s i ≡ false
  unfolding is_running
  no_pass_no_run s i e = rw (e, is_running) refl

  running-HasPass : (s : Store) (r : Shard) → is_running s r.pass_id ≡ true → HasPass s.passes r
  running-HasPass s r h = elim (Option-cases (find_row (is_pass r.pass_id) s.passes)) [
    | inl e ↦ absurd (ground (arith, h, no_pass_no_run s r.pass_id e))
    | inr e ↦ e
  ]

  granted_have_pass :
      (a : Bytes) (e : ℕ) (new : ℕ → ℕ) (k : ℕ) (s : Store) (out : List Shard)
      → All (λ r. Unit {0} × (grantable a s r ≡ true)) out
      → All (HasPass s.passes) (granted_rows a e new k out)
  unfolding granted_rows grantable
  granted_have_pass a e new k s [] h = tt
  granted_have_pass a e new k s (r ∷ rs) h =
      (running-HasPass s r (ground (arith, h.0.1)), granted_have_pass a e new (suc k) s rs h.1)

  All-trivial : (rs : List Shard) → All (λ r. Unit {0}) rs
  All-trivial [] = tt
  All-trivial (r ∷ rs) = (tt, All-trivial rs)

  leased_have_pass :
      (a : Bytes) (n e : ℕ) (new : ℕ → ℕ) (s : Store)
      → All (HasPass s.passes) (lease_shards a n e new s).1
        × ((lease_shards a n e new s).0.passes ≡ s.passes)
  unfolding lease_shards
  leased_have_pass a n e new s = elim (Bool-cases (n == 0)) [
    | inl z ↦ rw z (tt, refl)
    | inr z ↦ elim (Bool-cases (is_enabled a s.agents)) [
      | inl b ↦
          rw (z, b)
            (
              granted_have_pass a e new 0 s (choose a n s)
                  (All-choose a n s (λ r. Unit {0}) (All-trivial s.shards.rows)),
              refl,
            )
      | inr b ↦ rw (z, b) (tt, refl)
    ]
  ]

  -- A grant that is returned.
  record Returned (g : Granting M) (s' : Store) (wg : WorkGrant M) : Type 0 where
    same_store : s' ≡ g.store
    same_items : wg.items ≡ g.items
    no_fault : g.fault ≡ none

  finish_inv :
      (cached : List (ℕ × ℕ)) (g : Granting M) (sched' : Sched) (s' : Store) (wg : WorkGrant M)
      → finish_grant lib.specs cached g g.fault ≡ (sched', s', Granted.grant wg)
      → Returned g s' wg
  finish_inv cached g sched' s' wg h = by_fault g.fault refl h
    where
      by_options :
          (q : Optioning)
          → g.fault ≡ none
          → with_options g q ≡ (sched', s', Granted.grant wg)
          → Returned g s' wg
      by_options (sc, out, some e) z h₁ = cc
      by_options (sc, out, none) z h₁ = record { same_store = cc; same_items = cc; no_fault = z }

      by_fault :
          (f : Option PolicyError)
          → g.fault ≡ f
          → finish_grant lib.specs cached g f ≡ (sched', s', Granted.grant wg)
          → Returned g s' wg
      by_fault (some e) z h₁ = cc
      by_fault none z h₁ = by_options (options_for lib.specs cached g.store g.jobs g.sched []) z h₁

  returned :
      (g : Granting M) (s' : Store) (wg : WorkGrant M)
      → Returned g s' wg
      → (x : Shard) → Settled lib g x
      → (1 ≤ count_where (is_item_of lib x) wg.items)
        ⊎ (Undecodable lib x.kind x × IsAnswered x.id (lease_of x.lease_id) s'.shards)
  returned g s' wg r x (inl h) = inl (rw r.same_items h)
  returned g s' wg r x (inr h) = inr (rw r.same_store h)

  -- What Grant leases it accounts for. When it returns a grant, the grant has at most 64 items, and each
  -- shard that was leased for it is either an item under its lease, or its payload does not decode and
  -- it is no longer leased under it.
  pub grant_work_settles :
      (a : Bytes) (req : WorkRequest) (now e : ℕ) (new : ℕ → ℕ) (sched sched' : Sched)
      (s s' : Store) (wg : WorkGrant M)
      → grant_work lib a req now e new sched s ≡ (sched', s', Granted.grant wg)
      → (length wg.items ≤ grant_max_items)
        × All
            (λ r.
              (1 ≤ count_where (is_item_of lib r) wg.items)
              ⊎ (Undecodable lib r.kind r × IsAnswered r.id (lease_of r.lease_id) s'.shards))
            (lease_shards a (grant_size req now sched s) e new s).1
  unfolding grant_work
  grant_work_settles a req now e new sched sched' s s' wg h =
      let n = grant_size req now sched s in
      let leased = lease_shards a n e new s in
      let start = start_granting {M = M} (fleet now s sched) leased.0 in
      let g = grant_rows lib leased.1 start in
      let w = rows_lem leased.1 start in
      let r = finish_inv req.cached g sched' s' wg h in
      let p = leased_have_pass a n e new s in
      let q = w.settled (subst (λ ps. All (HasPass ps) leased.1) (sym p.1) p.0) r.no_fault in
      (
        omega (
          arith,
          w.grown,
          length-lease_shards a n e new s,
          grant_size_max req now sched s,
          ap length r.same_items,
        ),
        All-weaken (Settled lib g)
            (λ x.
              (1 ≤ count_where (is_item_of lib x) wg.items)
              ⊎ (Undecodable lib x.kind x × IsAnswered x.id (lease_of x.lease_id) s'.shards))
            (λ x y. returned g s' wg r x y) leased.1 q,
      )

  finish_store :
      (cached : List (ℕ × ℕ)) (g : Granting M) (f : Option PolicyError)
      → (finish_grant lib.specs cached g f).1 ≡ g.store
  finish_store cached g (some e) = refl
  finish_store cached g none = by_options (options_for lib.specs cached g.store g.jobs g.sched [])
    where
      by_options : (q : Optioning) → (with_options g q).1 ≡ g.store
      by_options (sc, out, some e) = refl
      by_options (sc, out, none) = refl

  -- Whatever Grant returns, it changes the store by LeaseShards and ParkShard alone: a reachable store stays
  -- reachable.
  pub grant_work-Reachable :
      (a : Bytes) (req : WorkRequest) (now e : ℕ) (new : ℕ → ℕ) (sched : Sched) (s : Store)
      → Reachable s
      → Reachable (grant_work lib a req now e new sched s).1
  unfolding grant_work
  grant_work-Reachable a req now e new sched s h =
      let n = grant_size req now sched s in
      let leased = lease_shards a n e new s in
      let start = start_granting {M = M} (fleet now s sched) leased.0 in
      let g = grant_rows lib leased.1 start in
      subst Reachable (sym (finish_store req.cached g g.fault))
        ((rows_lem leased.1 start).reachable (Reachable.next h (Step.lease a n e new)))
