-- ===== src/Scheduler/Grant/Equipped.antt =====
-- coordinator/internal/scheduler/scheduler.go, Grant: the items of a grant and the options of their jobs.
use drsync.Prelude.{
  ℕ, ◌≡◌, refl, sym, subst, true, List, [], ◌∷◌, Option, none, some, Bytes, ◌==◌, ==_refl, eq_of_==,
  inl, inr, arith, find_row, All, All-append, All-weaken, Bool-cases,
}
use drsync.Model.States.{ShardKind}
use drsync.Store.Schema.{Shard, Pass, Store}
use drsync.Store.Shards.{park_shard, shard_transition}
use drsync.Store.Lease.{lease_shards}
use drsync.Store.Sweep.{contains_id}
use drsync.Scheduler.Spread.{WalkOverrides}
use drsync.Scheduler.Policy.{PolicyError, Lookup, Sched, resolve_policy, job_policy}
use drsync.Scheduler.Policy.Coherent.{IsCoherent, Entry, job_policy_fresh}
use drsync.Scheduler.Grant.{
  GrantLib, is_pass, WorkItem, WorkGrant, WorkRequest, Granting, Granted, fleet, grant_size,
  with_message, build_item, or_kept, lease_of, unbuildable, need_options, add_or_park, grant_row,
  grant_joined, unless_failed, grant_rows, start_granting, Optioning, options_for, with_options,
  finish_grant, grant_work,
}
use drsync.Scheduler.Grant.Options.{Equipped, Done, options_for-Done}

contains-need_options_self : (j : ℕ) (js : List ℕ) → contains_id (need_options j js) j ≡ true
unfolding contains_id
contains-need_options_self j js = elim (Bool-cases (contains_id js j)) [
  | inl t ↦ rw t t
  | inr f ↦ rw f (ground (arith, ==_refl j))
]

contains-need_options :
    (j k : ℕ) (js : List ℕ) → contains_id js k ≡ true → contains_id (need_options j js) k ≡ true
unfolding contains_id
contains-need_options j k js h = elim (Bool-cases (contains_id js j)) [
  | inl t ↦ rw t h
  | inr f ↦ rw f (ground (arith, h))
]

All-contains : (P : ℕ → Type 0) (js : List ℕ) (k : ℕ) → All P js → contains_id js k ≡ true → P k
unfolding contains_id
All-contains P [] k p h = cc
All-contains P (j ∷ js) k p h = elim (Bool-cases (j == k)) [
  | inl t ↦ subst P (eq_of_== j k t) p.0
  | inr f ↦ All-contains P js k p.1 (ground (arith, h))
]

module _ {M : Type 0} (lib : GrantLib M) where
  -- The job of an item is among those that need options.
  abbrev Listed : List ℕ → WorkItem M → Type 0
  Listed jobs it = contains_id jobs it.job_id ≡ true

  -- The loop's invariant.
  record Sound (g : Granting M) : Type 0 where
    listed : All (Listed g.jobs) g.items
    coherent : IsCoherent lib.specs g.store g.sched

  job_of_message :
      (p : Pass) (ov : Option WalkOverrides) (r : Shard) (m : Option M) (it : WorkItem M)
      → with_message r p ov m ≡ some it
      → it.job_id ≡ p.job_id
  job_of_message p ov r none it h = cc
  job_of_message p ov r (some m) it h = cc

  job_of_built :
      (p : Pass) (ov : Option WalkOverrides) (k : ShardKind) (r : Shard) (it : WorkItem M)
      → build_item lib p ov k r ≡ some it
      → it.job_id ≡ p.job_id
  unfolding build_item
  job_of_built p ov ShardKind.dir r it h = cc
  job_of_built p ov ShardKind.probe r it h = cc
  job_of_built p ov ShardKind.reaped r it h = cc
  job_of_built p ov ShardKind.entry_list r it h = job_of_message p ov r _ it h
  job_of_built p ov ShardKind.chunk r it h = job_of_message p none r _ it h
  job_of_built p ov ShardKind.dirfix r it h = job_of_message p none r _ it h
  job_of_built p ov ShardKind.verify r it h = job_of_message p none r _ it h
  job_of_built p ov ShardKind.delete r it h = job_of_message p none r _ it h
  job_of_built p ov ShardKind.linkfix r it h = job_of_message p none r _ it h

  jobs-park : (i l : ℕ) (msg : Bytes) (s : Store) → (or_kept s (park_shard i l msg s)).jobs ≡ s.jobs
  unfolding park_shard shard_transition
  jobs-park i l msg s = ground arith

  IsCoherent-jobs :
      (s s' : Store) (sc : Sched)
      → s'.jobs ≡ s.jobs
      → IsCoherent lib.specs s sc
      → IsCoherent lib.specs s' sc
  unfolding resolve_policy
  IsCoherent-jobs s s' sc e h =
      All-weaken (Entry lib.specs s) (Entry lib.specs s') (λ x q. rw e q) sc.policies h

  add_or_park-Sound :
      (r : Shard) (p : Pass) (g : Granting M) (o : Option (WorkItem M))
      → ((it : WorkItem M) → o ≡ some it → it.job_id ≡ p.job_id)
      → Sound g
      → Sound (add_or_park lib r p g o)
  add_or_park-Sound r p g (some it) f h = record {
    listed =
        All-append (Listed (need_options p.job_id g.jobs)) g.items (it ∷ [])
          (All-weaken (Listed g.jobs) (Listed (need_options p.job_id g.jobs))
            (λ x q. contains-need_options p.job_id x.job_id g.jobs q) g.items h.listed)
          (
            subst (λ j. contains_id (need_options p.job_id g.jobs) j ≡ true) (sym (f it refl))
                (contains-need_options_self p.job_id g.jobs),
            tt,
          );
    coherent = h.coherent;
  }
  add_or_park-Sound r p g none f h = record {
    listed = h.listed;
    coherent =
        IsCoherent-jobs g.store _ g.sched
          (jobs-park r.id (lease_of r.lease_id) (unbuildable lib r) g.store) h.coherent;
  }

  grant_row-Sound :
      (r : Shard) (p : Pass) (g : Granting M)
      → Sound g
      → Sound (grant_row lib r p g (job_policy lib.specs g.sched g.store p.job_id))
  grant_row-Sound r p g h =
      by_lookup (job_policy lib.specs g.sched g.store p.job_id)
        (job_policy_fresh lib.specs g.store g.sched p.job_id h.coherent).1
    where
      by_lookup :
          (q : Sched × Lookup) → IsCoherent lib.specs g.store q.0 → Sound (grant_row lib r p g q)
      by_lookup (sc, Lookup.missing e) c = record { listed = h.listed; coherent = c }
      by_lookup (sc, Lookup.found pol) c =
          add_or_park-Sound r p (record g { sched = sc }) _ (λ it e. job_of_built p _ r.kind r it e)
            (record { listed = h.listed; coherent = c })

  grant_rows-Sound : (rs : List Shard) (g : Granting M) → Sound g → Sound (grant_rows lib rs g)
  unfolding grant_rows
  grant_rows-Sound [] g h = h
  grant_rows-Sound (r ∷ rs) g h =
      let o = find_row (is_pass r.pass_id) g.store.passes in
      let n = joined o in
      by_fault (grant_joined lib r g o) (grant_joined lib r g o).fault n
        (grant_rows-Sound rs (grant_joined lib r g o) n)
    where
      joined : (o : Option Pass) → Sound (grant_joined lib r g o)
      joined none = h
      joined (some p) = grant_row-Sound r p g h

      by_fault :
          (next : Granting M) (f : Option PolicyError)
          → Sound next
          → Sound (grant_rows lib rs next)
          → Sound (unless_failed lib f next (grant_rows lib rs next))
      by_fault next (some e) a b = a
      by_fault next none a b = b

  jobs-lease_shards :
      (a : Bytes) (n e : ℕ) (new : ℕ → ℕ) (s : Store) → (lease_shards a n e new s).0.jobs ≡ s.jobs
  unfolding lease_shards
  jobs-lease_shards a n e new s = ground arith

  policies-fleet : (now : ℕ) (s : Store) (sc : Sched) → (fleet now s sc).policies ≡ sc.policies
  unfolding fleet
  policies-fleet now s sc = ground arith

  start-Sound :
      (now : ℕ) (s s' : Store) (sc : Sched)
      → s'.jobs ≡ s.jobs
      → IsCoherent lib.specs s sc
      → Sound (start_granting (fleet now s sc) s')
  start-Sound now s s' sc e h = record {
    listed = tt;
    coherent =
        IsCoherent-jobs s s' (fleet now s sc) e
          (subst (All (Entry lib.specs s)) (sym (policies-fleet now s sc)) h);
  }

  finish-Equipped :
      (cached : List (ℕ × ℕ)) (g : Granting M) (sched' : Sched) (s' : Store) (wg : WorkGrant M)
      → Sound g
      → finish_grant lib.specs cached g g.fault ≡ (sched', s', Granted.grant wg)
      → All (λ it. Equipped lib.specs s' cached wg.options it.job_id) wg.items
  finish-Equipped cached g sched' s' wg w h = by_fault g.fault h
    where
      by_options :
          (q : Optioning)
          → Done lib.specs cached g.store g.jobs [] q
          → with_options g q ≡ (sched', s', Granted.grant wg)
          → All (λ it. Equipped lib.specs s' cached wg.options it.job_id) wg.items
      by_options (sc, out, some e) d h₁ = cc
      by_options (sc, out, none) d h₁ =
          let es : g.store ≡ s' = cc in
          let ei : g.items ≡ wg.items = cc in
          let eo : out ≡ wg.options = cc in
          rw (sym es, sym ei, sym eo)
            (All-weaken (Listed g.jobs) (λ it. Equipped lib.specs g.store cached out it.job_id)
              (λ it q. All-contains (Equipped lib.specs g.store cached out) g.jobs it.job_id d.0 q)
              g.items w.listed)

      by_fault :
          (f : Option PolicyError)
          → finish_grant lib.specs cached g f ≡ (sched', s', Granted.grant wg)
          → All (λ it. Equipped lib.specs s' cached wg.options it.job_id) wg.items
      by_fault (some e) h₁ = cc
      by_fault none h₁ =
          by_options (options_for lib.specs cached g.store g.jobs g.sched [])
            (options_for-Done lib.specs cached g.store g.jobs g.sched [] w.coherent) h₁

  -- No item goes out without the options of its job: for each item of a grant, the agent named the hash
  -- of the options that the job's spec resolves to, or the grant carries these options, or their hash is
  -- 0. Every policy that is cached is the one that the spec in the store resolves to.
  pub grant_work-Equipped :
      (a : Bytes) (req : WorkRequest) (now e : ℕ) (new : ℕ → ℕ) (sched sched' : Sched)
      (s s' : Store) (wg : WorkGrant M)
      → IsCoherent lib.specs s sched
      → grant_work lib a req now e new sched s ≡ (sched', s', Granted.grant wg)
      → All (λ it. Equipped lib.specs s' req.cached wg.options it.job_id) wg.items
  unfolding grant_work
  grant_work-Equipped a req now e new sched sched' s s' wg c h =
      let leased = lease_shards a (grant_size req now sched s) e new s in
      let start = start_granting {M = M} (fleet now s sched) leased.0 in
      finish-Equipped req.cached (grant_rows lib leased.1 start) sched' s' wg
        (grant_rows-Sound leased.1 start (
          start-Sound now s leased.0 sched
            (jobs-lease_shards a (grant_size req now sched s) e new s) c))
        h
