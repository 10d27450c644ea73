-- ===== src/Scheduler/Grant/Rounds.antt =====
-- coordinator/internal/scheduler/scheduler.go, Grant: one round of the loop over the leased shards.
use drsync.Prelude.{
  ℕ, suc, ◌≤◌, ◌≡◌, ◌⊎◌, refl, Bool, true, false, ◌&&◌, [], ◌∷◌, Option, none, some, Bytes, ◌==◌,
  ==_refl, inl, inr, arith, count_where, count_where-append, count_where-update_where_le, length,
  length-append, Bool-cases,
}
use drsync.Model.States.{ShardState, ShardKind}
use drsync.Store.Schema.{Shard, Pass, Store, Result, ok, err}
use drsync.Store.Triggers.{update_shards}
use drsync.Store.Shards.{is_held, move_to, shard_transition, park_shard, accumulate}
use drsync.Store.Shards.Answered.{IsAnswered, update_shards-IsAnswered}
use drsync.Store.Reachable.{Step, Reachable}
use drsync.Scheduler.Spread.{WalkOverrides, walk_overrides}
use drsync.Scheduler.Policy.{Lookup, Sched}
use drsync.Scheduler.Grant.{
  GrantLib, WorkItem, Granting, with_message, item_of, build_item, or_kept, lease_of, unbuildable,
  add_or_park, grant_row,
}

-- Parking the shard of a lease, the error ignored.
park_or_kept-Reachable :
    (i l : ℕ) (msg : Bytes) (s : Store) → Reachable s → Reachable (or_kept s (park_shard i l msg s))
unfolding park_shard
park_or_kept-Reachable i l msg s r = by_result (park_shard i l msg s) refl
  where
    by_result : (q : Result Store) → park_shard i l msg s ≡ q → Reachable (or_kept s q)
    by_result (ok s') e =
        Reachable.next r (Step.transition i l ShardState.parked none msg 0 none (λ x. cc) e)
    by_result (err x) e = r

parked-IsAnswered :
    (i l : ℕ) (msg : Bytes) (s : Store) → IsAnswered i l (or_kept s (park_shard i l msg s)).shards
unfolding park_shard shard_transition
parked-IsAnswered i l msg s = elim (Bool-cases (count_where (is_held i l) s.shards.rows == 0)) [
  | inl t ↦ ground (arith, t)
  | inr f ↦
      rw f (update_shards-IsAnswered i l (move_to ShardState.parked none msg) s.shards (λ r. refl))
]

not_held :
    (j k : ℕ) (msg : Bytes) (r : Shard) → is_held j k (move_to ShardState.parked none msg r) ≡ false
not_held j k msg r = ground arith

-- Parking leaves an answered lease answered.
park_keeps-IsAnswered :
    (i l j k : ℕ) (msg : Bytes) (s : Store)
    → IsAnswered j k s.shards
    → IsAnswered j k (or_kept s (park_shard i l msg s)).shards
unfolding park_shard shard_transition update_shards
park_keeps-IsAnswered i l j k msg s h =
    elim (Bool-cases (count_where (is_held i l) s.shards.rows == 0)) [
      | inl t ↦ rw t h
      | inr f ↦ rw f (
          omega (
            arith,
            h,
            count_where-update_where_le (is_held j k) (is_held i l)
                (move_to ShardState.parked none msg) (λ (r : Shard). not_held j k msg r)
                s.shards.rows,
          ))
    ]

module _ {M : Type 0} (lib : GrantLib M) where
  -- The item of a leased shard: its id under its lease.
  abbrev pub is_item_of : Shard → WorkItem M → Bool
  is_item_of r it = (it.shard_id == r.id) && (lease_of it.lease_id == lease_of r.lease_id)

  -- A shard's kind has a payload, and the payload does not decode.
  abbrev pub Undecodable : ShardKind → Shard → Type 0
  Undecodable ShardKind.dir r = ⊥
  Undecodable ShardKind.probe r = ⊥
  Undecodable ShardKind.reaped r = Unit {0}
  Undecodable kind r = lib.unmarshal kind r.payload ≡ none

  -- A leased shard is granted, or does not decode and is no longer leased.
  abbrev pub Settled : Granting M → Shard → Type 0
  Settled g r =
      (1 ≤ count_where (is_item_of r) g.items)
      ⊎ (Undecodable r.kind r × IsAnswered r.id (lease_of r.lease_id) g.store.shards)

  -- What one round of the loop keeps and does.
  pub record Round (r : Shard) (g g' : Granting M) : Type 0 where
    pub reachable : Reachable g.store → Reachable g'.store
    pub passes : g'.store.passes ≡ g.store.passes
    pub grown : length g'.items ≤ suc (length g.items)
    pub kept : (x : Shard) → Settled g x → Settled g' x
    pub settled : g'.fault ≡ none → Settled g' r

  item_of_lem :
      (p : Pass) (ov : Option WalkOverrides) (r : Shard) (m : Option M) (it : WorkItem M)
      → some (item_of r p ov m) ≡ some it
      → is_item_of r it ≡ true
  item_of_lem p ov r m it h = ground (arith, ==_refl r.id, ==_refl (lease_of r.lease_id))

  with_message_lem :
      (p : Pass) (ov : Option WalkOverrides) (r : Shard) (m : Option M) (it : WorkItem M)
      → with_message r p ov m ≡ some it
      → is_item_of r it ≡ true
  with_message_lem p ov r none it h = cc
  with_message_lem p ov r (some m) it h = item_of_lem p ov r (some m) it h

  built_lem :
      (p : Pass) (ov : Option WalkOverrides) (k : ShardKind) (r : Shard) (it : WorkItem M)
      → build_item lib p ov k r ≡ some it
      → is_item_of r it ≡ true
  unfolding build_item
  built_lem p ov ShardKind.dir r it h = item_of_lem p ov r none it h
  built_lem p ov ShardKind.probe r it h = item_of_lem p none r none it h
  built_lem p ov ShardKind.reaped r it h = cc
  built_lem p ov ShardKind.entry_list r it h = with_message_lem p ov r _ it h
  built_lem p ov ShardKind.chunk r it h = with_message_lem p none r _ it h
  built_lem p ov ShardKind.dirfix r it h = with_message_lem p none r _ it h
  built_lem p ov ShardKind.verify r it h = with_message_lem p none r _ it h
  built_lem p ov ShardKind.delete r it h = with_message_lem p none r _ it h
  built_lem p ov ShardKind.linkfix r it h = with_message_lem p none r _ it h

  no_message :
      (p : Pass) (ov : Option WalkOverrides) (r : Shard) (m : Option M)
      → with_message r p ov m ≡ none
      → m ≡ none
  no_message p ov r none h = refl
  no_message p ov r (some m) h = cc

  unbuilt_lem :
      (p : Pass) (ov : Option WalkOverrides) (k : ShardKind) (r : Shard)
      → build_item lib p ov k r ≡ none
      → Undecodable k r
  unfolding build_item
  unbuilt_lem p ov ShardKind.dir r h = cc
  unbuilt_lem p ov ShardKind.probe r h = cc
  unbuilt_lem p ov ShardKind.reaped r h = tt
  unbuilt_lem p ov ShardKind.entry_list r h = no_message p ov r _ h
  unbuilt_lem p ov ShardKind.chunk r h = no_message p none r _ h
  unbuilt_lem p ov ShardKind.dirfix r h = no_message p none r _ h
  unbuilt_lem p ov ShardKind.verify r h = no_message p none r _ h
  unbuilt_lem p ov ShardKind.delete r h = no_message p none r _ h
  unbuilt_lem p ov ShardKind.linkfix r h = no_message p none r _ h

  park_passes :
      (i l : ℕ) (msg : Bytes) (s : Store) → (or_kept s (park_shard i l msg s)).passes ≡ s.passes
  unfolding park_shard shard_transition accumulate
  park_passes i l msg s = ground arith

  add_or_park-Round :
      (r : Shard) (p : Pass) (g : Granting M) (o : Option (WorkItem M))
      → ((it : WorkItem M) → o ≡ some it → is_item_of r it ≡ true)
      → (o ≡ none → Undecodable r.kind r)
      → Round r g (add_or_park lib r p g o)
  add_or_park-Round r p g (some it) f u = record {
    reachable = λ h. h;
    passes = refl;
    grown = omega (arith, length-append g.items (it ∷ []));
    kept = λ x h. keep_item x h;
    settled =
        λ e. inl (ground (arith, f it refl, count_where-append (is_item_of r) g.items (it ∷ [])));
  }
    where
      keep_item : (x : Shard) → Settled g x → Settled (add_or_park lib r p g (some it)) x
      keep_item x (inl h) =
          inl (omega (arith, h, count_where-append (is_item_of x) g.items (it ∷ [])))
      keep_item x (inr h) = inr h
  add_or_park-Round r p g none f u = record {
    reachable = park_or_kept-Reachable r.id (lease_of r.lease_id) (unbuildable lib r) g.store;
    passes = park_passes r.id (lease_of r.lease_id) (unbuildable lib r) g.store;
    grown = omega arith;
    kept = λ x h. keep_parked x h;
    settled =
        λ e. inr (u refl, parked-IsAnswered r.id (lease_of r.lease_id) (unbuildable lib r) g.store);
  }
    where
      keep_parked : (x : Shard) → Settled g x → Settled (add_or_park lib r p g none) x
      keep_parked x (inl h) = inl h
      keep_parked x (inr h) = inr (
        h.0,
        park_keeps-IsAnswered r.id (lease_of r.lease_id) x.id (lease_of x.lease_id)
            (unbuildable lib r) g.store h.1,
      )

  pub grant_row-Round :
      (r : Shard) (p : Pass) (g : Granting M) (q : Sched × Lookup)
      → Round r g (grant_row lib r p g q)
  grant_row-Round r p g (sched, Lookup.missing e) = record {
    reachable = λ h. h;
    passes = refl;
    grown = omega arith;
    kept = λ x h. h;
    settled = λ h. cc;
  }
  grant_row-Round r p g (sched, Lookup.found pol) =
      let ov =
        walk_overrides pol.spread pol.opts.tuning.dir_split_threshold sched.agents sched.counts in
      let w =
        add_or_park-Round r p (record g { sched = sched }) (build_item lib p ov r.kind r)
          (λ it e. built_lem p ov r.kind r it e) (λ e. unbuilt_lem p ov r.kind r e) in
      record {
        reachable = w.reachable;
        passes = w.passes;
        grown = w.grown;
        kept = w.kept;
        settled = w.settled;
      }
