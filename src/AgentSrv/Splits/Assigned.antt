-- ===== src/AgentSrv/Splits/Assigned.antt =====
-- coordinator/internal/agentsrv/server.go, onShardSplit: the answers to a split.
use drsync.Prelude.{
  ℕ, ◌≡◌, refl, sym, ap, subst, List, [], ◌++◌, Option, none, some, Bytes, inl, inr, ◌⊎◌,
}
use drsync.Store.Schema.{Store}
use drsync.Store.Shards.{NewShard}
use drsync.Store.Splits.{NewChunkGroup, NewLinkSighting, SplitWork, record_split}
use drsync.Store.Reachable.{Step, Reachable}
use drsync.Scheduler.Policy.{SpecLib, Sched}
use drsync.AgentSrv.Messages.{Codec, Fault, delete_cleanup_shard}
use drsync.AgentSrv.BigFiles.{Plan}
use drsync.AgentSrv.Splits.{
  ShardSplit, Reply, SplitResult, tree_shards, totals_of, entry_shards, record_plan, with_files,
  with_lists, plan_files_of, plan_link_sightings, on_shard_split,
}

-- What onShardSplit may come to: the store as it was, or one RecordSplit whose ids are acknowledged.
abbrev Recorded : Codec → ShardSplit → Store → SplitResult → Type 0
Recorded c sp s (sched, s', Reply.closed f) = s' ≡ s
Recorded c sp s (sched, s', Reply.ack ids) =
    ((s' ≡ s) × (ids ≡ []))
    ⊎ ((w : SplitWork) × ((s', ids)
          ≡ record_split (delete_cleanup_shard c) sp.parent_shard_id sp.seq w s)
        × (w.totals ≡ totals_of sp))

record_plan-Recorded :
    (c : Codec) (sp : ShardSplit) (shards : List NewShard) (groups : List NewChunkGroup) (s : Store)
    (q : Sched × Plan (List NewLinkSighting × ℕ))
    → Recorded c sp s (record_plan c sp shards groups s q)
record_plan-Recorded c sp shards groups s (sched, Plan.gone) = inl (refl, refl)
record_plan-Recorded c sp shards groups s (sched, Plan.failed f) = refl
record_plan-Recorded c sp shards groups s (sched, Plan.planned (sightings, scan)) = inr (
  record {
    shards = shards;
    groups = groups;
    sightings = sightings;
    max_group_scan = scan;
    totals = totals_of sp;
  },
  refl,
  refl,
)

module _ (lib : SpecLib) (c : Codec) (hex : ℕ → Bytes) (sp : ShardSplit) (sched : Sched)
    (s : Store) where
  with_files-Recorded :
      (shards : List NewShard) (q : Sched × Plan (List NewShard × List NewChunkGroup))
      → Recorded c sp s (with_files lib c sp shards s q)
  with_files-Recorded shards (sc, Plan.gone) = inl (refl, refl)
  with_files-Recorded shards (sc, Plan.failed f) = refl
  with_files-Recorded shards (sc, Plan.planned (chunks, groups)) =
      record_plan-Recorded c sp (shards ++ chunks) groups s
        (plan_link_sightings lib sp.parent_shard_id sp.link_sightings sc s)

  on_shard_split-Recorded : Recorded c sp s (on_shard_split lib c hex sp sched s)
  unfolding on_shard_split
  on_shard_split-Recorded = by_lists (entry_shards c sp.entry_lists)
    where
      by_lists : (o : Option (List NewShard)) → Recorded c sp s (with_lists lib c hex sp sched s o)
      by_lists none = refl
      by_lists (some lists) =
          with_files-Recorded (tree_shards c sp lists)
            (plan_files_of lib c hex sp.parent_shard_id sp.big_files sched s)

  -- A split changes the store by one RecordSplit or not at all, an error included: a reachable store
  -- stays reachable.
  pub on_shard_split-Reachable : Reachable s → Reachable (on_shard_split lib c hex sp sched s).1
  on_shard_split-Reachable r =
      by_reply (on_shard_split lib c hex sp sched s) on_shard_split-Recorded
    where
      by_reply : (q : SplitResult) → Recorded c sp s q → Reachable q.1
      by_reply (sc, s', Reply.closed f) e = subst Reachable (sym e) r
      by_reply (sc, s', Reply.ack ids) (inl (e, n)) = subst Reachable (sym e) r
      by_reply (sc, s', Reply.ack ids) (inr (w, e, t)) =
          subst Reachable (sym (ap (λ p. p.0) e))
            (Reachable.next r (Step.split (delete_cleanup_shard c) sp.parent_shard_id sp.seq w))

  -- A split that is refused, for a payload that does not marshal, a spec that does not resolve or a chunk
  -- size of 0, leaves no part of it in the store.
  pub refused_split_whole :
      (f : Fault)
      → (on_shard_split lib c hex sp sched s).2 ≡ Reply.closed f
      → (on_shard_split lib c hex sp sched s).1 ≡ s
  refused_split_whole f h = by_reply (on_shard_split lib c hex sp sched s) on_shard_split-Recorded h
    where
      by_reply : (q : SplitResult) → Recorded c sp s q → q.2 ≡ Reply.closed f → q.1 ≡ s
      by_reply (sc, s', Reply.closed g) e h₁ = e
      by_reply (sc, s', Reply.ack ids) e h₁ = cc
