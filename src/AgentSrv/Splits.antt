-- ===== src/AgentSrv/Splits.antt =====
-- coordinator/internal/agentsrv/server.go: onShardSplit and planLinkSightings.
pub mod Assigned
use drsync.Prelude.{
  ℕ, Bool, true, false, not, List, [], ◌∷◌, ◌++◌, Option, none, some, Bytes, bytes, bytes_eq, ltb,
  if◌then◌else◌, map,
}
use drsync.Model.States.{ShardKind}
use drsync.Store.Schema.{Pass, Store}
use drsync.Store.Shards.{NewShard}
use drsync.Store.Splits.{NewChunkGroup, NewLinkSighting, DeleteGroupTotal, SplitWork, record_split}
use drsync.Scheduler.Policy.{SpecLib, JobPolicy, Lookup, Sched, job_policy}
use drsync.AgentSrv.Messages.{Codec, Fault, delete_cleanup_shard}
use drsync.AgentSrv.BigFiles.{BigFile, Plan, shard_job_pass, policy_fault, plan_big_files}

pub record EntryList : Type 0 where
  pub dir_rel : Bytes
  pub names : List Bytes

pub record DeleteRemainder : Type 0 where
  pub dir_rel : Bytes
  pub names : List Bytes
  pub total_children : ℕ

-- ShardSplit; a sighting is as the store takes it.
pub record ShardSplit : Type 0 where
  pub parent_shard_id : ℕ
  pub seq : ℕ
  pub subdirs : List Bytes
  pub delete_subdirs : List Bytes
  pub entry_lists : List EntryList
  pub delete_remainders : List DeleteRemainder
  pub big_files : List BigFile
  pub link_sightings : List NewLinkSighting

abbrev pub shard_of : ShardKind → Bytes → Bytes → NewShard
shard_of kind rel payload = record {
  kind = kind;
  rel_path = rel;
  payload = payload;
  target_agent = [];
}

-- The loop over the entry lists; a name of a directory that is not UTF-8 fails to marshal.
abbrev pub add_list : Bytes → Option Bytes → Option (List NewShard) → Option (List NewShard)
add_list dir none rest = none
add_list dir (some payload) none = none
add_list dir (some payload) (some rest) = some (shard_of ShardKind.entry_list dir payload ∷ rest)

unfoldable pub entry_shards : Codec → List EntryList → Option (List NewShard)
entry_shards c [] = some []
entry_shards c (el ∷ els) =
    add_list el.dir_rel (c.marshal_entries el.dir_rel el.names) (entry_shards c els)

abbrev pub remainder_shard : Codec → DeleteRemainder → NewShard
remainder_shard c dr =
    shard_of ShardKind.delete dr.dir_rel
      (c.marshal_batch (map (λ name. dr.dir_rel ++ (bytes "/" ++ name)) dr.names))

abbrev pub handoff_total : Bytes → DeleteGroupTotal
handoff_total d = record { dir_rel = d; last_batch = true; no_self_cleanup = true }

abbrev pub remainder_total : DeleteRemainder → DeleteGroupTotal
remainder_total dr = record {
  dir_rel = dr.dir_rel;
  last_batch = ltb 0 dr.total_children;
  no_self_cleanup = false;
}

-- deleteTotals
abbrev pub totals_of : ShardSplit → List DeleteGroupTotal
totals_of sp = map handoff_total sp.delete_subdirs ++ map remainder_total sp.delete_remainders

-- `shards` before the big files.
abbrev pub tree_shards : Codec → ShardSplit → List NewShard → List NewShard
tree_shards c sp lists =
    map (λ d. shard_of ShardKind.dir d []) sp.subdirs
    ++ (map (λ d. shard_of ShardKind.delete d (c.marshal_batch (d ∷ []))) sp.delete_subdirs
        ++ (lists ++ map (remainder_shard c) sp.delete_remainders))

abbrev pub sightings_with :
    List NewLinkSighting → Sched × Lookup → Sched × Plan (List NewLinkSighting × ℕ)
sightings_with wire (sched, Lookup.missing e) = (sched, policy_fault e)
sightings_with wire (sched, Lookup.found pol) =
    if bytes_eq pol.hardlinks (bytes "preserve")
    then (sched, Plan.planned (wire, pol.max_grp_scan))
    else (sched, Plan.planned ([], 0))

abbrev pub sightings_in :
    SpecLib
    → List NewLinkSighting
    → Sched
    → Store
    → Option Pass
    → Sched × Plan (List NewLinkSighting × ℕ)
sightings_in lib wire sched s none = (sched, Plan.gone)
sightings_in lib wire sched s (some p) = sightings_with wire (job_policy lib sched s p.job_id)

-- planLinkSightings
unfoldable pub plan_link_sightings :
    SpecLib → ℕ → List NewLinkSighting → Sched → Store → Sched × Plan (List NewLinkSighting × ℕ)
plan_link_sightings lib parent [] sched s = (sched, Plan.planned ([], 0))
plan_link_sightings lib parent (w ∷ ws) sched s =
    sightings_in lib (w ∷ ws) sched s (shard_job_pass parent s)

-- The plan of the big files, which is skipped where there are none.
unfoldable pub plan_files_of :
    SpecLib
    → Codec
    → (ℕ → Bytes)
    → ℕ
    → List BigFile
    → Sched
    → Store
    → Sched × Plan (List NewShard × List NewChunkGroup)
plan_files_of lib c hex parent [] sched s = (sched, Plan.planned ([], []))
plan_files_of lib c hex parent (b ∷ bs) sched s = plan_big_files lib c hex parent (b ∷ bs) sched s

-- The acknowledgement with the assigned ids, or an error, which closes the session.
pub data Reply : Type 0 where
  ack : List ℕ → Reply
  closed : Fault → Reply

abbrev pub SplitResult : Type 0
SplitResult = Sched × Store × Reply

abbrev pub acknowledge : Sched → Store × List ℕ → SplitResult
acknowledge sched (s, ids) = (sched, s, Reply.ack ids)

abbrev pub record_plan :
    Codec
    → ShardSplit
    → List NewShard
    → List NewChunkGroup
    → Store
    → Sched × Plan (List NewLinkSighting × ℕ)
    → SplitResult
record_plan c sp shards groups s (sched, Plan.gone) = (sched, s, Reply.ack [])
record_plan c sp shards groups s (sched, Plan.failed f) = (sched, s, Reply.closed f)
record_plan c sp shards groups s (sched, Plan.planned (sightings, scan)) = acknowledge sched (
    record_split (delete_cleanup_shard c) sp.parent_shard_id sp.seq
      (record {
        shards = shards;
        groups = groups;
        sightings = sightings;
        max_group_scan = scan;
        totals = totals_of sp;
      })
      s)

abbrev pub with_files :
    SpecLib
    → Codec
    → ShardSplit
    → List NewShard
    → Store
    → Sched × Plan (List NewShard × List NewChunkGroup)
    → SplitResult
with_files lib c sp shards s (sched, Plan.gone) = (sched, s, Reply.ack [])
with_files lib c sp shards s (sched, Plan.failed f) = (sched, s, Reply.closed f)
with_files lib c sp shards s (sched, Plan.planned (chunks, groups)) =
    record_plan c sp (shards ++ chunks) groups s
      (plan_link_sightings lib sp.parent_shard_id sp.link_sightings sched s)

abbrev pub with_lists :
    SpecLib
    → Codec
    → (ℕ → Bytes)
    → ShardSplit
    → Sched
    → Store
    → Option (List NewShard)
    → SplitResult
with_lists lib c hex sp sched s none = (sched, s, Reply.closed Fault.codec)
with_lists lib c hex sp sched s (some lists) =
    with_files lib c sp (tree_shards c sp lists) s
      (plan_files_of lib c hex sp.parent_shard_id sp.big_files sched s)

-- onShardSplit
unfoldable pub on_shard_split :
    SpecLib → Codec → (ℕ → Bytes) → ShardSplit → Sched → Store → SplitResult
on_shard_split lib c hex sp sched s =
    with_lists lib c hex sp sched s (entry_shards c sp.entry_lists)
