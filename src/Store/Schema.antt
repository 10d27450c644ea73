-- ===== src/Store/Schema.antt =====
-- coordinator/internal/store/store.go: the rows of the tables, and the store. The columns created_at,
-- updated_at, started_at, finished_at and running_since_ms, which no decision reads, are left out.
use drsync.Prelude.{ℕ, Bool, List, Option, Bytes}
use drsync.Model.States.{JobState, PassState, ShardState, ShardKind}

-- A row of `shards`. NULL columns are `none`; a NULL parent is 0, as every reader of it coalesces.
pub record Shard : Type 0 where
  pub id : ℕ
  pub pass_id : ℕ
  pub parent : ℕ
  pub kind : ShardKind
  pub rel_path : Bytes
  pub payload : Bytes
  pub prio : ℕ
  pub state : ShardState
  pub attempt : ℕ
  pub lease_id : Option ℕ
  pub lease_agent : Option Bytes
  pub lease_expiry : Option ℕ
  pub result : Option Bytes
  pub error : Option Bytes
  pub target_agent : Option Bytes

-- A row of the rollup `shard_counts`.
pub record CountRow : Type 0 where
  pub pass_id : ℕ
  pub kind : ShardKind
  pub state : ShardState
  pub n : ℕ

-- `shards`, the rollup that its triggers keep, and the next AUTOINCREMENT id.
pub record ShardTable : Type 0 where
  pub rows : List Shard
  pub counts : List CountRow
  pub next_id : ℕ

pub record Job : Type 0 where
  pub id : ℕ
  pub name : Bytes
  pub spec_yaml : Bytes
  pub state : JobState
  pub dry_run : Bool

-- drsyncpb.ShardCounters, and the columns of `passes` that add them up.
pub record Counters : Type 0 where
  pub entries_walked : ℕ
  pub files_copied : ℕ
  pub bytes_copied : ℕ
  pub meta_fixed : ℕ
  pub orphans : ℕ
  pub errors : ℕ
  pub nlink_dup_files : ℕ
  pub nlink_dup_bytes : ℕ
  pub fidelity_exceptions : ℕ
  pub verify_ok : ℕ
  pub verify_fail : ℕ
  pub links_created : ℕ
  pub link_anchor_races : ℕ
  pub link_fallback : ℕ
  pub skipped_newer : ℕ

pub record Pass : Type 0 where
  pub id : ℕ
  pub job_id : ℕ
  pub pass_no : ℕ
  pub state : PassState
  pub counters : Counters
  pub shards_reaped : ℕ

pub record Agent : Type 0 where
  pub id : Bytes
  pub connected : Bool
  pub enabled : Bool

pub record Split : Type 0 where
  pub parent_shard_id : ℕ
  pub seq : ℕ
  pub assigned_ids : List ℕ

pub data GroupState : Type 0 where
  copying done aborted : GroupState

pub record ChunkGroup : Type 0 where
  pub pass_id : ℕ
  pub rel_path : Bytes
  pub temp_name : Bytes
  pub size : ℕ
  pub mtime_ns : ℕ
  pub n_chunks : ℕ
  pub n_done : ℕ
  pub state : GroupState

pub record DeleteGroup : Type 0 where
  pub pass_id : ℕ
  pub rel_path : Bytes
  pub n_total : ℕ
  pub n_done : ℕ
  pub done_streaming : Bool
  -- pending_children, which can go below 0, is the difference of these two
  pub pending_children : ℕ
  pub pending_dropped : ℕ
  pub closed : Bool

pub data AnchorState : Type 0 where
  pending copied fallback : AnchorState

pub record LinkGroup : Type 0 where
  pub pass_id : ℕ
  pub dev : ℕ
  pub ino : ℕ
  pub nlink_expected : ℕ
  pub members_seen : ℕ
  pub anchor_rel_path : Bytes
  pub anchor_size : ℕ
  pub anchor_mtime_ns : ℕ
  pub anchor_state : AnchorState

pub data MemberState : Type 0 where
  pending queued linked anchor : MemberState

pub record LinkMember : Type 0 where
  pub pass_id : ℕ
  pub dev : ℕ
  pub ino : ℕ
  pub rel_path : Bytes
  pub state : MemberState

-- `next_job` and `next_pass` are the AUTOINCREMENT ids of the next rows of `jobs` and `passes`.
pub record Store : Type 0 where
  pub jobs : List Job
  pub next_job : ℕ
  pub passes : List Pass
  pub next_pass : ℕ
  pub shards : ShardTable
  pub agents : List Agent
  pub splits : List Split
  pub chunk_groups : List ChunkGroup
  pub delete_groups : List DeleteGroup
  pub link_groups : List LinkGroup
  pub link_members : List LinkMember

pub data Error : Type 0 where
  lease_mismatch : Error
  not_parked : Error
  job_active : Error
  no_rows : Error
  -- a UNIQUE constraint of the tables
  not_unique : Error
  spec_invalid : Error
  -- DestinationConflictError: the other job's name
  destination_conflict : Bytes → Error
  wrong_state : Error
  pass_active : Error
  no_pass : Error
  no_orphans : Error
  journal_unreadable : Error

pub data Result {ℓ} (A : Type ℓ) : Type ℓ where
  ok : A → Result A
  err : Error → Result A
