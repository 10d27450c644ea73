-- ===== src/Store/Shards.antt =====
-- coordinator/internal/store/store.go: inserting shards, and the transitions of a leased shard.
pub mod Valid
pub mod Transitions
pub mod Insert
pub mod Answered
use drsync.Prelude.{
  ℕ, ◌+◌, Bool, false, ◌&&◌, List, [], ◌∷◌, ◌++◌, Option, none, some, Bytes, ◌==◌, if◌then◌else◌,
  find_row, count_where, update_where,
}
use drsync.Model.States.{ShardState, ShardKind, is_shard_state, priority}
use drsync.Store.Schema.{Shard, ShardTable, Counters, Pass, Store, Error, Result, ok, err}
use drsync.Store.Triggers.{insert_row, update_shards}

-- NewShard. An empty `target_agent` is stored as NULL.
pub record NewShard : Type 0 where
  pub kind : ShardKind
  pub rel_path : Bytes
  pub payload : Bytes
  pub target_agent : Bytes

abbrev null_if_empty : Bytes → Option Bytes
null_if_empty [] = none
null_if_empty (b ∷ bs) = some (b ∷ bs)

unfoldable pub new_row : ℕ → ℕ → NewShard → Shard
new_row pass_id parent ns = record {
  id = 0;
  pass_id = pass_id;
  parent = parent;
  kind = ns.kind;
  rel_path = ns.rel_path;
  payload = ns.payload;
  prio = priority ns.kind;
  state = ShardState.queued;
  attempt = 0;
  lease_id = none;
  lease_agent = none;
  lease_expiry = none;
  result = none;
  error = none;
  target_agent = null_if_empty ns.target_agent;
}

-- insertShardsTx: the table and the ids assigned, in order.
unfoldable pub insert_shards : ℕ → ℕ → List NewShard → ShardTable → ShardTable × List ℕ
insert_shards pass_id parent [] t = (t, [])
insert_shards pass_id parent (ns ∷ rest) t =
    let (t', ids) = insert_shards pass_id parent rest (insert_row (new_row pass_id parent ns) t) in
    (t', t.next_id ∷ ids)

abbrev pub has_id : ℕ → Shard → Bool
has_id i r = i == r.id

abbrev pub is_state : ShardState → Shard → Bool
is_state s r = is_shard_state s r.state

abbrev pub holds_lease : Option ℕ → ℕ → Bool
holds_lease none l = false
holds_lease (some m) l = m == l

-- WHERE id = ? AND state = 'LEASED' AND lease_id = ?
abbrev pub is_held : ℕ → ℕ → Shard → Bool
is_held shard_id lease_id r =
    has_id shard_id r && (is_state ShardState.leased r && holds_lease r.lease_id lease_id)

abbrev pub coalesce : Option Bytes → Option Bytes → Option Bytes
coalesce none d = d
coalesce (some v) d = some v

-- UPDATE shards SET state = ?, result = COALESCE(?, result), error = COALESCE(NULLIF(?, ''), error),
-- lease_id = NULL
abbrev pub move_to : ShardState → Option Bytes → Bytes → Shard → Shard
move_to to result msg r = record r {
  state = to;
  lease_id = none;
  result = coalesce result r.result;
  error = coalesce (null_if_empty msg) r.error;
}

-- accumulatePassCountersTx
abbrev pub add_counters : Counters → Counters → Counters
add_counters c d = record {
  entries_walked = c.entries_walked + d.entries_walked;
  files_copied = c.files_copied + d.files_copied;
  bytes_copied = c.bytes_copied + d.bytes_copied;
  meta_fixed = c.meta_fixed + d.meta_fixed;
  orphans = c.orphans + d.orphans;
  errors = c.errors + d.errors;
  nlink_dup_files = c.nlink_dup_files + d.nlink_dup_files;
  nlink_dup_bytes = c.nlink_dup_bytes + d.nlink_dup_bytes;
  fidelity_exceptions = c.fidelity_exceptions + d.fidelity_exceptions;
  verify_ok = c.verify_ok + d.verify_ok;
  verify_fail = c.verify_fail + d.verify_fail;
  links_created = c.links_created + d.links_created;
  link_anchor_races = c.link_anchor_races + d.link_anchor_races;
  link_fallback = c.link_fallback + d.link_fallback;
  skipped_newer = c.skipped_newer + d.skipped_newer;
}

unfoldable pub accumulate : ℕ → Option Counters → List Pass → List Pass
accumulate pass_id none ps = ps
accumulate pass_id (some c) ps =
    update_where (λ p. pass_id == p.id) (λ p. record p { counters = add_counters p.counters c }) ps

-- shardTransition: the shard's UPDATE and the pass counters in one transaction.
unfoldable pub shard_transition :
    ℕ → ℕ → ShardState → Option Bytes → Bytes → ℕ → Option Counters → Store → Result Store
shard_transition shard_id lease_id to result msg pass_id counters s =
    if count_where (is_held shard_id lease_id) s.shards.rows == 0
    then err Error.lease_mismatch
    else ok (record s {
      shards = update_shards (is_held shard_id lease_id) (move_to to result msg) s.shards;
      passes = accumulate pass_id counters s.passes;
    })

-- CompleteShard
unfoldable pub complete_shard : ℕ → ℕ → ℕ → Option Bytes → Option Counters → Store → Result Store
unfolding shard_transition
complete_shard shard_id lease_id pass_id result counters =
    shard_transition shard_id lease_id ShardState.done result [] pass_id counters

-- RequeueShard
unfoldable pub requeue_shard : ℕ → ℕ → Bytes → Store → Result Store
unfolding shard_transition
requeue_shard shard_id lease_id msg =
    shard_transition shard_id lease_id ShardState.queued none msg 0 none

-- ReleaseShard
unfoldable pub release_shard : ℕ → ℕ → Store → Result Store
unfolding shard_transition
release_shard shard_id lease_id =
    shard_transition shard_id lease_id ShardState.queued none [] 0 none

-- ParkShard
unfoldable pub park_shard : ℕ → ℕ → Bytes → Store → Result Store
unfolding shard_transition
park_shard shard_id lease_id msg =
    shard_transition shard_id lease_id ShardState.parked none msg 0 none
