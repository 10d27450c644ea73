-- ===== src/Examples/SplitRuns.antt =====
-- A file copied in two chunks, and a split that is sent twice.
use drsync.Prelude.{ℕ, ◌≡◌, List, [], ◌∷◌, Option, none, some, bytes}
use drsync.Model.States.{ShardState, ShardKind}
use drsync.Store.Schema.{Shard, ChunkGroup, GroupState, Store}
use drsync.Store.Shards.{NewShard}
use drsync.Store.Splits.{SplitWork, record_split}
use drsync.Store.Splits.Again.{record_split_again}

abbrev chunk_shard : NewShard
chunk_shard = record {
  kind = ShardKind.chunk;
  rel_path = bytes "f";
  payload = [];
  target_agent = [];
}

abbrev leased_row : ℕ → ℕ → Shard
leased_row i lease = record {
  id = i;
  pass_id = 1;
  parent = 0;
  kind = ShardKind.chunk;
  rel_path = bytes "f";
  payload = [];
  prio = 10;
  state = ShardState.leased;
  attempt = 1;
  lease_id = some lease;
  lease_agent = some (bytes "a");
  lease_expiry = some 1000;
  result = none;
  error = none;
  target_agent = none;
}

abbrev group : ChunkGroup
group = record {
  pass_id = 1;
  rel_path = bytes "f";
  temp_name = bytes "t";
  size = 9;
  mtime_ns = 0;
  n_chunks = 2;
  n_done = 0;
  state = GroupState.copying;
}

abbrev copying : Store
copying = record {
  jobs = [];
  next_job = 1;
  passes = [];
  next_pass = 1;
  shards = record {
    rows = leased_row 1 10 ∷ leased_row 2 20 ∷ [];
    counts = record { pass_id = 1; kind = ShardKind.chunk; state = ShardState.leased; n = 2 } ∷ [];
    next_id = 3;
  };
  agents = [];
  splits = [];
  chunk_groups = group ∷ [];
  delete_groups = [];
  link_groups = [];
  link_members = [];
}

abbrev both : List (ℕ × ℕ)
both = (2, 20) ∷ (1, 10) ∷ []

abbrev store_of : Option (Store × ℕ) → Store
store_of none = copying
store_of (some r) = r.0

abbrev work : SplitWork
work = record {
  shards = chunk_shard ∷ [];
  groups = [];
  sightings = [];
  max_group_scan = 0;
  totals = [];
}

record_split_again_example :
    record_split (λ p. chunk_shard) 1 7 work (record_split (λ p. chunk_shard) 1 7 work copying).0
    ≡ record_split (λ p. chunk_shard) 1 7 work copying
record_split_again_example = record_split_again (λ p. chunk_shard) 1 7 work work copying
