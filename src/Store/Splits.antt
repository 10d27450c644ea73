-- ===== src/Store/Splits.antt =====
-- coordinator/internal/store/store.go: RecordSplit, which records the work that an agent hands back
-- while it walks, and the sightings of hard links.
pub mod Again
pub mod Valid
use drsync.Prelude.{
  ℕ, suc, ◌+◌, Bool, true, false, ◌&&◌, not, List, [], ◌∷◌, ◌++◌, Option, none, some, Bytes,
  bytes_eq, ◌==◌, ltb, if◌then◌else◌, find_row, count_where, update_where, is_some,
}
use drsync.Store.Schema.{
  Shard, Counters, Pass, Split, ChunkGroup, GroupState, DeleteGroup, LinkGroup, AnchorState,
  LinkMember, MemberState, Store, Result, ok, err,
}
use drsync.Store.Shards.{NewShard, insert_shards, has_id}
use drsync.Store.Chunks.{is_chunk_group}
use drsync.Store.DeleteGroups.{ancestors, is_delete_group, open_group, with_groups, close_if}

-- NewChunkGroup
pub record NewChunkGroup : Type 0 where
  pub rel_path : Bytes
  pub temp_name : Bytes
  pub size : ℕ
  pub mtime_ns : ℕ
  pub n_chunks : ℕ

-- NewLinkSighting
pub record NewLinkSighting : Type 0 where
  pub dev : ℕ
  pub ino : ℕ
  pub rel_path : Bytes
  pub nlink : ℕ
  pub size : ℕ
  pub mtime_ns : ℕ

-- DeleteGroupTotal; BuildCleanup, which is the same for all, is an argument of the functions.
pub record DeleteGroupTotal : Type 0 where
  pub dir_rel : Bytes
  pub last_batch : Bool
  pub no_self_cleanup : Bool

abbrev pub copying_group : ℕ → NewChunkGroup → ChunkGroup
copying_group pass_id g = record {
  pass_id = pass_id;
  rel_path = g.rel_path;
  temp_name = g.temp_name;
  size = g.size;
  mtime_ns = g.mtime_ns;
  n_chunks = g.n_chunks;
  n_done = 0;
  state = GroupState.copying;
}

-- INSERT OR IGNORE INTO chunk_groups, for each group.
unfoldable pub add_chunk_groups : ℕ → List NewChunkGroup → List ChunkGroup → List ChunkGroup
add_chunk_groups pass_id [] gs = gs
add_chunk_groups pass_id (n ∷ ns) gs = add_chunk_groups pass_id ns (
    if is_some (find_row (is_chunk_group pass_id n.rel_path) gs)
    then gs
    else gs ++ copying_group pass_id n ∷ [])

abbrev pub is_link_group : ℕ → NewLinkSighting → LinkGroup → Bool
is_link_group pass_id sg g = (g.pass_id == pass_id) && ((g.dev == sg.dev) && (g.ino == sg.ino))

abbrev pub is_member_of : ℕ → NewLinkSighting → LinkMember → Bool
is_member_of pass_id sg m = (m.pass_id == pass_id) && ((m.dev == sg.dev) && (m.ino == sg.ino))

abbrev pub anchor_group : ℕ → NewLinkSighting → LinkGroup
anchor_group pass_id sg = record {
  pass_id = pass_id;
  dev = sg.dev;
  ino = sg.ino;
  nlink_expected = sg.nlink;
  members_seen = 0;
  anchor_rel_path = sg.rel_path;
  anchor_size = sg.size;
  anchor_mtime_ns = sg.mtime_ns;
  anchor_state = AnchorState.copied;
}

abbrev pub link_member : ℕ → NewLinkSighting → MemberState → LinkMember
link_member pass_id sg st = record {
  pass_id = pass_id;
  dev = sg.dev;
  ino = sg.ino;
  rel_path = sg.rel_path;
  state = st;
}

-- INSERT OR IGNORE INTO link_members
abbrev pub add_member : ℕ → NewLinkSighting → MemberState → List LinkMember → List LinkMember
add_member pass_id sg st ms =
    if is_some (
      find_row (λ (m : LinkMember). is_member_of pass_id sg m && bytes_eq m.rel_path sg.rel_path)
        ms)
    then ms
    else ms ++ link_member pass_id sg st ∷ []

abbrev pub is_fallback : AnchorState → Bool
is_fallback AnchorState.fallback = true
is_fallback _ = false

abbrev pub see_members : ℕ → Bool → LinkGroup → LinkGroup
see_members seen fallback g = record g {
  members_seen = seen;
  anchor_state = if fallback then AnchorState.fallback else g.anchor_state;
}

abbrev pub add_fallback : Pass → Pass
add_fallback p = record p {
  counters = record p.counters { link_fallback = suc p.counters.link_fallback };
}

-- From the COUNT on: the group's row, and the cost signal of the pass when the group falls back.
abbrev pub weigh_group : ℕ → ℕ → NewLinkSighting → Store → Store
weigh_group pass_id max_group_scan sg s =
    let seen = count_where (is_member_of pass_id sg) s.link_members in
    let fallback = ltb 0 max_group_scan && ltb max_group_scan seen in
    let again =
      count_where (λ (g : LinkGroup). is_link_group pass_id sg g && is_fallback g.anchor_state)
        s.link_groups in
    record s {
      link_groups =
          update_where (is_link_group pass_id sg) (see_members seen fallback) s.link_groups;
      passes =
          if fallback && (again == 0)
          then update_where (λ (p : Pass). p.id == pass_id) add_fallback s.passes
          else s.passes;
    }

abbrev pub record_sighting : ℕ → ℕ → NewLinkSighting → Store → Store
record_sighting pass_id max_group_scan sg s = weigh_group pass_id max_group_scan sg (
    if is_some (find_row (is_link_group pass_id sg) s.link_groups)
    then record s { link_members = add_member pass_id sg MemberState.pending s.link_members }
    else record s {
      link_groups = s.link_groups ++ anchor_group pass_id sg ∷ [];
      link_members = add_member pass_id sg MemberState.anchor s.link_members;
    })

-- recordLinkSightingsTx
unfoldable pub record_sightings : ℕ → ℕ → List NewLinkSighting → Store → Store
record_sightings pass_id max_group_scan [] s = s
record_sightings pass_id max_group_scan (sg ∷ sgs) s =
    record_sightings pass_id max_group_scan sgs (record_sighting pass_id max_group_scan sg s)

-- SET n_total = n_total + 1, and done_streaming = 1 for the last batch.
abbrev pub add_total : Bool → DeleteGroup → DeleteGroup
add_total last g = record g {
  n_total = suc g.n_total;
  done_streaming = if last then true else g.done_streaming;
}

-- The UPDATE … RETURNING of one total, on the row that the INSERT OR IGNORE made sure of.
abbrev pub total_counted :
    (Bytes → NewShard) → ℕ → DeleteGroupTotal → Store → Option DeleteGroup → Store
total_counted build pass_id dt s none = s
total_counted build pass_id dt s (some g) =
    close_if build pass_id dt.dir_rel (not dt.no_self_cleanup) (build dt.dir_rel)
      (add_total dt.last_batch g)
      (with_groups
        (update_where (is_delete_group pass_id dt.dir_rel) (add_total dt.last_batch)
          s.delete_groups)
        s)

abbrev pub record_total : (Bytes → NewShard) → ℕ → DeleteGroupTotal → Store → Store
record_total build pass_id dt s =
    let opened = with_groups (open_group pass_id dt.dir_rel s.delete_groups) s in
    total_counted build pass_id dt opened
      (find_row (is_delete_group pass_id dt.dir_rel) opened.delete_groups)

unfoldable pub record_totals : (Bytes → NewShard) → ℕ → List DeleteGroupTotal → Store → Store
record_totals build pass_id [] s = s
record_totals build pass_id (dt ∷ dts) s =
    record_totals build pass_id dts (record_total build pass_id dt s)

abbrev pub is_split : ℕ → ℕ → Split → Bool
is_split parent seq p = (p.parent_shard_id == parent) && (p.seq == seq)

-- What a ShardSplit carries, as RecordSplit takes it.
pub record SplitWork : Type 0 where
  pub shards : List NewShard
  pub groups : List NewChunkGroup
  pub sightings : List NewLinkSighting
  pub max_group_scan : ℕ
  pub totals : List DeleteGroupTotal

-- The transaction up to the INSERT INTO splits.
unfoldable pub write_work : (Bytes → NewShard) → ℕ → ℕ → SplitWork → Store → Store
write_work build parent pass_id w s = record_totals build pass_id w.totals (
    record_sightings pass_id w.max_group_scan w.sightings (record s {
      shards = (insert_shards pass_id parent w.shards s.shards).0;
      chunk_groups = add_chunk_groups pass_id w.groups s.chunk_groups;
    }))

abbrev pub new_split : ℕ → ℕ → List ℕ → Split
new_split parent seq ids = record { parent_shard_id = parent; seq = seq; assigned_ids = ids }

abbrev pub write_split :
    (Bytes → NewShard) → ℕ → ℕ → SplitWork → Store → Option Shard → Store × List ℕ
write_split build parent seq w s none = (s, [])
write_split build parent seq w s (some r) =
    let ids = (insert_shards r.pass_id parent w.shards s.shards).1 in
    let written = write_work build parent r.pass_id w s in
    (record written { splits = written.splits ++ new_split parent seq ids ∷ [] }, ids)

abbrev pub split_or_known :
    (Bytes → NewShard) → ℕ → ℕ → SplitWork → Store → Option Split → Store × List ℕ
split_or_known build parent seq w s (some p) = (s, p.assigned_ids)
split_or_known build parent seq w s none =
    write_split build parent seq w s (find_row (has_id parent) s.shards.rows)

-- RecordSplit: the store, and the ids assigned.
unfoldable pub record_split : (Bytes → NewShard) → ℕ → ℕ → SplitWork → Store → Store × List ℕ
record_split build parent seq w s =
    split_or_known build parent seq w s (find_row (is_split parent seq) s.splits)
