-- ===== src/PassCtrl/Seeds.antt =====
-- coordinator/internal/passctrl/passctrl.go: the shards that a phase is seeded with, from the pass
-- journal (coordinator/internal/journal/reader.go) and from the store.
pub mod Order
use drsync.Prelude.{
  ℕ, ◌*◌, ◌%◌, ◌^◌, Bool, true, false, ◌&&◌, ◌||◌, List, [], ◌∷◌, Option, none, some, Bytes, bytes,
  bytes_eq, ◌==◌, ltb, if◌then◌else◌, map, select, find_row, update_where, foldl,
}
use Prim.Native.Nat.{bit_xor}
use drsync.Model.States.{ShardKind}
use drsync.Store.Schema.{
  ChunkGroup, GroupState, LinkGroup, LinkMember, AnchorState, MemberState, Pass, Store, Error,
  Result, ok, err,
}
use drsync.Store.Shards.{NewShard, insert_shards}
use drsync.PassCtrl.Batches.{fill_batches, batches, deepest_first}
use drsync.Model.Spec.{JobSpec, sample_ppm}
use drsync.Model.Spec.Validate.{accepted_spec, parse_spec}

-- drsyncpb.JournalRecord: the types and the fields that are read here.
pub data RecordType : Type 0 where
  copied meta_fixed dir_meta orphan other : RecordType

pub record FileMeta : Type 0 where
  pub uid : ℕ
  pub gid : ℕ
  pub mode : ℕ
  pub atime_ns : ℕ
  pub mtime_ns : ℕ

pub record JournalRecord : Type 0 where
  pub type : RecordType
  pub rel_path : Bytes
  pub src : Option FileMeta

pub record DirMeta : Type 0 where
  pub rel_path : Bytes
  pub attrs : FileMeta

pub record VerifyEntry : Type 0 where
  pub rel_path : Bytes
  pub checksum : Bool

pub record LinkEntry : Type 0 where
  pub anchor_rel : Bytes
  pub member_rel : Bytes
  pub size : ℕ
  pub mtime_ns : ℕ

-- What is not the repository's own: the YAML decoder under ParseSpec, what a pass
-- journal reads as (the records up to the first failure, and whether there was none), and proto.Marshal
-- of each payload.
pub record Env : Type 0 where
  pub decode : Bytes → Option JobSpec
  pub journal : ℕ → ℕ → List JournalRecord × Bool
  pub marshal_reclaim : Bytes → Bytes → Bytes
  pub marshal_dirs : List DirMeta → Bytes
  pub marshal_links : ℕ → ℕ → List LinkEntry → Bytes
  pub marshal_verify : List VerifyEntry → Bytes
  pub marshal_delete : List Bytes → Bytes

-- ParseSpec, where the error is not looked at
unfoldable pub spec_of : Env → Bytes → Option JobSpec
spec_of env spec_yaml = accepted_spec (parse_spec env.decode spec_yaml)

-- deleteBatchSize, verifyBatchSize, dirfixBatchSize, linkfixBatchSize
abbrev pub delete_batch_size : ℕ
delete_batch_size = 1000

abbrev pub verify_batch_size : ℕ
verify_batch_size = 500

abbrev pub dirfix_batch_size : ℕ
dirfix_batch_size = 1000

abbrev pub linkfix_batch_size : ℕ
linkfix_batch_size = 2000

abbrev pub new_shard : ShardKind → Bytes → Bytes → NewShard
new_shard k rel_path payload = record {
  kind = k;
  rel_path = rel_path;
  payload = payload;
  target_agent = [];
}

unfoldable pub add_shards : ℕ → List NewShard → Store → Store
add_shards pass_id news s = record s { shards = (insert_shards pass_id 0 news s.shards).0 }

abbrev is_unfinalized : GroupState → Bool
is_unfinalized GroupState.done = false
is_unfinalized _ = true

-- UnfinalizedChunkTemps
unfoldable pub unfinalized_chunk_temps : ℕ → Store → List ChunkGroup
unfinalized_chunk_temps pass_id s =
    select (λ (g : ChunkGroup). (g.pass_id == pass_id) && is_unfinalized g.state) s.chunk_groups

-- seedTempReclaim
unfoldable pub seed_temp_reclaim : Env → ℕ → Store → Store
seed_temp_reclaim env pass_id s =
    add_shards pass_id
      (map
        (λ (g : ChunkGroup).
          new_shard ShardKind.chunk g.rel_path (env.marshal_reclaim g.rel_path g.temp_name))
        (unfinalized_chunk_temps pass_id s))
      s

-- The filter of seedDirfix.
unfoldable pub dir_metas : List JournalRecord → List DirMeta
dir_metas [] = []
dir_metas (r ∷ rs) = let rest = dir_metas rs in dir_meta_of r.type r.src r.rel_path rest
  where
    dir_meta_of : RecordType → Option FileMeta → Bytes → List DirMeta → List DirMeta
    dir_meta_of RecordType.dir_meta (some m) p rest = record { rel_path = p; attrs = m } ∷ rest
    dir_meta_of _ _ p rest = rest

dirfix_shard : Env → List DirMeta → NewShard
dirfix_shard env batch =
    new_shard ShardKind.dirfix []
      (env.marshal_dirs (deepest_first (λ (d : DirMeta). d.rel_path) batch))

-- What a seeder that streams the journal inserts: every batch if the journal reads to its end, and
-- only the batches flushed before the failure if not.
abbrev pub streamed {ℓ} : {A : Type ℓ} → ℕ → List A → Bool → List (List A)
streamed k xs true = batches k xs
streamed k xs false = (fill_batches k [] xs).0

abbrev pub read_result : Bool → Result (Unit {0})
read_result true = ok tt
read_result false = err Error.journal_unreadable

-- seedDirfix
unfoldable pub seed_dirfix : Env → ℕ → Pass → Store → Store × Result (Unit {0})
unfolding dirfix_shard
seed_dirfix env job_id pass s =
    let j = env.journal job_id pass.pass_no in
    (
      add_shards pass.id (map (dirfix_shard env) (streamed dirfix_batch_size (dir_metas j.0) j.1))
          s,
      read_result j.1,
    )

-- hash/fnv, New64a
unfoldable pub fnv64a : Bytes → ℕ
fnv64a s = foldl (λ (h b : ℕ). (bit_xor h b * 1099511628211) % 2 ^ 64) 14695981039346656037 s

-- The callback of seedVerify, with `firstCopied` as an argument.
unfoldable pub verify_entries : ℕ → Bool → List JournalRecord → List VerifyEntry
verify_entries ppm first [] = []
verify_entries ppm first (r ∷ rs) = elim r.type [
  | copied ↦
      record {
        rel_path = r.rel_path;
        checksum = ltb (fnv64a r.rel_path % 1000000) ppm || (first && ltb 0 ppm);
      }
      ∷ verify_entries ppm false rs
  | meta_fixed ↦ record { rel_path = r.rel_path; checksum = false } ∷ verify_entries ppm first rs
  | _ ↦ verify_entries ppm first rs
]

verify_shard : Env → List VerifyEntry → NewShard
verify_shard env batch = new_shard ShardKind.verify [] (env.marshal_verify batch)

unfoldable pub verify_pass : Env → JobSpec → ℕ → Pass → Store → Store × Result (Unit {0})
unfolding verify_shard
verify_pass env spec job_id pass s =
    let j = env.journal job_id pass.pass_no in
    (
      add_shards pass.id
          (map (verify_shard env) (
            streamed verify_batch_size
              (verify_entries (sample_ppm spec.verify.sample_rate) true j.0) j.1))
          s,
      read_result j.1,
    )

-- seedVerify
unfoldable pub seed_verify : Env → Bytes → ℕ → Pass → Store → Store × Result (Unit {0})
seed_verify env spec_yaml job_id pass s = elim (spec_of env spec_yaml) [
  | none ↦ (s, err Error.spec_invalid)
  | some spec ↦
      if bytes_eq spec.verify.mode (bytes "off")
      then (s, ok tt)
      else verify_pass env spec job_id pass s
]

abbrev is_pending_member : ℕ → LinkMember → Bool
is_pending_member pass_id m = (m.pass_id == pass_id) && is_pending m.state
  where
    is_pending : MemberState → Bool
    is_pending MemberState.pending = true
    is_pending _ = false

abbrev is_copied : AnchorState → Bool
is_copied AnchorState.copied = true
is_copied _ = false

-- The JOIN's condition, with `anchor_state = 'copied'`.
abbrev is_copied_group_of : LinkMember → LinkGroup → Bool
is_copied_group_of m g =
    (g.pass_id == m.pass_id) && ((g.dev == m.dev) && ((g.ino == m.ino) && is_copied g.anchor_state))

abbrev join_member :
    LinkMember → Option LinkGroup → List (LinkMember × LinkEntry) → List (LinkMember × LinkEntry)
join_member m none rest = rest
join_member m (some g) rest =
    (
      m,
      record {
        anchor_rel = g.anchor_rel_path;
        member_rel = m.rel_path;
        size = g.anchor_size;
        mtime_ns = g.anchor_mtime_ns;
      },
    )
    ∷ rest

-- PendingLinkMembers, with the entry that seedLinkfix makes of each; (pass_id, dev, ino) is the key of
-- link_groups, so a member joins one group at most.
unfoldable pub pending_link_members :
    ℕ → List LinkGroup → List LinkMember → List (LinkMember × LinkEntry)
pending_link_members pass_id groups [] = []
pending_link_members pass_id groups (m ∷ ms) =
    let rest = pending_link_members pass_id groups ms in
    if is_pending_member pass_id m
    then join_member m (find_row (is_copied_group_of m) groups) rest
    else rest

abbrev is_member : LinkMember → LinkMember → Bool
is_member k m = (m.dev == k.dev) && ((m.ino == k.ino) && bytes_eq m.rel_path k.rel_path)

abbrev queue_member : LinkMember → LinkMember
queue_member m = record m { state = MemberState.queued }

-- MarkLinkMembersQueued
unfoldable pub mark_link_members_queued : ℕ → List LinkMember → List LinkMember → List LinkMember
mark_link_members_queued pass_id [] ms = ms
mark_link_members_queued pass_id (k ∷ ks) ms = mark_link_members_queued pass_id ks (
    update_where (λ (m : LinkMember). is_pending_member pass_id m && is_member k m) queue_member ms)

-- `flush` of seedLinkfix, on each batch in turn.
unfoldable pub link_batches : Env → Pass → List (List (LinkMember × LinkEntry)) → Store → Store
link_batches env pass [] s = s
link_batches env pass (b ∷ bs) s =
    let inserted =
      add_shards pass.id
        (new_shard ShardKind.linkfix [] (
            env.marshal_links pass.job_id pass.pass_no
              (map (λ (e : LinkMember × LinkEntry). e.1) b))
          ∷ [])
        s in
    link_batches env pass bs (record inserted {
      link_members =
          mark_link_members_queued pass.id (map (λ (e : LinkMember × LinkEntry). e.0) b)
            inserted.link_members;
    })

-- seedLinkfix
unfoldable pub seed_linkfix : Env → Pass → Store → Store
seed_linkfix env pass s =
    link_batches env pass
      (batches linkfix_batch_size (pending_link_members pass.id s.link_groups s.link_members)) s

-- Go's order of strings: by the first byte that differs, the shorter one first.
unfoldable pub bytes_lt : Bytes → Bytes → Bool
bytes_lt s [] = false
bytes_lt [] (c ∷ t) = true
bytes_lt (b ∷ s) (c ∷ t) =
    let rest = bytes_lt s t in if ltb b c then true else if b == c then rest else false

-- A path put into the sorted set of those seen.
unfoldable pub put_path : Bytes → List Bytes → List Bytes
put_path p [] = p ∷ []
put_path p (q ∷ qs) =
    let rest = put_path p qs in
    if bytes_eq p q then q ∷ qs else if bytes_lt p q then p ∷ q ∷ qs else q ∷ rest

-- Orphans (coordinator/internal/journal/reader.go): each orphan once, sorted.
unfoldable pub orphan_paths : List JournalRecord → List Bytes
orphan_paths [] = []
orphan_paths (r ∷ rs) = elim r.type [
  | orphan ↦ put_path r.rel_path (orphan_paths rs)
  | _ ↦ orphan_paths rs
]

delete_shard : Env → List Bytes → NewShard
delete_shard env batch = new_shard ShardKind.delete [] (env.marshal_delete batch)

-- The batches of seedDeletePass: deepest first over all of the orphans.
unfoldable pub delete_batches : List JournalRecord → List (List Bytes)
delete_batches rs = batches delete_batch_size (deepest_first (λ p. p) (orphan_paths rs))

unfoldable pub delete_shards : Env → List JournalRecord → List NewShard
unfolding delete_shard
delete_shards env rs = map (delete_shard env) (delete_batches rs)
