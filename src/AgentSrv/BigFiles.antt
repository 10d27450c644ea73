-- ===== src/AgentSrv/BigFiles.antt =====
-- coordinator/internal/agentsrv/server.go, planBigFiles: the chunks of large files. uint64 sums wrap
-- modulo 2 ^ 64; the loop over the chunks of a file is split into their tasks and the marshalling of them.
pub mod Tiling
use drsync.Prelude.{
  ℕ, zero, suc, ◌+◌, ◌-◌, ◌*◌, ◌/◌, ◌%◌, ◌^◌, Bool, true, false, ◌||◌, List, [], ◌∷◌, ◌++◌, Option,
  none, some, Bytes, bytes, ◌==◌, ltb, leb, if◌then◌else◌, find_row,
}
use drsync.Model.States.{ShardKind}
use drsync.Model.Spec.Options.{JobOptions}
use drsync.Store.Schema.{Shard, Pass, Store, Error}
use drsync.Store.Shards.{NewShard, has_id}
use drsync.Store.Splits.{NewChunkGroup}
use drsync.Scheduler.Policy.{SpecLib, JobPolicy, PolicyError, Lookup, Sched, job_policy}
use drsync.Scheduler.Grant.{is_pass}
use drsync.AgentSrv.Messages.{FileGen, ChunkTask, Codec, Fault}

-- ShardSplit_BigFile
pub record BigFile : Type 0 where
  pub rel_path : Bytes
  pub size : ℕ
  pub mtime_ns : ℕ

-- nChunks: an int that the conversion makes negative, or 0, counts as 1.
unfoldable pub n_chunks_of : ℕ → ℕ → ℕ
n_chunks_of size chunk_size =
    let n = (size + chunk_size + 2 ^ 64 - 1) % 2 ^ 64 / chunk_size in
    if n == 0 || leb (2 ^ 63) n then 1 else n

-- The body of the loop over the chunks.
unfoldable pub chunk_task : Bytes → Bytes → FileGen → ℕ → ℕ → ChunkTask
chunk_task rel temp gen chunk_size c =
    let off = c * chunk_size % 2 ^ 64 in
    record {
      rel_path = rel;
      offset = off;
      length =
          if ltb gen.size ((off + chunk_size) % 2 ^ 64)
          then (gen.size + 2 ^ 64 - off) % 2 ^ 64
          else chunk_size;
      gen = gen;
      create_temp = c == 0;
      temp_name = temp;
      finalize = false;
      reclaim = false;
    }

-- The tasks of `count` chunks from the c-th on.
unfoldable pub chunk_tasks : Bytes → Bytes → FileGen → ℕ → ℕ → ℕ → List ChunkTask
chunk_tasks rel temp gen chunk_size zero c = []
chunk_tasks rel temp gen chunk_size (suc count) c =
    chunk_task rel temp gen chunk_size c ∷ chunk_tasks rel temp gen chunk_size count (suc c)

abbrev pub add_shard : Bytes → Option Bytes → Option (List NewShard) → Option (List NewShard)
add_shard rel none rest = none
add_shard rel (some payload) none = none
add_shard rel (some payload) (some rest) =
    some (
      record { kind = ShardKind.chunk; rel_path = rel; payload = payload; target_agent = [] }
      ∷ rest)

unfoldable pub chunk_shards : Codec → Bytes → List ChunkTask → Option (List NewShard)
chunk_shards c rel [] = some []
chunk_shards c rel (t ∷ ts) = add_shard rel (c.marshal_chunk t) (chunk_shards c rel ts)

-- fmt.Sprintf("%s%x-%x.%x.%x", …); `hex` is the verb %x.
abbrev pub temp_name_of : (ℕ → Bytes) → Bytes → ℕ → ℕ → ℕ → ℕ → Bytes
temp_name_of hex prefix job pass_no parent i =
    prefix
    ++ (hex job
        ++ (bytes "-" ++ (hex pass_no ++ (bytes "." ++ (hex parent ++ (bytes "." ++ hex i))))))

abbrev pub group_of : BigFile → Bytes → ℕ → NewChunkGroup
group_of bf temp n = record {
  rel_path = bf.rel_path;
  temp_name = temp;
  size = bf.size;
  mtime_ns = bf.mtime_ns;
  n_chunks = n;
}

abbrev pub Planned : Type 0
Planned = Option (List NewShard × List NewChunkGroup)

abbrev pub add_file : NewChunkGroup → Option (List NewShard) → Planned → Planned
add_file g none rest = none
add_file g (some shards) none = none
add_file g (some shards) (some (more, groups)) = some (shards ++ more, g ∷ groups)

-- The loop over the files, from the i-th on; `name` gives the temp name of the i-th.
unfoldable pub plan_files : Codec → (ℕ → Bytes) → ℕ → ℕ → List BigFile → Planned
plan_files c name chunk_size i [] = some ([], [])
plan_files c name chunk_size i (bf ∷ bfs) =
    let n = n_chunks_of bf.size chunk_size in
    let tasks =
      chunk_tasks bf.rel_path (name i) (record { size = bf.size; mtime_ns = bf.mtime_ns })
        chunk_size n 0 in
    add_file (group_of bf (name i) n) (chunk_shards c bf.rel_path tasks)
      (plan_files c name chunk_size (suc i) bfs)

-- ShardJobPass
unfoldable pub shard_job_pass : ℕ → Store → Option Pass
shard_job_pass shard_id s = elim (find_row (has_id shard_id) s.shards.rows) [
  | none ↦ none
  | some r ↦ find_row (is_pass r.pass_id) s.passes
]

-- A plan, the parent gone (sql.ErrNoRows), or another error.
pub data Plan (A : Type 0) : Type 0 where
  planned : A → Plan A
  gone : Plan A
  failed : Fault → Plan A

-- sql.ErrNoRows of the job's row counts as a parent that is gone.
abbrev pub policy_fault : {A : Type 0} → PolicyError → Plan A
policy_fault PolicyError.no_job = Plan.gone
policy_fault e = Plan.failed (Fault.policy e)

abbrev pub plan_of : Planned → Plan (List NewShard × List NewChunkGroup)
plan_of none = Plan.failed Fault.codec
plan_of (some p) = Plan.planned p

abbrev pub or_default_prefix : Bytes → Bytes
or_default_prefix [] = bytes ".drsync.tmp."
or_default_prefix (b ∷ bs) = b ∷ bs

-- planBigFiles from the options on.
abbrev pub plan_with :
    Codec
    → (ℕ → Bytes)
    → ℕ
    → Pass
    → List BigFile
    → Sched × Lookup
    → Sched × Plan (List NewShard × List NewChunkGroup)
plan_with c hex parent p bigs (sched, Lookup.missing e) = (sched, policy_fault e)
plan_with c hex parent p bigs (sched, Lookup.found pol) =
    if pol.opts.copy.chunk_size == 0 then (sched, Plan.failed Fault.chunk_size_zero) else (
      sched,
      plan_of (
          plan_files c
            (temp_name_of hex (or_default_prefix pol.opts.copy.temp_prefix) p.job_id p.pass_no
              parent)
            pol.opts.copy.chunk_size 0 bigs),
    )

abbrev pub plan_in_pass :
    SpecLib
    → Codec
    → (ℕ → Bytes)
    → ℕ
    → List BigFile
    → Sched
    → Store
    → Option Pass
    → Sched × Plan (List NewShard × List NewChunkGroup)
plan_in_pass lib c hex parent bigs sched s none = (sched, Plan.gone)
plan_in_pass lib c hex parent bigs sched s (some p) =
    plan_with c hex parent p bigs (job_policy lib sched s p.job_id)

-- planBigFiles
unfoldable pub plan_big_files :
    SpecLib
    → Codec
    → (ℕ → Bytes)
    → ℕ
    → List BigFile
    → Sched
    → Store
    → Sched × Plan (List NewShard × List NewChunkGroup)
plan_big_files lib c hex parent bigs sched s =
    plan_in_pass lib c hex parent bigs sched s (shard_job_pass parent s)
