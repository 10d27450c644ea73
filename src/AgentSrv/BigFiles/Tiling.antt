-- ===== src/AgentSrv/BigFiles/Tiling.antt =====
-- coordinator/internal/agentsrv/server.go, planBigFiles: the offsets and lengths of the chunks of a file.
use native.Mathlib.Nat.{mul-le-mul_left, mul_comm, zero-mul}
use drsync.Prelude.{
  ℕ, zero, suc, ◌+◌, ◌-◌, ◌*◌, ◌/◌, ◌%◌, ◌^◌, ◌≤◌, ◌<◌, ◌≡◌, refl, sym, ap, subst, ◌∙◌, false, List,
  [], ◌∷◌, Option, none, some, Bytes, length, length-append, All, arith, ltb, leb, ◌==◌, ◌||◌,
  if◌then◌else◌, min,
}
use drsync.Store.Shards.{NewShard}
use drsync.Store.Splits.{NewChunkGroup}
use drsync.Scheduler.Shares.{ceil_covers}
use drsync.AgentSrv.Messages.{FileGen, ChunkTask, Codec}
use drsync.AgentSrv.BigFiles.{
  BigFile, n_chunks_of, chunk_task, chunk_tasks, chunk_shards, add_shard, add_file, group_of,
  Planned, plan_files,
}

-- The chunks lie end to end from an offset to the end of the file.
abbrev pub Tiles : ℕ → List ChunkTask → ℕ → Type 0
Tiles off [] size = off ≡ size
Tiles off (t ∷ ts) size = (t.offset ≡ off) × Tiles (off + t.length) ts size

-- A chunk is of the file's generation and no longer than a chunk may be, and the one at offset 0 creates
-- the temp.
abbrev pub IsChunkOf : Bytes → FileGen → ℕ → ChunkTask → Type 0
IsChunkOf rel gen chunk_size t =
    (t.rel_path ≡ rel)
    × (t.gen ≡ gen)
    × (t.length ≤ chunk_size)
    × (t.create_temp ≡ (t.offset == 0))
    × (t.finalize ≡ false)

length-chunk_tasks :
    (rel temp : Bytes) (gen : FileGen) (cs count c : ℕ)
    → length (chunk_tasks rel temp gen cs count c) ≡ count
unfolding chunk_tasks
length-chunk_tasks rel temp gen cs zero c = refl
length-chunk_tasks rel temp gen cs (suc count) c =
    ap suc (length-chunk_tasks rel temp gen cs count (suc c))

chunks_fit :
    (size cs n : ℕ)
    → 0 < cs
    → size < 2 ^ 63
    → size ≤ cs * n
    → cs * n < size + cs
    → (m : ℕ) × ((if n == 0 || leb (2 ^ 63) n then 1 else n) ≡ suc m)
      × (m * cs ≤ size)
      × (size ≤ m * cs + cs)
chunks_fit size cs zero p h lo hi = (0, refl, omega arith, omega arith)
chunks_fit size cs (suc m) p h lo hi =
    let small = mul-le-mul_left m p in
    (
      m,
      ground (arith, small, mul_comm m cs),
      omega (arith, mul_comm m cs),
      omega (arith, mul_comm m cs),
    )

no_wrap :
    (size cs : ℕ)
    → 0 < cs
    → size < 2 ^ 63
    → cs < 2 ^ 63
    → (size + cs + 2 ^ 64 - 1) % 2 ^ 64 ≡ size + cs - 1
no_wrap size cs p h k = omega arith

n_chunks_lem :
    (size cs : ℕ)
    → 0 < cs
    → size < 2 ^ 63
    → cs < 2 ^ 63
    → (m : ℕ) × (n_chunks_of size cs ≡ suc m) × (m * cs ≤ size) × (size ≤ m * cs + cs)
unfolding n_chunks_of
n_chunks_lem size cs p h k =
    let c = ceil_covers size cs p in
    rw (no_wrap size cs p h k) (chunks_fit size cs ((size + cs - 1) / cs) p h c.0 c.1)

-- The offset and the length, of an offset that does not wrap.
length_lem :
    (size cs off : ℕ)
    → off ≤ size
    → size < 2 ^ 63
    → cs < 2 ^ 63
    → (off % 2 ^ 64 ≡ off)
      × (off
            + (if ltb size ((off % 2 ^ 64 + cs) % 2 ^ 64)
                then (size + 2 ^ 64 - off % 2 ^ 64) % 2 ^ 64
                else cs)
          ≡ min (off + cs) size)
      × ((if ltb size ((off % 2 ^ 64 + cs) % 2 ^ 64)
            then (size + 2 ^ 64 - off % 2 ^ 64) % 2 ^ 64
            else cs)
          ≤ cs)
length_lem size cs off h k l = (omega arith, ground arith, ground arith)

zero_product : (c cs : ℕ) → 0 < cs → (c == 0) ≡ (c * cs == 0)
zero_product zero cs p = ground (arith, zero-mul cs)
zero_product (suc c) cs p = ground arith

task_lem :
    (rel temp : Bytes) (gen : FileGen) (cs c : ℕ)
    → 0 < cs
    → c * cs ≤ gen.size
    → gen.size < 2 ^ 63
    → cs < 2 ^ 63
    → ((chunk_task rel temp gen cs c).offset ≡ c * cs)
      × (c * cs + (chunk_task rel temp gen cs c).length ≡ min (c * cs + cs) gen.size)
      × IsChunkOf rel gen cs (chunk_task rel temp gen cs c)
unfolding chunk_task
task_lem rel temp gen cs c p h k l =
    let w = length_lem gen.size cs (c * cs) h k l in
    (w.0, w.1, (refl, refl, w.2, zero_product c cs p ∙ ap (λ x. x == 0) (sym w.0), refl))

next_min : (off cs size : ℕ) → off ≤ size → min off size ≡ off
next_min off cs size h = omega arith

Tiles-from :
    (rel temp : Bytes) (gen : FileGen) (cs m count c : ℕ)
    → 0 < cs
    → c + count ≡ suc m
    → m * cs ≤ gen.size
    → gen.size ≤ m * cs + cs
    → gen.size < 2 ^ 63
    → cs < 2 ^ 63
    → Tiles (min (c * cs) gen.size) (chunk_tasks rel temp gen cs count c) gen.size
      × All (IsChunkOf rel gen cs) (chunk_tasks rel temp gen cs count c)
unfolding chunk_tasks
Tiles-from rel temp gen cs m zero c p e lo hi h k =
    let q : c ≡ suc m = omega arith in (rw q (omega (arith, hi)), tt)
Tiles-from rel temp gen cs m (suc count) c p e lo hi h k =
    let le : c ≤ m = omega arith in
    let s = mul-le-mul_left cs le in
    let off : c * cs ≤ gen.size = omega (arith, s, mul_comm c cs, mul_comm m cs) in
    let t = task_lem rel temp gen cs c p off h k in
    let ih = Tiles-from rel temp gen cs m count (suc c) p (omega arith) lo hi h k in
    let now : min (c * cs) gen.size ≡ c * cs = omega arith in
    let further : min (c * cs) gen.size + (chunk_task rel temp gen cs c).length
        ≡ min (suc c * cs) gen.size =
      omega (arith, t.1) in
    ((t.0 ∙ sym now, rw further ih.0), (t.2, ih.1))

first : (size cs : ℕ) → min (0 * cs) size ≡ 0
first size cs = omega (arith, zero-mul cs)

-- The chunks that planBigFiles makes of a file cover it exactly: as many as the group counts, they lie end to
-- end from offset 0 to its size, none longer than the chunk size, each of the file's size and mtime, and
-- the one at offset 0, alone, creates the temp. The file and the chunk size are below 2 ^ 63, and the
-- chunk size is not 0.
pub chunk_tasks_tile :
    (rel temp : Bytes) (gen : FileGen) (cs : ℕ)
    → 0 < cs
    → gen.size < 2 ^ 63
    → cs < 2 ^ 63
    → Tiles 0 (chunk_tasks rel temp gen cs (n_chunks_of gen.size cs) 0) gen.size
      × All (IsChunkOf rel gen cs) (chunk_tasks rel temp gen cs (n_chunks_of gen.size cs) 0)
      × (length (chunk_tasks rel temp gen cs (n_chunks_of gen.size cs) 0) ≡ n_chunks_of gen.size cs)
chunk_tasks_tile rel temp gen cs p h k =
    let n = n_chunks_lem gen.size cs p h k in
    let t =
      Tiles-from rel temp gen cs n.0 (n_chunks_of gen.size cs) 0 p (omega (arith, n.1)) n.2 n.3 h
        k in
    (
      subst (λ x. Tiles x (chunk_tasks rel temp gen cs (n_chunks_of gen.size cs) 0) gen.size)
          (first gen.size cs) t.0,
      t.1,
      length-chunk_tasks rel temp gen cs (n_chunks_of gen.size cs) 0,
    )

-- What the groups count together.
abbrev pub total_chunks : List NewChunkGroup → ℕ
total_chunks [] = 0
total_chunks (g ∷ gs) = g.n_chunks + total_chunks gs

length-chunk_shards :
    (c : Codec) (rel : Bytes) (ts : List ChunkTask) (shards : List NewShard)
    → chunk_shards c rel ts ≡ some shards
    → length shards ≡ length ts
unfolding chunk_shards
length-chunk_shards c rel [] shards h = ground arith
length-chunk_shards c rel (t ∷ ts) shards h =
    by_rest (c.marshal_chunk t) (chunk_shards c rel ts) (length-chunk_shards c rel ts) h
  where
    by_rest :
        (o : Option Bytes) (rest : Option (List NewShard))
        → ((more : List NewShard) → rest ≡ some more → length more ≡ length ts)
        → add_shard rel o rest ≡ some shards
        → length shards ≡ suc (length ts)
    by_rest none rest f e = cc
    by_rest (some payload) none f e = cc
    by_rest (some payload) (some more) f e = ground (arith, f more refl)

-- A plan makes as many chunk shards as its groups wait for.
pub plan_files_counted :
    (c : Codec) (name : ℕ → Bytes) (cs i : ℕ) (bfs : List BigFile) (shards : List NewShard)
    (groups : List NewChunkGroup)
    → plan_files c name cs i bfs ≡ some (shards, groups)
    → length shards ≡ total_chunks groups
unfolding plan_files
plan_files_counted c name cs i [] shards groups h = ground arith
plan_files_counted c name cs i (bf ∷ bfs) shards groups h =
    let gen : FileGen = record { size = bf.size; mtime_ns = bf.mtime_ns } in
    let n = n_chunks_of bf.size cs in
    by_rest (chunk_shards c bf.rel_path (chunk_tasks bf.rel_path (name i) gen cs n 0))
      (plan_files c name cs (suc i) bfs)
      (λ s e.
        length-chunk_shards c bf.rel_path (chunk_tasks bf.rel_path (name i) gen cs n 0) s e
        ∙ length-chunk_tasks bf.rel_path (name i) gen cs n 0)
      (plan_files_counted c name cs (suc i) bfs) h
  where
    by_rest :
        (o : Option (List NewShard)) (rest : Planned)
        → ((s : List NewShard) → o ≡ some s → length s ≡ n_chunks_of bf.size cs)
        → ((s : List NewShard) (g : List NewChunkGroup)
            → rest ≡ some (s, g)
            → length s ≡ total_chunks g)
        → add_file (group_of bf (name i) (n_chunks_of bf.size cs)) o rest ≡ some (shards, groups)
        → length shards ≡ total_chunks groups
    by_rest none rest f g e = cc
    by_rest (some s) none f g e = cc
    by_rest (some s) (some (more, gs)) f g e =
        ground (arith, f s refl, g more gs refl, length-append s more)
