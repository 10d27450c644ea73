-- ===== src/Model/Spec.antt =====
-- coordinator/internal/model/spec.go: the job spec and its defaults. A map of strings is an association
-- list and a `*bool` an option. The sample rate, a float64, is its exact value as a fraction, and NaN.
pub mod Defaults
pub mod Paths
pub mod Validate
pub mod Options
use drsync.Prelude.{
  ℕ, zero, suc, ◌*◌, ◌-◌, ◌/◌, ◌^◌, leb, is_some, Bool, true, false, ◌||◌, List, [], ◌∷◌, Option,
  none, some, Bytes, bytes, ◌==◌, if◌then◌else◌,
}

-- `nan` is for a NaN, and holds the integer that the machine converts its product to, which Go leaves open.
-- An infinity is over 0.
pub record Rate : Type 0 where
  pub nan : Option ℕ
  pub negative : Bool
  pub num : ℕ
  pub den : ℕ

pub record PassesSpec : Type 0 where
  pub max : ℕ
  pub schedule : Bytes
  pub delta_files_below : ℕ
  pub delta_bytes_below : ℕ

pub record CopySpec : Type 0 where
  pub chunk_threshold : ℕ
  pub chunk_size : ℕ
  pub buffer_size : ℕ
  pub preserve_sparse : Option Bool
  pub server_side_copy : Bytes
  pub temp_naming : Bytes
  pub fsync : Bytes
  pub direct_write : Option Bool
  pub on_dest_newer : Bytes

pub record AclsSpec : Type 0 where
  pub posix : Option Bool
  pub nfs4 : Option Bool
  pub untranslatable : Bytes

pub record MetadataSpec : Type 0 where
  pub owner : Option Bool
  pub mode : Option Bool
  pub times : Option Bool
  pub xattrs : Option Bool
  pub acls : AclsSpec
  pub hardlinks : Bytes
  pub hardlinks_max_group_scan : ℕ
  pub specials : Option Bool

pub record VerifySpec : Type 0 where
  pub mode : Bytes
  pub sample_rate : Rate
  pub on_mismatch : Bytes

pub record LimitsSpec : Type 0 where
  pub bandwidth_per_agent : ℕ
  pub iops_per_agent : ℕ

pub record TuningSpec : Type 0 where
  pub shard_budget : ℕ
  pub dir_split_threshold : ℕ
  pub entrylist_batch : ℕ
  pub statx_batch : ℕ
  pub mtime_slop_ns : ℕ
  pub delete_split_threshold : ℕ
  pub delete_split_batch : ℕ
  pub delete_shard_budget : ℕ
  pub spread_mode : Bytes
  pub spread_target_per_agent : ℕ

-- NotificationSpec
pub record NotificationSpec : Type 0 where
  pub recipients : List Bytes
  pub on_pass_complete : Bool
  pub on_job_complete : Bool

pub record JobSpec : Type 0 where
  pub api_version : Bytes
  pub kind : Bytes
  pub name : Bytes
  pub source : Bytes
  pub destination : Bytes
  pub filters : List (List (Bytes × Bytes))
  pub passes : PassesSpec
  pub copy : CopySpec
  pub metadata : MetadataSpec
  pub require_mount : Option Bool
  pub verify : VerifySpec
  pub deletes_mode : Bytes
  pub limits : LimitsSpec
  pub tuning : TuningSpec
  pub notifications : NotificationSpec

-- `if x == 0 { x = d }`
unfoldable pub or_number : ℕ → ℕ → ℕ
or_number d x = if x == 0 then d else x

-- `if s == "" { s = d }`
unfoldable pub or_text : Bytes → Bytes → Bytes
or_text d [] = d
or_text d (b ∷ bs) = b ∷ bs

-- boolDefault
unfoldable pub or_flag : Bool → Option Bool → Option Bool
or_flag d none = some d
or_flag d (some b) = some b

unfoldable pub or_rate : Rate → Rate → Rate
or_rate d r = if is_some r.nan then r else if r.num == 0 then d else r

abbrev pub default_rate : Rate
default_rate = record {
  nan = none;
  negative = false;
  num = 5764607523034235;
  den = 576460752303423488;
}

abbrev pub default_passes : PassesSpec → PassesSpec
default_passes p = record p {
  max = or_number 5 p.max;
  schedule = or_text (bytes "continuous") p.schedule;
}

abbrev pub default_copy : CopySpec → CopySpec
default_copy c = record {
  chunk_threshold = or_number 25769803776 c.chunk_threshold;
  chunk_size = or_number 8589934592 c.chunk_size;
  buffer_size = or_number 1048576 c.buffer_size;
  preserve_sparse = or_flag true c.preserve_sparse;
  server_side_copy = or_text (bytes "auto") c.server_side_copy;
  temp_naming = or_text (bytes ".drsync.tmp.") c.temp_naming;
  fsync = or_text (bytes "batched") c.fsync;
  direct_write = or_flag true c.direct_write;
  on_dest_newer = or_text (bytes "skip") c.on_dest_newer;
}

abbrev pub default_acls : AclsSpec → AclsSpec
default_acls a = record {
  posix = or_flag true a.posix;
  nfs4 = or_flag true a.nfs4;
  untranslatable = or_text (bytes "warn") a.untranslatable;
}

abbrev pub default_metadata : MetadataSpec → MetadataSpec
default_metadata m = record {
  owner = or_flag true m.owner;
  mode = or_flag true m.mode;
  times = or_flag true m.times;
  xattrs = or_flag true m.xattrs;
  acls = default_acls m.acls;
  hardlinks = or_text (bytes "preserve") m.hardlinks;
  hardlinks_max_group_scan = m.hardlinks_max_group_scan;
  specials = or_flag true m.specials;
}

abbrev pub default_verify : VerifySpec → VerifySpec
default_verify v = record {
  mode = or_text (bytes "on") v.mode;
  sample_rate = or_rate default_rate v.sample_rate;
  on_mismatch = or_text (bytes "recopy") v.on_mismatch;
}

abbrev pub default_tuning : TuningSpec → TuningSpec
default_tuning t = record {
  shard_budget = or_number 2000 t.shard_budget;
  dir_split_threshold = or_number 50000 t.dir_split_threshold;
  entrylist_batch = or_number 4000 t.entrylist_batch;
  statx_batch = or_number 256 t.statx_batch;
  mtime_slop_ns = or_number 1000000 t.mtime_slop_ns;
  delete_split_threshold = or_number 200000 t.delete_split_threshold;
  delete_split_batch = or_number 20000 t.delete_split_batch;
  delete_shard_budget = or_number 250000 t.delete_shard_budget;
  spread_mode = or_text (bytes "auto") t.spread_mode;
  spread_target_per_agent = or_number 32 t.spread_target_per_agent;
}

-- ApplyDefaults
unfoldable pub apply_defaults : JobSpec → JobSpec
apply_defaults s = record s {
  passes = default_passes s.passes;
  copy = default_copy s.copy;
  metadata = default_metadata s.metadata;
  require_mount = or_flag true s.require_mount;
  verify = default_verify s.verify;
  deletes_mode = or_text (bytes "mirror") s.deletes_mode;
  tuning = default_tuning s.tuning;
}

-- The bits of a number below 2 ^ 64.
unfoldable pub bit_count : ℕ → ℕ → ℕ
bit_count zero n = 0
bit_count (suc fuel) n = let more = bit_count fuel (n / 2) in if n == 0 then 0 else suc more

-- The integer part of the float64 that is nearest to a value v = num / den below 2 ^ 52. It is that of v
-- itself, q, unless v is within half the distance of floats from q + 1, a tie included, q + 1 being even
-- among them.
unfoldable pub rounded_down : ℕ → ℕ → ℕ
rounded_down num den =
    let q = num / den in
    if leb ((suc q * den - num) * 2 ^ (54 - bit_count 64 q)) den then suc q else q

-- uint32 or uint64 of SampleRate * 1_000_000, for a rate of at most 1
unfoldable pub sample_ppm : Rate → ℕ
sample_ppm r = elim r.nan [ some n ↦ n | none ↦ rounded_down (r.num * 1000000) r.den ]
