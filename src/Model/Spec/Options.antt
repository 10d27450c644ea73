-- ===== src/Model/Spec/Options.antt =====
-- coordinator/internal/model/spec.go, ToJobOptions: the options that agents are sent. A dereferenced
-- `*bool` that is nil is a panic. Marshalling and the hash over it are parameters.
pub mod Served
use drsync.Prelude.{
  ℕ, ◌*◌, ◌/◌, ◌%◌, ◌^◌, Bool, true, false, List, [], ◌∷◌, ◌++◌, Option, none, some, Bytes, bytes,
  bytes_eq, if◌then◌else◌, map,
}
use drsync.Model.Spec.{JobSpec, CopySpec, AclsSpec, MetadataSpec, TuningSpec, sample_ppm}
use drsync.Model.Spec.Validate.{SpecError}

pub data ServerSideCopy : Type 0 where
  auto off require : ServerSideCopy

pub data Conflict : Type 0 where
  skip_if_dest_newer overwrite : Conflict

pub data FsyncMode : Type 0 where
  per_file batched : FsyncMode

pub data Untranslatable : Type 0 where
  warn fail skip : Untranslatable

pub data OnMismatch : Type 0 where
  fail recopy : OnMismatch

pub record FilterRule : Type 0 where
  pub exclude : Bool
  pub pattern_text : Bytes

pub record CopyOptions : Type 0 where
  pub chunk_threshold : ℕ
  pub chunk_size : ℕ
  pub buffer_size : ℕ
  pub preserve_sparse : Bool
  pub server_side_copy : ServerSideCopy
  pub temp_prefix : Bytes
  pub fsync_mode : FsyncMode
  pub direct_write : Bool
  pub on_dest_newer : Conflict

pub record MetadataOptions : Type 0 where
  pub owner : Bool
  pub mode : Bool
  pub times : Bool
  pub xattrs : Bool
  pub posix : Bool
  pub nfs4 : Bool
  pub untranslatable : Untranslatable
  pub specials : Bool

pub record TuningOptions : Type 0 where
  pub shard_budget : ℕ
  pub dir_split_threshold : ℕ
  pub entrylist_batch : ℕ
  pub statx_batch : ℕ
  pub mtime_slop_ns : ℕ
  pub delete_split_threshold : ℕ
  pub delete_split_batch : ℕ
  pub delete_shard_budget : ℕ

pub record JobOptions : Type 0 where
  pub job_id : ℕ
  pub job_name : Bytes
  pub src_root : Bytes
  pub dst_root : Bytes
  pub filters : List FilterRule
  pub copy : CopyOptions
  pub metadata : MetadataOptions
  pub sample_rate_ppm : ℕ
  pub on_mismatch : OnMismatch
  pub bandwidth_per_agent : ℕ
  pub iops_per_agent : ℕ
  pub tuning : TuningOptions
  pub dry_run : Bool
  pub require_mount : Bool
  pub options_hash : ℕ

pub data Resolved : Type 0 where
  panicked : Resolved
  refused : SpecError → Resolved
  resolved : JobOptions → Resolved

-- The dereferenced fields, in the order of the source.
pub record Flags : Type 0 where
  pub preserve_sparse : Bool
  pub direct_write : Bool
  pub owner : Bool
  pub mode : Bool
  pub times : Bool
  pub xattrs : Bool
  pub posix : Bool
  pub nfs4 : Bool
  pub specials : Bool
  pub require_mount : Bool

infixl 5 ◌>>=◌
abbrev pub ◌>>=◌ {ℓ κ} : {A : Type ℓ} {B : Type κ} → Option A → (A → Option B) → Option B
none >>= f = none
some a >>= f = f a

unfoldable pub flags_of : JobSpec → Option Flags
flags_of s = do
  preserve_sparse ← s.copy.preserve_sparse
  direct_write ← s.copy.direct_write
  owner ← s.metadata.owner
  mode ← s.metadata.mode
  times ← s.metadata.times
  xattrs ← s.metadata.xattrs
  posix ← s.metadata.acls.posix
  nfs4 ← s.metadata.acls.nfs4
  specials ← s.metadata.specials
  require_mount ← s.require_mount
  some (record {
    preserve_sparse = preserve_sparse;
    direct_write = direct_write;
    owner = owner;
    mode = mode;
    times = times;
    xattrs = xattrs;
    posix = posix;
    nfs4 = nfs4;
    specials = specials;
    require_mount = require_mount;
  })

-- The `switch` on copy.server_side_copy
unfoldable pub server_side_copy_of : Bytes → Option ServerSideCopy
server_side_copy_of t =
    if bytes_eq t (bytes "auto")
    then some ServerSideCopy.auto
    else if bytes_eq t (bytes "off")
    then some ServerSideCopy.off
    else if bytes_eq t (bytes "require")
    then some ServerSideCopy.require
    else none

-- The `switch` on copy.on_dest_newer
unfoldable pub conflict_of : Bytes → Option Conflict
conflict_of t =
    if bytes_eq t (bytes "skip")
    then some Conflict.skip_if_dest_newer
    else if bytes_eq t (bytes "overwrite")
    then some Conflict.overwrite
    else none

-- The `switch` on metadata.acls.untranslatable
unfoldable pub untranslatable_of : Bytes → Option Untranslatable
untranslatable_of t =
    if bytes_eq t (bytes "warn")
    then some Untranslatable.warn
    else if bytes_eq t (bytes "fail")
    then some Untranslatable.fail
    else if bytes_eq t (bytes "skip")
    then some Untranslatable.skip
    else none

abbrev pub fsync_of : Bytes → FsyncMode
fsync_of t = if bytes_eq t (bytes "per_file") then FsyncMode.per_file else FsyncMode.batched

abbrev pub mismatch_of : Bytes → OnMismatch
mismatch_of t = if bytes_eq t (bytes "fail") then OnMismatch.fail else OnMismatch.recopy

abbrev pub rule_of : Bytes × Bytes → FilterRule
rule_of (k, pat) = record { exclude = bytes_eq k (bytes "exclude"); pattern_text = pat }

-- The loop over the filters.
unfoldable pub rules_of : List (List (Bytes × Bytes)) → List FilterRule
rules_of [] = []
rules_of (f ∷ fs) = map rule_of f ++ rules_of fs

-- The options before the hash is stamped on them.
abbrev pub options_of :
    ℕ → Bool → JobSpec → Flags → ServerSideCopy → Conflict → Untranslatable → JobOptions
options_of job_id dry_run s f ssc conflict untranslatable = record {
  job_id = job_id;
  job_name = s.name;
  src_root = s.source;
  dst_root = s.destination;
  filters = rules_of s.filters;
  copy = record {
    chunk_threshold = s.copy.chunk_threshold;
    chunk_size = s.copy.chunk_size;
    buffer_size = s.copy.buffer_size;
    preserve_sparse = f.preserve_sparse;
    server_side_copy = ssc;
    temp_prefix = s.copy.temp_naming;
    fsync_mode = fsync_of s.copy.fsync;
    direct_write = f.direct_write;
    on_dest_newer = conflict;
  };
  metadata = record {
    owner = f.owner;
    mode = f.mode;
    times = f.times;
    xattrs = f.xattrs;
    posix = f.posix;
    nfs4 = f.nfs4;
    untranslatable = untranslatable;
    specials = f.specials;
  };
  sample_rate_ppm = sample_ppm s.verify.sample_rate % 2 ^ 32;
  on_mismatch = mismatch_of s.verify.on_mismatch;
  bandwidth_per_agent = s.limits.bandwidth_per_agent;
  iops_per_agent = s.limits.iops_per_agent;
  tuning = record {
    shard_budget = s.tuning.shard_budget;
    dir_split_threshold = s.tuning.dir_split_threshold;
    entrylist_batch = s.tuning.entrylist_batch;
    statx_batch = s.tuning.statx_batch;
    mtime_slop_ns = s.tuning.mtime_slop_ns;
    delete_split_threshold = s.tuning.delete_split_threshold;
    delete_split_batch = s.tuning.delete_split_batch;
    delete_shard_budget = s.tuning.delete_shard_budget;
  };
  dry_run = dry_run;
  require_mount = f.require_mount;
  options_hash = 0;
}

module _ (marshal : JobOptions → Option Bytes) (digest : Bytes → ℕ) where
  -- From the marshalling on.
  abbrev pub stamp : JobOptions → Option Bytes → Resolved
  stamp o none = Resolved.refused SpecError.marshal
  stamp o (some blob) = Resolved.resolved (record o { options_hash = digest blob })

  -- The three `switch`es that may refuse.
  abbrev pub resolve_modes :
      ℕ
      → Bool
      → JobSpec
      → Flags
      → Option ServerSideCopy
      → Option Conflict
      → Option Untranslatable
      → Resolved
  resolve_modes i dry s f none c u = Resolved.refused SpecError.server_side_copy
  resolve_modes i dry s f (some ssc) none u = Resolved.refused SpecError.on_dest_newer
  resolve_modes i dry s f (some ssc) (some c) none = Resolved.refused SpecError.untranslatable
  resolve_modes i dry s f (some ssc) (some c) (some u) =
      let o = options_of i dry s f ssc c u in stamp o (marshal o)

  abbrev pub resolve : ℕ → Bool → JobSpec → Option Flags → Resolved
  resolve i dry s none = Resolved.panicked
  resolve i dry s (some f) =
      resolve_modes i dry s f (server_side_copy_of s.copy.server_side_copy)
        (conflict_of s.copy.on_dest_newer) (untranslatable_of s.metadata.acls.untranslatable)

  -- ToJobOptions
  unfoldable pub to_job_options : ℕ → Bool → JobSpec → Resolved
  to_job_options i dry s = resolve i dry s (flags_of s)
