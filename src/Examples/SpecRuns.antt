-- ===== src/Examples/SpecRuns.antt =====
-- A small spec, accepted, resolved to options and looked up.
use drsync.Prelude.{ℕ, ◌≡◌, refl, false, [], ◌∷◌, Option, none, some, Bytes, bytes, bytes_eq}
use drsync.Model.Spec.{JobSpec, or_number, or_text, or_flag, or_rate, apply_defaults}
use drsync.Model.Spec.Paths.{trim_slashes, has_prefix, paths_overlap}
use drsync.Model.Spec.Validate.{
  Parsed, check_rule, check_filter, check_filters, has_inner_dot, all_plain, is_domain,
  matches_address, check_recipients, validate_modes, validate_paths, validate_filters, validate,
  parse_spec,
}
use drsync.Model.Spec.Validate.Accepted.{IsRunnable, parse_spec-IsRunnable}
use drsync.Model.Spec.Options.{JobOptions, to_job_options}
use drsync.Model.Spec.Options.Served.{IsServed, to_job_options-IsServed}
use drsync.Scheduler.Policy.{SpecLib, Sched}

-- One exclude rule; the rest is left to the defaults.
abbrev pub raw : JobSpec
raw = record {
  api_version = bytes "drsync/v1";
  kind = bytes "Job";
  name = bytes "j";
  source = bytes "/a";
  destination = bytes "/b/";
  filters = ((bytes "exclude", bytes "*.o") ∷ []) ∷ [];
  passes = record { max = 0; schedule = []; delta_files_below = 0; delta_bytes_below = 0 };
  copy = record {
    chunk_threshold = 0;
    chunk_size = 0;
    buffer_size = 0;
    preserve_sparse = none;
    server_side_copy = [];
    temp_naming = [];
    fsync = [];
    direct_write = none;
    on_dest_newer = [];
  };
  metadata = record {
    owner = none;
    mode = none;
    times = none;
    xattrs = none;
    acls = record { posix = none; nfs4 = none; untranslatable = [] };
    hardlinks = [];
    hardlinks_max_group_scan = 0;
    specials = none;
  };
  require_mount = none;
  verify = record {
    mode = [];
    sample_rate = record { nan = none; negative = false; num = 0; den = 1 };
    on_mismatch = [];
  };
  deletes_mode = [];
  limits = record { bandwidth_per_agent = 0; iops_per_agent = 0 };
  tuning = record {
    shard_budget = 0;
    dir_split_threshold = 0;
    entrylist_batch = 0;
    statx_batch = 0;
    mtime_slop_ns = 0;
    delete_split_threshold = 0;
    delete_split_batch = 0;
    delete_shard_budget = 0;
    spread_mode = [];
    spread_target_per_agent = 0;
  };
  notifications = record {
    recipients = bytes "a@b.c" ∷ [];
    on_pass_complete = false;
    on_job_complete = false;
  };
}

abbrev decode : Bytes → Option JobSpec
decode text = some raw

abbrev marshal : JobOptions → Option Bytes
marshal o = some o.src_root

abbrev digest : Bytes → ℕ
digest b = 7

abbrev pub spec_lib : SpecLib
spec_lib = record { decode = decode; marshal = marshal; digest = digest }

raw_accepted : parse_spec decode [] ≡ Parsed.accepted (apply_defaults raw)
unfolding or_number or_text or_flag or_rate apply_defaults trim_slashes has_prefix paths_overlap
    check_rule check_filter check_filters has_inner_dot all_plain is_domain matches_address
    check_recipients validate_modes validate_paths validate_filters validate parse_spec bytes_eq
raw_accepted = refl

parse_spec-IsRunnable_example : IsRunnable (apply_defaults raw)
parse_spec-IsRunnable_example = parse_spec-IsRunnable decode [] (apply_defaults raw) raw_accepted

to_job_options-IsServed_example :
    IsServed marshal digest
      (apply_defaults raw)
      (to_job_options marshal digest 1 false (apply_defaults raw))
to_job_options-IsServed_example =
    to_job_options-IsServed marshal digest decode [] (apply_defaults raw) 1 false raw_accepted

abbrev pub idle : Sched
idle = record {
  policies = [];
  counts_at = none;
  counts = record { walk_pending = 0; queued = 0 };
  agents = 0;
}
