-- ===== src/Examples/PurgeRuns.antt =====
-- A job with a pass, a shard that was split and a member of a hard-link group is cancelled and purged.
use drsync.Prelude.{◌≡◌, refl, [], ◌∷◌, none, some, bytes, bytes_eq, arith}
use drsync.Model.States.{JobState, ShardState, ShardKind}
use drsync.Store.Schema.{Shard, MemberState, Store}
use drsync.Store.Purge.{delete_job, pass_ids}
use drsync.Store.Purge.References.{IsReferenced, delete_job-IsReferenced}
use drsync.Api.Actions.{Action, Answer, job_action, purge_job}
use drsync.Api.Actions.Purged.{IsGone, cancel_purges}
use drsync.Examples.PassRuns.{env, job, no_shards, idle}

abbrev shard : Shard
shard = record {
  id = 1;
  pass_id = 1;
  parent = 0;
  kind = ShardKind.dir;
  rel_path = [];
  payload = [];
  prio = 0;
  state = ShardState.done;
  attempt = 1;
  lease_id = none;
  lease_agent = some (bytes "a");
  lease_expiry = none;
  result = none;
  error = none;
  target_agent = none;
}

abbrev used : Store
used = record idle {
  shards = record no_shards {
    rows = shard ∷ [];
    counts = record { pass_id = 1; kind = ShardKind.dir; state = ShardState.done; n = 1 } ∷ [];
    next_id = 2;
  };
  splits = record { parent_shard_id = 1; seq = 0; assigned_ids = [] } ∷ [];
  link_members =
      record { pass_id = 1; dev = 8; ino = 42; rel_path = bytes "f"; state = MemberState.linked }
      ∷ [];
}

abbrev finished : Store
finished = record used { jobs = record job { state = JobState.completed } ∷ [] }

finished-IsReferenced : IsReferenced finished
finished-IsReferenced = record {
  passes = (omega arith, tt);
  shards = (omega arith, tt);
  splits = (omega arith, tt);
  chunk_groups = tt;
  link_groups = tt;
  link_members = (omega arith, tt);
}

delete_job-IsReferenced_example :
    IsReferenced (delete_job (bytes "j") finished).0
    × ((delete_job (bytes "j") finished).0.delete_groups ≡ [])
delete_job-IsReferenced_example = delete_job-IsReferenced (bytes "j") finished finished-IsReferenced

cancel_purges_example :
    ((purge_job (bytes "j") (job_action env (bytes "j") Action.cancel used).0).1 ≡ Answer.done)
    × IsGone used 1
        (pass_ids 1 used.passes)
        (purge_job (bytes "j") (job_action env (bytes "j") Action.cancel used).0).0
unfolding bytes_eq
cancel_purges_example = cancel_purges env (bytes "j") used job refl
