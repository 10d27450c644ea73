-- ===== src/Api/Operate.antt =====
-- coordinator/internal/api/api.go: setAgentEnabled, and the routes on parked shards. The drain that
-- setAgentEnabled asks the agent for is outside the model.
use drsync.Prelude.{ℕ, Bool, Bytes}
use drsync.Store.Schema.{Store, Error, Result, ok, err}
use drsync.Store.Sweep.{
  retry_parked_shard, retry_parked_by_job, drop_parked_shard, drop_parked_by_job,
}
use drsync.Store.Agents.{set_agent_enabled}
use drsync.Api.Actions.{Answer}

abbrev enabled_of : Store × Result (Unit {0}) → Store × Answer
enabled_of (s, ok _) = (s, Answer.done)
enabled_of (s, err Error.no_rows) = (s, Answer.not_found)
enabled_of (s, err e) = (s, Answer.internal_error e)

-- setAgentEnabled
unfoldable pub enable_route : Bool → Bytes → Store → Store × Answer
enable_route enabled id s = enabled_of (set_agent_enabled id enabled s)

pub data ParkedAction : Type 0 where
  retry drop : ParkedAction

abbrev parked_of : Store → Result Store → Store × Answer
parked_of s (ok s') = (s', Answer.done)
parked_of s (err Error.not_parked) = (s, Answer.not_found)
parked_of s (err e) = (s, Answer.internal_error e)

-- parkedShardAction, on an id that is a number.
unfoldable pub parked_shard_action : ParkedAction → ℕ → Store → Store × Answer
parked_shard_action ParkedAction.retry i s = parked_of s (retry_parked_shard i s)
parked_shard_action ParkedAction.drop i s = parked_of s (drop_parked_shard i s)

-- parkedJobAction: the store, and the count that is answered.
unfoldable pub parked_job_action : ParkedAction → Bytes → Store → Store × ℕ
parked_job_action ParkedAction.retry name s = retry_parked_by_job name s
parked_job_action ParkedAction.drop name s = drop_parked_by_job name s
