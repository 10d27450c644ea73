-- ===== src/Scheduler/Spread.antt =====
-- coordinator/internal/scheduler/scheduler.go, walkOverrides.
use drsync.Prelude.{
  ℕ, ◌*◌, ◌≤◌, ◌<◌, ◌≡◌, ◌⊎◌, Bool, true, false, ◌&&◌, Option, none, some, Bytes, bytes, bytes_eq,
  ltb, if◌then◌else◌, arith,
}
use drsync.Store.Counts.{SchedulerCounts}

-- spreadSplitThreshold
abbrev pub spread_split_threshold : ℕ
spread_split_threshold = 4000

-- SpreadPolicy (coordinator/internal/model/spec.go)
pub record SpreadPolicy : Type 0 where
  pub mode : Bytes
  pub target_per_agent : ℕ

pub record WalkOverrides : Type 0 where
  pub walk_budget : ℕ
  pub split_threshold : ℕ

-- The `switch` on the mode: any mode but "always" and "off" is auto.
unfoldable pub spreads : SpreadPolicy → ℕ → SchedulerCounts → Bool
spreads pol agents c =
    if bytes_eq pol.mode (bytes "always")
    then true
    else if bytes_eq pol.mode (bytes "off")
    then false
    else ltb c.walk_pending (agents * pol.target_per_agent)

-- walkOverrides. `threshold` is the job's own dir_split_threshold.
unfoldable pub walk_overrides : SpreadPolicy → ℕ → ℕ → SchedulerCounts → Option WalkOverrides
walk_overrides pol threshold agents c =
    if spreads pol agents c
    then some (record {
      walk_budget = 0;
      split_threshold =
          if ltb 0 threshold && ltb threshold spread_split_threshold
          then threshold
          else spread_split_threshold;
    })
    else none

-- An override never makes a job fan out less: the shard descends nothing, and it splits directories
-- from a size that is neither 0 nor above the fleet's threshold nor above the job's own, if it has one.
pub walk_overrides_harder :
    (pol : SpreadPolicy) (threshold agents : ℕ) (c : SchedulerCounts) (o : WalkOverrides)
    → walk_overrides pol threshold agents c ≡ some o
    → (o.walk_budget ≡ 0)
      × (0 < o.split_threshold)
      × (o.split_threshold ≤ spread_split_threshold)
      × ((threshold ≡ 0) ⊎ (o.split_threshold ≤ threshold))
unfolding walk_overrides
walk_overrides_harder pol threshold agents c o h = ground arith

-- Fan-out limits itself: a job in a mode other than "always" gets no override once the fleet has as
-- many walk shards pending as its target asks for.
pub walk_overrides_stop :
    (pol : SpreadPolicy) (threshold agents : ℕ) (c : SchedulerCounts)
    → bytes_eq pol.mode (bytes "always") ≡ false
    → agents * pol.target_per_agent ≤ c.walk_pending
    → walk_overrides pol threshold agents c ≡ none
unfolding walk_overrides spreads
walk_overrides_stop pol threshold agents c m h = ground arith
