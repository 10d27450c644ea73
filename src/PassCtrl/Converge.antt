-- ===== src/PassCtrl/Converge.antt =====
-- coordinator/internal/passctrl/passctrl.go: decideNextPass, the convergence rule.
use drsync.Prelude.{
  ℕ, suc, ◌+◌, ◌^◌, ◌%◌, ◌≡◌, ◌≤◌, ◌<◌, Bool, true, false, ◌&&◌, ◌||◌, bytes, bytes_eq, ◌==◌, ltb,
  leb, if◌then◌else◌, arith,
}
use drsync.Model.Spec.{JobSpec}
use drsync.Store.Schema.{Counters, Pass}

-- Counters are non-negative int64, and their sum is taken in int64 and read as uint64.
unfoldable pub is_converged : JobSpec → Counters → Bool
is_converged spec c =
    ((c.files_copied == 0) && ((c.meta_fixed == 0) && (c.bytes_copied == 0)))
    || ((ltb 0 spec.passes.delta_files_below
          && ltb ((c.files_copied + c.meta_fixed) % 2 ^ 64) spec.passes.delta_files_below)
        || (ltb 0 spec.passes.delta_bytes_below
            && ltb c.bytes_copied spec.passes.delta_bytes_below))

abbrev pub max_passes : JobSpec → Bool → ℕ
max_passes spec dry_run = if dry_run then 1 else spec.passes.max

-- What decideNextPass does: complete the job (and whether it converged), wait for the operator, or
-- seed the pass of the number given.
pub data Decision : Type 0 where
  finish : Bool → Decision
  await : Decision
  seed_next : ℕ → Decision

unfoldable pub decide_next_pass : JobSpec → Bool → Pass → Decision
decide_next_pass spec dry_run done =
    if is_converged spec done.counters || leb (max_passes spec dry_run) done.pass_no
    then Decision.finish (is_converged spec done.counters)
    else if bytes_eq spec.passes.schedule (bytes "manual")
    then Decision.await
    else Decision.seed_next (suc done.pass_no)

-- A pass that copied and fixed nothing ends its job as converged, whatever the spec says.
pub fixpoint_finishes :
    (spec : JobSpec) (dry_run : Bool) (done : Pass)
    → done.counters.files_copied ≡ 0
    → done.counters.meta_fixed ≡ 0
    → done.counters.bytes_copied ≡ 0
    → decide_next_pass spec dry_run done ≡ Decision.finish true
unfolding decide_next_pass is_converged
fixpoint_finishes spec dry_run done f m b = ground arith

-- A pass is seeded on its own only as the next number, within the ceiling of the spec, after a pass
-- of a real run that changed something; a dry run never gets a second pass.
pub seeds_within_ceiling :
    (spec : JobSpec) (dry_run : Bool) (done : Pass) (n : ℕ)
    → 1 ≤ done.pass_no
    → decide_next_pass spec dry_run done ≡ Decision.seed_next n
    → (n ≡ suc done.pass_no)
      × (n ≤ spec.passes.max)
      × (dry_run ≡ false)
      × (0 < done.counters.files_copied + done.counters.meta_fixed + done.counters.bytes_copied)
unfolding decide_next_pass is_converged
seeds_within_ceiling spec dry_run done n h e = ground arith
