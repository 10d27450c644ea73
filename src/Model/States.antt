-- ===== src/Model/States.antt =====
-- coordinator/internal/model/model.go: the enumerations of jobs, passes and shards.
use drsync.Prelude.{ℕ, zero, suc, ◌≡◌, refl, sym, ap, ◌∙◌, Bool, true, false, ◌==◌, arith}

pub data JobState : Type 0 where
  created ready running paused completed cancelled failed : JobState

pub data PassState : Type 0 where
  pending probing scanning dirfix linkfix verify delete complete : PassState

pub data ShardState : Type 0 where
  queued leased done parked : ShardState

-- `reaped` labels a synthetic row of the queue view, and is no kind of a shard.
pub data ShardKind : Type 0 where
  dir entry_list chunk dirfix verify delete probe linkfix reaped : ShardKind

-- The strings of the source are distinct, so equality of them is equality of these codes.
abbrev pub shard_state_code : ShardState → ℕ
shard_state_code queued = 0
shard_state_code leased = 1
shard_state_code done = 2
shard_state_code parked = 3

abbrev pub kind_code : ShardKind → ℕ
kind_code dir = 0
kind_code entry_list = 1
kind_code chunk = 2
kind_code dirfix = 3
kind_code verify = 4
kind_code delete = 5
kind_code probe = 6
kind_code linkfix = 7
kind_code reaped = 8

abbrev pub job_state_code : JobState → ℕ
job_state_code created = 0
job_state_code ready = 1
job_state_code running = 2
job_state_code paused = 3
job_state_code completed = 4
job_state_code cancelled = 5
job_state_code failed = 6

abbrev pub is_shard_state : ShardState → ShardState → Bool
is_shard_state a b = shard_state_code a == shard_state_code b

abbrev pub is_kind : ShardKind → ShardKind → Bool
is_kind a b = kind_code a == kind_code b

abbrev pub is_job_state : JobState → JobState → Bool
is_job_state a b = job_state_code a == job_state_code b

-- phaseRank
abbrev pub phase_rank : PassState → ℕ
phase_rank pending = 0
phase_rank probing = 1
phase_rank scanning = 2
phase_rank dirfix = 3
phase_rank linkfix = 4
phase_rank verify = 5
phase_rank delete = 6
phase_rank complete = 7

-- ShardKind.Priority
abbrev pub priority : ShardKind → ℕ
priority chunk = 10
priority delete = 15
priority probe = 20
priority _ = 0

-- TerminalJobState (coordinator/internal/store/store.go)
abbrev pub is_terminal : JobState → Bool
is_terminal completed = true
is_terminal cancelled = true
is_terminal failed = true
is_terminal _ = false

kind_of_code : ℕ → ShardKind
kind_of_code zero = dir
kind_of_code (suc zero) = entry_list
kind_of_code (suc (suc zero)) = chunk
kind_of_code (suc (suc (suc zero))) = dirfix
kind_of_code (suc (suc (suc (suc zero)))) = verify
kind_of_code (suc (suc (suc (suc (suc zero))))) = delete
kind_of_code (suc (suc (suc (suc (suc (suc zero)))))) = probe
kind_of_code (suc (suc (suc (suc (suc (suc (suc zero))))))) = linkfix
kind_of_code _ = reaped

kind_of-kind_code : (k : ShardKind) → kind_of_code (kind_code k) ≡ k
unfolding kind_of_code
kind_of-kind_code dir = refl
kind_of-kind_code entry_list = refl
kind_of-kind_code chunk = refl
kind_of-kind_code dirfix = refl
kind_of-kind_code verify = refl
kind_of-kind_code delete = refl
kind_of-kind_code probe = refl
kind_of-kind_code linkfix = refl
kind_of-kind_code reaped = refl

pub eq_of_kind_code : (k l : ShardKind) → kind_code k ≡ kind_code l → k ≡ l
eq_of_kind_code k l h = sym (kind_of-kind_code k) ∙ (ap kind_of_code h ∙ kind_of-kind_code l)

pub eq_of_shard_state_code : (a b : ShardState) → shard_state_code a ≡ shard_state_code b → a ≡ b
eq_of_shard_state_code a b h = ground arith
