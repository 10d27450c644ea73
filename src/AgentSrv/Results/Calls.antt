-- ===== src/AgentSrv/Results/Calls.antt =====
-- coordinator/internal/agentsrv/server.go: the calls of the store that a result leads to.
use drsync.Prelude.{
  ℕ, ◌≡◌, ◌≢◌, refl, Bool, false, List, [], Option, none, Bytes, arith, count_where,
}
use drsync.Model.States.{ShardState, is_shard_state}
use drsync.Store.Schema.{Counters, Store, Error, Result, ok, err}
use drsync.Store.Triggers.{update_shards}
use drsync.Store.Shards.{
  NewShard, is_held, shard_transition, complete_shard, requeue_shard, release_shard, park_shard,
}
use drsync.Store.Shards.Answered.{
  IsAnswered, update_shards-IsAnswered, shard_transition-IsAnswered, insert_one-IsAnswered,
}
use drsync.Store.Chunks.{
  finish_row, finish_held, complete_data_chunk, complete_finalize_chunk, abort_chunk_group,
}
use drsync.Store.Chunks.Keeping.{
  complete_data_chunk-keeps, complete_finalize_chunk-keeps, abort_chunk_group-keeps,
}
use drsync.Store.DeleteGroups.{finish_delete, complete_delete_remainder}
use drsync.Store.DeleteGroups.Closing.{complete_delete_remainder-keeps}
use drsync.Store.Reachable.{Step}
use drsync.AgentSrv.Results.{Answer, refuse, answer_of, drop_seeded}

-- What may become of a result under a lease: one step of the store after which the lease is answered, and
-- that only where it was not before.
abbrev pub Allowed : ℕ → ℕ → Store → Answer → Type 0
Allowed i l s (Answer.written s') =
    Step s s' × IsAnswered i l s'.shards × (count_where (is_held i l) s.shards.rows ≢ 0)
Allowed i l s Answer.stale = Unit
Allowed i l s (Answer.failed f) = Unit

pub refuse-Allowed : (i l : ℕ) (s : Store) (e : Error) → Allowed i l s (refuse e)
refuse-Allowed i l s Error.lease_mismatch = tt
refuse-Allowed i l s Error.not_parked = tt
refuse-Allowed i l s Error.job_active = tt
refuse-Allowed i l s Error.no_rows = tt
refuse-Allowed i l s Error.not_unique = tt
refuse-Allowed i l s Error.spec_invalid = tt
refuse-Allowed i l s (Error.destination_conflict b) = tt
refuse-Allowed i l s Error.wrong_state = tt
refuse-Allowed i l s Error.pass_active = tt
refuse-Allowed i l s Error.no_pass = tt
refuse-Allowed i l s Error.no_orphans = tt
refuse-Allowed i l s Error.journal_unreadable = tt

answer_of-Allowed :
    (i l : ℕ) (s : Store) (r : Result Store)
    → ((s' : Store) → r ≡ ok s' → Allowed i l s (Answer.written s'))
    → Allowed i l s (answer_of r)
answer_of-Allowed i l s (ok s') f = f s' refl
answer_of-Allowed i l s (err e) f = refuse-Allowed i l s e

transition-held :
    (i l : ℕ) (to : ShardState) (res : Option Bytes) (msg : Bytes) (p : ℕ) (c : Option Counters)
    (s s' : Store)
    → shard_transition i l to res msg p c s ≡ ok s'
    → count_where (is_held i l) s.shards.rows ≢ 0
unfolding shard_transition
transition-held i l to res msg p c s s' e = λ z. ground arith

transition-Allowed :
    (i l : ℕ) (to : ShardState) (res : Option Bytes) (msg : Bytes) (p : ℕ) (c : Option Counters)
    (s : Store)
    → to ≢ ShardState.leased
    → is_shard_state ShardState.leased to ≡ false
    → Allowed i l s (answer_of (shard_transition i l to res msg p c s))
transition-Allowed i l to res msg p c s n h =
    answer_of-Allowed i l s (shard_transition i l to res msg p c s) (λ s' e. (
      Step.transition i l to res msg p c n e,
      shard_transition-IsAnswered i l to res msg p c s s' h e,
      transition-held i l to res msg p c s s' e,
    ))

pub complete_shard-Allowed :
    (i l p : ℕ) (res : Option Bytes) (c : Option Counters) (s : Store)
    → Allowed i l s (answer_of (complete_shard i l p res c s))
unfolding complete_shard
complete_shard-Allowed i l p res c s =
    transition-Allowed i l ShardState.done res [] p c s (λ e. cc) refl

pub requeue_shard-Allowed :
    (i l : ℕ) (msg : Bytes) (s : Store) → Allowed i l s (answer_of (requeue_shard i l msg s))
unfolding requeue_shard
requeue_shard-Allowed i l msg s =
    transition-Allowed i l ShardState.queued none msg 0 none s (λ e. cc) refl

pub release_shard-Allowed : (i l : ℕ) (s : Store) → Allowed i l s (answer_of (release_shard i l s))
unfolding release_shard
release_shard-Allowed i l s =
    transition-Allowed i l ShardState.queued none [] 0 none s (λ e. cc) refl

pub park_shard-Allowed :
    (i l : ℕ) (msg : Bytes) (s : Store) → Allowed i l s (answer_of (park_shard i l msg s))
unfolding park_shard
park_shard-Allowed i l msg s =
    transition-Allowed i l ShardState.parked none msg 0 none s (λ e. cc) refl

finish_rows-IsAnswered :
    (i l : ℕ) (s : Store) → IsAnswered i l (update_shards (is_held i l) finish_row s.shards)
finish_rows-IsAnswered i l s = update_shards-IsAnswered i l finish_row s.shards (λ r. refl)

data_chunk-held :
    (i l p : ℕ) (rel : Bytes) (fin : NewShard) (c : Option Counters) (s s' : Store) (b : Bool)
    → complete_data_chunk i l p rel fin c s ≡ ok (s', b)
    → count_where (is_held i l) s.shards.rows ≢ 0
unfolding complete_data_chunk finish_held
data_chunk-held i l p rel fin c s s' b e = λ z. ground arith

finalize-held :
    (i l p : ℕ) (rel : Bytes) (c : Option Counters) (s s' : Store)
    → complete_finalize_chunk i l p rel c s ≡ ok s'
    → count_where (is_held i l) s.shards.rows ≢ 0
unfolding complete_finalize_chunk finish_held
finalize-held i l p rel c s s' e = λ z. ground arith

abort-held :
    (i l p : ℕ) (rel : Bytes) (s s' : Store)
    → abort_chunk_group i l p rel s ≡ ok s'
    → count_where (is_held i l) s.shards.rows ≢ 0
unfolding abort_chunk_group finish_held
abort-held i l p rel s s' e = λ z. ground arith

remainder-held :
    (build : Bytes → NewShard) (i l p : ℕ) (rel : Bytes) (res : Option Bytes) (b : Bool)
    (c : NewShard) (ds : List Bytes) (k : Option Counters) (s s' : Store)
    → complete_delete_remainder build i l p rel res b c ds k s ≡ ok s'
    → count_where (is_held i l) s.shards.rows ≢ 0
unfolding complete_delete_remainder
remainder-held build i l p rel res b c ds k s s' e = λ z. ground arith

pub data_chunk-Allowed :
    (i l p : ℕ) (rel : Bytes) (fin : NewShard) (c : Option Counters) (s : Store)
    → Allowed i l s (answer_of (drop_seeded (complete_data_chunk i l p rel fin c s)))
data_chunk-Allowed i l p rel fin c s = by_result (complete_data_chunk i l p rel fin c s) refl
  where
    by_result :
        (r : Result (Store × Bool))
        → complete_data_chunk i l p rel fin c s ≡ r
        → Allowed i l s (answer_of (drop_seeded r))
    by_result (err x) e = refuse-Allowed i l s x
    by_result (ok (s', b)) e = (
      Step.chunk i l p rel fin c b e,
      complete_data_chunk-keeps (IsAnswered i l) (insert_one-IsAnswered i l) i l p rel fin c s s' b
          (finish_rows-IsAnswered i l s) e,
      data_chunk-held i l p rel fin c s s' b e,
    )

pub finalize-Allowed :
    (i l p : ℕ) (rel : Bytes) (c : Option Counters) (s : Store)
    → Allowed i l s (answer_of (complete_finalize_chunk i l p rel c s))
finalize-Allowed i l p rel c s =
    answer_of-Allowed i l s (complete_finalize_chunk i l p rel c s) (λ s' e. (
      Step.finalize i l p rel c e,
      complete_finalize_chunk-keeps (IsAnswered i l) (insert_one-IsAnswered i l) i l p rel c s s'
          (finish_rows-IsAnswered i l s) e,
      finalize-held i l p rel c s s' e,
    ))

pub abort-Allowed :
    (i l p : ℕ) (rel : Bytes) (s : Store)
    → Allowed i l s (answer_of (abort_chunk_group i l p rel s))
abort-Allowed i l p rel s = answer_of-Allowed i l s (abort_chunk_group i l p rel s) (λ s' e. (
  Step.abort i l p rel e,
  abort_chunk_group-keeps (IsAnswered i l) (insert_one-IsAnswered i l) i l p rel s s'
      (finish_rows-IsAnswered i l s) e,
  abort-held i l p rel s s' e,
))

pub remainder-Allowed :
    (build : Bytes → NewShard) (i l p : ℕ) (rel : Bytes) (res : Option Bytes) (b : Bool)
    (c : NewShard) (ds : List Bytes) (k : Option Counters) (s : Store)
    → Allowed i l s (answer_of (complete_delete_remainder build i l p rel res b c ds k s))
remainder-Allowed build i l p rel res b c ds k s =
    answer_of-Allowed i l s (complete_delete_remainder build i l p rel res b c ds k s) (λ s' e. (
      Step.remainder build i l p rel res b c ds k e,
      complete_delete_remainder-keeps (IsAnswered i l) (insert_one-IsAnswered i l) build i l p rel
          res b c ds k s s' (update_shards-IsAnswered i l (finish_delete res) s.shards (λ r. refl))
          e,
      remainder-held build i l p rel res b c ds k s s' e,
    ))
