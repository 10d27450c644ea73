-- ===== src/Store/Shards/Transitions.antt =====
-- coordinator/internal/store/store.go: CompleteShard, RequeueShard, ReleaseShard and ParkShard.
use drsync.Prelude.{ℕ, ◌≡◌, refl, ◌≢◌, false, Option, Bytes, arith, count_where-update_where_zero}
use drsync.Model.States.{ShardState}
use drsync.Store.Schema.{Shard, Counters, Store, Error, ok, err}
use drsync.Store.Triggers.{update_shards}
use drsync.Store.Shards.{is_held, move_to, shard_transition, accumulate}
use drsync.Store.Shards.Valid.{IsRow, IsValid, update_shards-IsValid}

move_to-IsRow :
    (to : ShardState) (res : Option Bytes) (msg : Bytes) (r : Shard)
    → to ≢ ShardState.leased
    → IsRow r
    → IsRow (move_to to res msg r)
move_to-IsRow to res msg r h v = record {
  leased_held = λ e. absurd (h (ground arith));
  queued_free = λ e. refl;
  known_agent = v.known_agent;
  ranked = v.ranked;
}

move_to-not_held :
    (i l : ℕ) (to : ShardState) (res : Option Bytes) (msg : Bytes) (r : Shard)
    → is_held i l (move_to to res msg r) ≡ false
move_to-not_held i l to res msg r = ground arith

shard_transition-ok :
    (i l : ℕ) (to : ShardState) (res : Option Bytes) (msg : Bytes) (p : ℕ) (c : Option Counters)
    (s s' : Store)
    → shard_transition i l to res msg p c s ≡ ok s'
    → s' ≡ record s {
      shards = update_shards (is_held i l) (move_to to res msg) s.shards;
      passes = accumulate p c s.passes;
    }
unfolding shard_transition
shard_transition-ok i l to res msg p c s s' e = ground arith

-- A transition to any state but LEASED keeps the table valid, its rollup included.
pub shard_transition-IsValid :
    (i l : ℕ) (to : ShardState) (res : Option Bytes) (msg : Bytes) (p : ℕ) (c : Option Counters)
    (s s' : Store)
    → to ≢ ShardState.leased
    → IsValid s.shards
    → shard_transition i l to res msg p c s ≡ ok s'
    → IsValid s'.shards
shard_transition-IsValid i l to res msg p c s s' h v e =
    rw (shard_transition-ok i l to res msg p c s s' e) (
      update_shards-IsValid (is_held i l) (move_to to res msg) s.shards (λ r. refl)
        (λ r _ q. move_to-IsRow to res msg r h q) v)

-- A lease is good for one transition: a result for it that comes again, for the same shard, is
-- refused, whatever the first transition and the second were.
pub transition_twice :
    (i l : ℕ) (to to' : ShardState) (res res' : Option Bytes) (msg msg' : Bytes) (p p' : ℕ)
    (c c' : Option Counters) (s s' : Store)
    → shard_transition i l to res msg p c s ≡ ok s'
    → shard_transition i l to' res' msg' p' c' s' ≡ err Error.lease_mismatch
unfolding shard_transition update_shards
transition_twice i l to to' res res' msg msg' p p' c c' s s' e =
    rw (shard_transition-ok i l to res msg p c s s' e) (
      rw
        (count_where-update_where_zero (is_held i l) (is_held i l) (move_to to res msg)
          (λ r _. move_to-not_held i l to res msg r) (λ r h. h) s.shards.rows)
        refl)
