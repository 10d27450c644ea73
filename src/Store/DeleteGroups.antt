-- ===== src/Store/DeleteGroups.antt =====
-- coordinator/internal/store/store.go: delete_groups, the directories whose removal waits for the deletion of what lies
-- in them.
pub mod Closing
pub mod Valid
use drsync.Prelude.{
  ℕ, suc, ◌-◌, Bool, true, false, ◌&&◌, not, List, [], ◌∷◌, ◌++◌, Option, none, some, Bytes,
  bytes_eq, ◌==◌, leb, if◌then◌else◌, find_row, count_where, update_where, map, is_some,
}
use drsync.Model.States.{ShardState}
use drsync.Store.Schema.{Shard, Counters, DeleteGroup, Store, Error, Result, ok, err}
use drsync.Store.Triggers.{update_shards}
use drsync.Store.Shards.{NewShard, insert_shards, is_held, coalesce, accumulate}

-- deleteGroupParent, over and over: the parent of a path, the parent's parent, and so on.
unfoldable pub ancestors : Bytes → List Bytes
ancestors [] = []
ancestors (b ∷ bs) = map (λ (p : Bytes). b ∷ p) (ancestors bs) ++ (if b == 47 then [] ∷ [] else [])

abbrev pub is_delete_group : ℕ → Bytes → DeleteGroup → Bool
is_delete_group pass_id rel_path g = (g.pass_id == pass_id) && bytes_eq g.rel_path rel_path

-- … AND closed = 0
abbrev pub is_open_group : ℕ → Bytes → DeleteGroup → Bool
is_open_group pass_id rel_path g = is_delete_group pass_id rel_path g && not g.closed

abbrev pub new_group : ℕ → Bytes → DeleteGroup
new_group pass_id rel_path = record {
  pass_id = pass_id;
  rel_path = rel_path;
  n_total = 0;
  n_done = 0;
  done_streaming = false;
  pending_children = 0;
  pending_dropped = 0;
  closed = false;
}

-- The row of a directory that waits for its own removal alone.
abbrev pub waiting_group : ℕ → Bytes → DeleteGroup
waiting_group pass_id rel_path = record (new_group pass_id rel_path) {
  n_total = 1;
  done_streaming = true;
}

-- INSERT OR IGNORE, and whether a row was inserted.
abbrev pub insert_group : DeleteGroup → List DeleteGroup → List DeleteGroup × Bool
insert_group g gs =
    if is_some (find_row (is_delete_group g.pass_id g.rel_path) gs)
    then (gs, false)
    else (gs ++ g ∷ [], true)

abbrev pub add_pending : DeleteGroup → DeleteGroup
add_pending g = record g { pending_children = suc g.pending_children }

-- registerPendingChildTx, over the ancestors of the child.
unfoldable pub register_pending : ℕ → List Bytes → List DeleteGroup → List DeleteGroup
register_pending pass_id [] gs = gs
register_pending pass_id (p ∷ ps) gs =
    let r = insert_group (waiting_group pass_id p) gs in
    let bumped = update_where (is_open_group pass_id p) add_pending r.0 in
    let further = register_pending pass_id ps bumped in if r.1 then further else bumped

-- Not (closed != 0 || doneStreaming == 0 || nDone < nTotal || pending > 0).
abbrev pub is_closeable : DeleteGroup → Bool
is_closeable g =
    not g.closed
    && (g.done_streaming && (leb g.n_total g.n_done && leb g.pending_children g.pending_dropped))

-- pending_children = pending_children - 1
abbrev pub drop_pending : DeleteGroup → DeleteGroup
drop_pending g = record g { pending_dropped = suc g.pending_dropped }

abbrev pub close_row : DeleteGroup → DeleteGroup
close_row g = record g { closed = true }

abbrev pub with_groups : List DeleteGroup → Store → Store
with_groups gs s = record s { delete_groups = gs }

abbrev pub seed_cleanup : ℕ → Bool → NewShard → Store → Store
seed_cleanup pass_id seed cleanup s =
    if seed then record s { shards = (insert_shards pass_id 0 (cleanup ∷ []) s.shards).0 } else s

-- The row that the parent's UPDATE returns, if any: nothing more, the parent counted down, or the
-- parent closed as well.
abbrev pub close_parent : Store → Store → Store → Option DeleteGroup → Store
close_parent stay dropped further none = stay
close_parent stay dropped further (some g) =
    if is_closeable (drop_pending g) then further else dropped

-- closeDeleteGroupTx; the list holds the ancestors of the path.
unfoldable pub close_group :
    (Bytes → NewShard) → ℕ → Bytes → Bool → NewShard → List Bytes → Store → Store
close_group build pass_id rel_path seed cleanup [] s =
    let seeded = seed_cleanup pass_id seed cleanup s in
    with_groups (update_where (is_delete_group pass_id rel_path) close_row seeded.delete_groups)
      seeded
close_group build pass_id rel_path seed cleanup (p ∷ ps) s =
    let seeded = seed_cleanup pass_id seed cleanup s in
    let closed = update_where (is_delete_group pass_id rel_path) close_row seeded.delete_groups in
    let dropped = with_groups (update_where (is_open_group pass_id p) drop_pending closed) seeded in
    let further = close_group build pass_id p true (build p) ps dropped in
    close_parent (with_groups closed seeded) dropped further
      (find_row (is_open_group pass_id p) closed)

abbrev pub add_done : DeleteGroup → DeleteGroup
add_done g = record g { n_done = suc g.n_done }

abbrev pub close_if : (Bytes → NewShard) → ℕ → Bytes → Bool → NewShard → DeleteGroup → Store → Store
close_if build pass_id rel_path seed cleanup g s =
    if is_closeable g
    then close_group build pass_id rel_path seed cleanup (ancestors rel_path) s
    else s

-- bumpAndMaybeCloseDeleteGroupTx
unfoldable pub bump_group : (Bytes → NewShard) → ℕ → Bytes → Bool → NewShard → Store → Result Store
bump_group build pass_id rel_path seed cleanup s =
    elim (find_row (is_delete_group pass_id rel_path) s.delete_groups) [
      | none ↦ err Error.no_rows
      | some g ↦ ok (
          close_if build pass_id rel_path seed cleanup (add_done g) (
            with_groups (update_where (is_delete_group pass_id rel_path) add_done s.delete_groups)
              s))
    ]

-- A new row of a directory makes it a pending child of its parent.
abbrev pub open_group : ℕ → Bytes → List DeleteGroup → List DeleteGroup
open_group pass_id rel_path gs =
    let r = insert_group (new_group pass_id rel_path) gs in
    if r.1 then register_pending pass_id (ancestors rel_path) r.0 else r.0

-- SET state = 'DONE', result = COALESCE(?, result): the lease id stays.
abbrev pub finish_delete : Option Bytes → Shard → Shard
finish_delete result r = record r { state = ShardState.done; result = coalesce result r.result }

-- `if err != nil { return err }`, before what comes next; the transaction is rolled back.
abbrev pub and_then : Result Store → (Store → Result Store) → Result Store
and_then (err e) next = err e
and_then (ok s) next = next s

-- The loop over the directories that were processed but not removed.
unfoldable pub bump_deferred : (Bytes → NewShard) → ℕ → List Bytes → Store → Result Store
bump_deferred build pass_id [] s = ok s
bump_deferred build pass_id (d ∷ ds) s =
    and_then
      (bump_group build pass_id d true (build d)
        (with_groups (insert_group (waiting_group pass_id d) s.delete_groups).0 s))
      (bump_deferred build pass_id ds)

abbrev pub bump_own : (Bytes → NewShard) → ℕ → Bytes → Bool → NewShard → Store → Result Store
bump_own build pass_id [] seed cleanup s = ok s
bump_own build pass_id (b ∷ bs) seed cleanup s =
    bump_group build pass_id (b ∷ bs) seed cleanup
      (with_groups (open_group pass_id (b ∷ bs) s.delete_groups) s)

abbrev pub finish_remainder : ℕ → ℕ → ℕ → Option Bytes → Option Counters → Store → Store
finish_remainder shard_id lease_id pass_id result counters s = record s {
  shards = update_shards (is_held shard_id lease_id) (finish_delete result) s.shards;
  passes = accumulate pass_id counters s.passes;
}

-- CompleteDeleteRemainder
unfoldable pub complete_delete_remainder :
    (Bytes → NewShard)
    → ℕ
    → ℕ
    → ℕ
    → Bytes
    → Option Bytes
    → Bool
    → NewShard
    → List Bytes
    → Option Counters
    → Store
    → Result Store
complete_delete_remainder build shard_id lease_id pass_id rel_path result seed cleanup deferred
      counters s =
    if count_where (is_held shard_id lease_id) s.shards.rows == 0
    then err Error.lease_mismatch
    else and_then
        (bump_own build pass_id rel_path seed cleanup
          (finish_remainder shard_id lease_id pass_id result counters s))
        (bump_deferred build pass_id deferred)
