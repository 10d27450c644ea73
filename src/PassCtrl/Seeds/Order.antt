-- ===== src/PassCtrl/Seeds/Order.antt =====
-- coordinator/internal/passctrl/passctrl.go, seedDeletePass: the order and the size of delete tasks.
use drsync.Prelude.{◌≡◌, sym, ap, ◌∙◌, subst, Bool, List, Bytes, All, count_where, arith}
use drsync.PassCtrl.Batches.{
  batches, flat, IsBatch, batches_cover, deepest_first, IsDeepestFirst, deepest_first_lem,
}
use drsync.PassCtrl.Seeds.{JournalRecord, delete_batch_size, orphan_paths, delete_batches}

-- The delete tasks of a pass, one after the other, list its orphans deepest first, so no directory
-- before what lies in it; they list as many paths that satisfy any test as there are such orphans; and
-- each task has at least one path and at most the batch size of them.
pub delete_batches_order :
    (p : Bytes → Bool) (rs : List JournalRecord)
    → IsDeepestFirst (λ q. q) (flat (delete_batches rs))
      × (count_where p (flat (delete_batches rs)) ≡ count_where p (orphan_paths rs))
      × All (IsBatch delete_batch_size) (delete_batches rs)
unfolding delete_batches
delete_batches_order p rs =
    let sorted : List Bytes = deepest_first (λ q. q) (orphan_paths rs) in
    let cover : (flat (batches delete_batch_size sorted) ≡ sorted)
        × All (IsBatch delete_batch_size) (batches delete_batch_size sorted) =
      batches_cover delete_batch_size sorted (omega arith) in
    let order : IsDeepestFirst (λ q. q) sorted
        × (count_where p sorted ≡ count_where p (orphan_paths rs)) =
      deepest_first_lem (λ q. q) p (orphan_paths rs) in
    (
      subst (IsDeepestFirst (λ q. q)) (sym cover.0) order.0,
      ap (count_where p) cover.0 ∙ order.1,
      cover.1,
    )
