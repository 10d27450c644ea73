-- ===== src/Store/DeleteGroups/Closing.antt =====
-- coordinator/internal/store/store.go, closeDeleteGroupTx: properties of the shard table under the insertion of a
-- shard.
use drsync.Prelude.{
  ℕ, ◌≡◌, Bool, true, false, List, [], ◌∷◌, Option, none, some, Bytes, Bool-cases, Option-cases,
  subst, inl, inr, find_row, ◌==◌, count_where,
}
use drsync.Store.Schema.{ShardTable, Counters, DeleteGroup, Store, Result, ok, err}
use drsync.Store.Triggers.{update_shards}
use drsync.Store.Shards.{NewShard, is_held, insert_shards}
use drsync.Store.DeleteGroups.{
  ancestors, is_closeable, is_open_group, is_delete_group, seed_cleanup, drop_pending, add_done,
  close_parent, close_group, close_if, bump_group, bump_own, bump_deferred, finish_delete, and_then,
  finish_remainder, complete_delete_remainder,
}

module _ (P : ShardTable → Type 0)
    (keep : (p : ℕ) (c : NewShard) (t : ShardTable)
      → P t
      → P (insert_shards p 0 (c ∷ []) t).0) where
  seed_cleanup-keeps :
      (p : ℕ) (b : Bool) (c : NewShard) (s : Store) → P s.shards → P (seed_cleanup p b c s).shards
  seed_cleanup-keeps p true c s v = keep p c s.shards v
  seed_cleanup-keeps p false c s v = v

  close_parent-keeps :
      (a b c : Store) (o : Option DeleteGroup)
      → P a.shards
      → P b.shards
      → P c.shards
      → P (close_parent a b c o).shards
  close_parent-keeps a b c none ha hb hc = ha
  close_parent-keeps a b c (some g) ha hb hc = elim (Bool-cases (is_closeable (drop_pending g))) [
    | inl t ↦ rw t hc
    | inr f ↦ rw f hb
  ]

  close_group-keeps :
      (build : Bytes → NewShard) (p : ℕ) (rel : Bytes) (b : Bool) (c : NewShard) (up : List Bytes)
      (s : Store)
      → P s.shards
      → P (close_group build p rel b c up s).shards
  unfolding close_group
  close_group-keeps build p rel b c [] s v = seed_cleanup-keeps p b c s v
  close_group-keeps build p rel b c (q ∷ qs) s v =
      close_parent-keeps _ _ _ (find_row (is_open_group p q) _) (seed_cleanup-keeps p b c s v)
        (seed_cleanup-keeps p b c s v)
        (close_group-keeps build p q true (build q) qs _ (seed_cleanup-keeps p b c s v))

  pub close_if-keeps :
      (build : Bytes → NewShard) (p : ℕ) (rel : Bytes) (b : Bool) (c : NewShard) (g : DeleteGroup)
      (s : Store)
      → P s.shards
      → P (close_if build p rel b c g s).shards
  close_if-keeps build p rel b c g s v = elim (Bool-cases (is_closeable g)) [
    | inl t ↦ rw t (close_group-keeps build p rel b c (ancestors rel) s v)
    | inr f ↦ rw f v
  ]

  -- What is accepted leaves a table with the property.
  abbrev pub Keeps : Result Store → Type 0
  Keeps (ok s) = P s.shards
  Keeps (err e) = Unit

  and_then-Keeps :
      (r : Result Store) (next : Store → Result Store)
      → Keeps r
      → ((s : Store) → P s.shards → Keeps (next s))
      → Keeps (and_then r next)
  and_then-Keeps (err e) next v f = tt
  and_then-Keeps (ok s) next v f = f s v

  bump_group-Keeps :
      (build : Bytes → NewShard) (p : ℕ) (rel : Bytes) (b : Bool) (c : NewShard) (s : Store)
      → P s.shards
      → Keeps (bump_group build p rel b c s)
  unfolding bump_group
  bump_group-Keeps build p rel b c s v =
      elim (Option-cases (find_row (is_delete_group p rel) s.delete_groups)) [
        | inl n ↦ rw (n, bump_group) tt
        | inr (g, e) ↦ rw (e, bump_group) (close_if-keeps build p rel b c (add_done g) _ v)
      ]

  bump_deferred-Keeps :
      (build : Bytes → NewShard) (p : ℕ) (ds : List Bytes) (s : Store)
      → P s.shards
      → Keeps (bump_deferred build p ds s)
  unfolding bump_deferred
  bump_deferred-Keeps build p [] s v = v
  bump_deferred-Keeps build p (d ∷ ds) s v =
      and_then-Keeps _ (bump_deferred build p ds) (bump_group-Keeps build p d true (build d) _ v)
        (λ s₁ v₁. bump_deferred-Keeps build p ds s₁ v₁)

  bump_own-Keeps :
      (build : Bytes → NewShard) (p : ℕ) (rel : Bytes) (b : Bool) (c : NewShard) (s : Store)
      → P s.shards
      → Keeps (bump_own build p rel b c s)
  bump_own-Keeps build p [] b c s v = v
  bump_own-Keeps build p (x ∷ xs) b c s v = bump_group-Keeps build p (x ∷ xs) b c _ v

  remainder-Keeps :
      (build : Bytes → NewShard) (i l p : ℕ) (rel : Bytes) (res : Option Bytes) (b : Bool)
      (c : NewShard) (ds : List Bytes) (k : Option Counters) (s : Store)
      → P (update_shards (is_held i l) (finish_delete res) s.shards)
      → Keeps (complete_delete_remainder build i l p rel res b c ds k s)
  unfolding complete_delete_remainder
  remainder-Keeps build i l p rel res b c ds k s v =
      elim (Bool-cases (count_where (is_held i l) s.shards.rows == 0)) [
        | inl t ↦ rw t tt
        | inr f ↦ rw f (
            and_then-Keeps _ (bump_deferred build p ds)
              (bump_own-Keeps build p rel b c (finish_remainder i l p res k s) v)
              (λ s₁ v₁. bump_deferred-Keeps build p ds s₁ v₁))
      ]

  pub complete_delete_remainder-keeps :
      (build : Bytes → NewShard) (i l p : ℕ) (rel : Bytes) (res : Option Bytes) (b : Bool)
      (c : NewShard) (ds : List Bytes) (k : Option Counters) (s s' : Store)
      → P (update_shards (is_held i l) (finish_delete res) s.shards)
      → complete_delete_remainder build i l p rel res b c ds k s ≡ ok s'
      → P s'.shards
  complete_delete_remainder-keeps build i l p rel res b c ds k s s' v e =
      subst Keeps e (remainder-Keeps build i l p rel res b c ds k s v)
