-- ===== src/Store/Splits/Again.antt =====
-- coordinator/internal/store/store.go, RecordSplit: a split that is sent again.
use drsync.Prelude.{
  ℕ, ◌≡◌, refl, ap, ◌∙◌, Bool, true, false, List, [], ◌∷◌, ◌++◌, Option, none, some, Bytes, ==_refl,
  find_row, arith, not, update_where, Bool-cases, inl, inr, is_some,
}
use drsync.Store.Schema.{Shard, Split, DeleteGroup, Store}
use drsync.Store.Shards.{NewShard, insert_shards, has_id}
use drsync.Store.DeleteGroups.{
  ancestors, is_closeable, is_open_group, is_delete_group, with_groups, seed_cleanup, drop_pending,
  close_parent, close_group, close_if,
}
use drsync.Store.Splits.{
  NewLinkSighting, DeleteGroupTotal, SplitWork, is_link_group, record_sighting, record_sightings,
  add_total, record_total, total_counted, record_totals, is_split, new_split, write_work,
  write_split, split_or_known, record_split,
}

splits-record_sightings :
    (p m : ℕ) (sgs : List NewLinkSighting) (s : Store)
    → (record_sightings p m sgs s).splits ≡ s.splits
unfolding record_sightings
splits-record_sightings p m [] s = refl
splits-record_sightings p m (sg ∷ sgs) s =
    elim (Bool-cases (is_some (find_row (is_link_group p sg) s.link_groups))) [
      | inl t ↦ splits-record_sightings p m sgs (record_sighting p m sg s) ∙ rw t refl
      | inr f ↦ splits-record_sightings p m sgs (record_sighting p m sg s) ∙ rw f refl
    ]

splits-seed_cleanup :
    (p : ℕ) (b : Bool) (c : NewShard) (s : Store) → (seed_cleanup p b c s).splits ≡ s.splits
splits-seed_cleanup p true c s = refl
splits-seed_cleanup p false c s = refl

splits-close_parent :
    (xs : List Split) (a b c : Store) (o : Option DeleteGroup)
    → a.splits ≡ xs
    → b.splits ≡ xs
    → c.splits ≡ xs
    → (close_parent a b c o).splits ≡ xs
splits-close_parent xs a b c none ha hb hc = ha
splits-close_parent xs a b c (some g) ha hb hc = elim (Bool-cases (is_closeable (drop_pending g))) [
  | inl t ↦ rw t hc
  | inr f ↦ rw f hb
]

splits-close_group :
    (build : Bytes → NewShard) (p : ℕ) (rel : Bytes) (b : Bool) (c : NewShard) (up : List Bytes)
    (s : Store)
    → (close_group build p rel b c up s).splits ≡ s.splits
unfolding close_group
splits-close_group build p rel b c [] s = splits-seed_cleanup p b c s
splits-close_group build p rel b c (q ∷ qs) s =
    splits-close_parent s.splits _ _ _ (find_row (is_open_group p q) _)
      (splits-seed_cleanup p b c s) (splits-seed_cleanup p b c s)
      (splits-close_group build p q true (build q) qs _ ∙ splits-seed_cleanup p b c s)

splits-close_if :
    (build : Bytes → NewShard) (p : ℕ) (rel : Bytes) (b : Bool) (c : NewShard) (g : DeleteGroup)
    (s : Store)
    → (close_if build p rel b c g s).splits ≡ s.splits
splits-close_if build p rel b c g s = elim (Bool-cases (is_closeable g)) [
  | inl t ↦ rw t (splits-close_group build p rel b c (ancestors rel) s)
  | inr f ↦ rw f refl
]

splits-total_counted :
    (build : Bytes → NewShard) (p : ℕ) (dt : DeleteGroupTotal) (s : Store) (o : Option DeleteGroup)
    → (total_counted build p dt s o).splits ≡ s.splits
splits-total_counted build p dt s none = refl
splits-total_counted build p dt s (some g) =
    splits-close_if build p dt.dir_rel (not dt.no_self_cleanup) (build dt.dir_rel)
      (add_total dt.last_batch g)
      (with_groups
        (update_where (is_delete_group p dt.dir_rel) (add_total dt.last_batch) s.delete_groups) s)

splits-record_totals :
    (build : Bytes → NewShard) (p : ℕ) (dts : List DeleteGroupTotal) (s : Store)
    → (record_totals build p dts s).splits ≡ s.splits
unfolding record_totals
splits-record_totals build p [] s = refl
splits-record_totals build p (dt ∷ dts) s =
    splits-record_totals build p dts (record_total build p dt s)
    ∙ splits-total_counted build p dt _ (find_row (is_delete_group p dt.dir_rel) _)

splits-write_work :
    (build : Bytes → NewShard) (parent p : ℕ) (w : SplitWork) (s : Store)
    → (write_work build parent p w s).splits ≡ s.splits
unfolding write_work
splits-write_work build parent p w s =
    splits-record_totals build p w.totals _
    ∙ splits-record_sightings p w.max_group_scan w.sightings _

find-appended :
    (parent seq : ℕ) (ids : List ℕ) (ps : List Split)
    → find_row (is_split parent seq) ps ≡ none
    → find_row (is_split parent seq) (ps ++ new_split parent seq ids ∷ [])
      ≡ some (new_split parent seq ids)
find-appended parent seq ids [] h = rw (==_refl parent, ==_refl seq) refl
find-appended parent seq ids (x ∷ xs) h = elim (Bool-cases (is_split parent seq x)) [
  | inl t ↦ ground arith
  | inr f ↦ rw f (find-appended parent seq ids xs (ground arith))
]

-- A split that is sent again is answered as it was the first time and writes nothing more: neither
-- shards nor groups, sightings or totals; also a split whose parent is gone.
pub record_split_again :
    (build : Bytes → NewShard) (parent seq : ℕ) (w w' : SplitWork) (s : Store)
    → record_split build parent seq w' (record_split build parent seq w s).0
      ≡ record_split build parent seq w s
unfolding record_split
record_split_again build parent seq w w' s = known (find_row (is_split parent seq) s.splits) refl
  where
    written :
        (o : Option Shard)
        → find_row (has_id parent) s.shards.rows ≡ o
        → find_row (is_split parent seq) s.splits ≡ none
        → split_or_known build parent seq w'
            (write_split build parent seq w s o).0
            (find_row (is_split parent seq) (write_split build parent seq w s o).0.splits)
          ≡ write_split build parent seq w s o
    written none h e =
        ap (split_or_known build parent seq w' s) e ∙ ap (write_split build parent seq w' s) h
    written (some r) h e =
        ap (split_or_known build parent seq w' (write_split build parent seq w s (some r)).0) (
          ap
            (λ (xs : List Split). find_row (is_split parent seq) (
              xs ++ new_split parent seq (insert_shards r.pass_id parent w.shards s.shards).1 ∷ []))
            (splits-write_work build parent r.pass_id w s)
          ∙ find-appended parent seq (insert_shards r.pass_id parent w.shards s.shards).1 s.splits
              e)

    known :
        (o : Option Split)
        → find_row (is_split parent seq) s.splits ≡ o
        → split_or_known build parent seq w'
            (split_or_known build parent seq w s o).0
            (find_row (is_split parent seq) (split_or_known build parent seq w s o).0.splits)
          ≡ split_or_known build parent seq w s o
    known (some q) e = ap (split_or_known build parent seq w' s) e
    known none e = written (find_row (has_id parent) s.shards.rows) refl e
