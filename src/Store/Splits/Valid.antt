-- ===== src/Store/Splits/Valid.antt =====
-- coordinator/internal/store/store.go, RecordSplit: the shard table.
use drsync.Prelude.{
  ℕ, ◌≡◌, refl, ◌∙◌, subst, sym, not, List, [], ◌∷◌, Option, none, some, Bytes, Bool-cases, inl,
  inr, find_row, is_some, update_where,
}
use drsync.Store.Schema.{Shard, Split, DeleteGroup, Store}
use drsync.Store.Shards.{NewShard, has_id}
use drsync.Store.Shards.Valid.{IsValid}
use drsync.Store.Shards.Insert.{insert_shards-IsValid}
use drsync.Store.DeleteGroups.{is_delete_group, with_groups}
use drsync.Store.DeleteGroups.Valid.{close_if-IsValid}
use drsync.Store.Splits.{
  NewLinkSighting, DeleteGroupTotal, SplitWork, is_link_group, record_sighting, record_sightings,
  add_total, record_total, total_counted, record_totals, is_split, write_work, write_split,
  split_or_known, record_split,
}

shards-record_sightings :
    (p m : ℕ) (sgs : List NewLinkSighting) (s : Store)
    → (record_sightings p m sgs s).shards ≡ s.shards
unfolding record_sightings
shards-record_sightings p m [] s = refl
shards-record_sightings p m (sg ∷ sgs) s =
    elim (Bool-cases (is_some (find_row (is_link_group p sg) s.link_groups))) [
      | inl t ↦ shards-record_sightings p m sgs (record_sighting p m sg s) ∙ rw t refl
      | inr f ↦ shards-record_sightings p m sgs (record_sighting p m sg s) ∙ rw f refl
    ]

total_counted-IsValid :
    (build : Bytes → NewShard) (p : ℕ) (dt : DeleteGroupTotal) (s : Store) (o : Option DeleteGroup)
    → IsValid s.shards
    → IsValid (total_counted build p dt s o).shards
total_counted-IsValid build p dt s none v = v
total_counted-IsValid build p dt s (some g) v =
    close_if-IsValid build p dt.dir_rel (not dt.no_self_cleanup) (build dt.dir_rel)
      (add_total dt.last_batch g)
      (with_groups
        (update_where (is_delete_group p dt.dir_rel) (add_total dt.last_batch) s.delete_groups) s)
      v

record_totals-IsValid :
    (build : Bytes → NewShard) (p : ℕ) (dts : List DeleteGroupTotal) (s : Store)
    → IsValid s.shards
    → IsValid (record_totals build p dts s).shards
unfolding record_totals
record_totals-IsValid build p [] s v = v
record_totals-IsValid build p (dt ∷ dts) s v =
    record_totals-IsValid build p dts (record_total build p dt s)
      (total_counted-IsValid build p dt _ (find_row (is_delete_group p dt.dir_rel) _) v)

write_work-IsValid :
    (build : Bytes → NewShard) (parent p : ℕ) (w : SplitWork) (s : Store)
    → IsValid s.shards
    → IsValid (write_work build parent p w s).shards
unfolding write_work
write_work-IsValid build parent p w s v = record_totals-IsValid build p w.totals _ (
    subst IsValid (sym (shards-record_sightings p w.max_group_scan w.sightings _))
      (insert_shards-IsValid p parent w.shards s.shards v))

-- RecordSplit keeps the shard table valid.
pub record_split-IsValid :
    (build : Bytes → NewShard) (parent seq : ℕ) (w : SplitWork) (s : Store)
    → IsValid s.shards
    → IsValid (record_split build parent seq w s).0.shards
unfolding record_split
record_split-IsValid build parent seq w s v = known (find_row (is_split parent seq) s.splits)
  where
    written : (o : Option Shard) → IsValid (write_split build parent seq w s o).0.shards
    written none = v
    written (some r) = write_work-IsValid build parent r.pass_id w s v

    known : (o : Option Split) → IsValid (split_or_known build parent seq w s o).0.shards
    known (some q) = v
    known none = written (find_row (has_id parent) s.shards.rows)
