-- ===== src/Store/Sweep/Expiry.antt =====
-- coordinator/internal/store/store.go: RenewLeasesByID and ExpireLeases on the rows.
use drsync.Prelude.{
  ℕ, ◌+◌, ◌≤◌, ◌≡◌, refl, Bool, true, false, ◌&&◌, not, List, [], ◌∷◌, some, Option, Bytes, ltb,
  leb, if◌then◌else◌, arith, ap, to_nat, map, count_where, update_where, Bool-cases, and-true, sym,
  select, inl, inr,
}
use mathlib.Core.Path.{ap₂}
use drsync.Model.States.{ShardState}
use drsync.Store.Schema.{Shard, Store, Counters, Error, err}
use drsync.Store.Triggers.{update_shards}
use drsync.Store.Shards.{is_held, shard_transition}
use drsync.Store.Shards.Valid.{IsRow, IsValid, update_shards-IsValid}
use drsync.Store.Sweep.{
  is_expired, is_retriable, requeue_row, park_row, expire_leases, max_shard_attempts, renew_leases,
  is_renewed, extend_row,
}

-- What the sweep is to make of one row: below the ceiling it returns to the queue, at the ceiling it
-- is parked, and a row whose lease has not run out stays as it is.
abbrev pub swept : ℕ → Bytes → Shard → Shard
swept ms ceiling r =
    if is_expired ms r
    then (if leb max_shard_attempts r.attempt then park_row ceiling r else requeue_row r)
    else r

-- One row under the two UPDATEs.
abbrev requeued : ℕ → Shard → Shard
requeued ms r = if is_retriable ms r then requeue_row r else r

swept_row :
    (ms : ℕ) (c : Bytes) (r : Shard)
    → (if is_expired ms (requeued ms r) then park_row c (requeued ms r) else requeued ms r)
      ≡ swept ms c r
swept_row ms c r = elim (Bool-cases (is_expired ms r)) [
  | inl e ↦ elim (Bool-cases (ltb r.attempt max_shard_attempts)) [
    | inl b ↦ ground arith
    | inr b ↦ ground arith
  ]
  | inr n ↦ ground arith
]

swept_rows :
    (ms : ℕ) (c : Bytes) (rs : List Shard)
    → update_where (is_expired ms) (park_row c) (update_where (is_retriable ms) requeue_row rs)
      ≡ map (swept ms c) rs
swept_rows ms c [] = refl
swept_rows ms c (r ∷ rs) = ap₂ ◌∷◌ (swept_row ms c r) (swept_rows ms c rs)

-- ExpireLeases, two UPDATEs over the whole table, does to each row what `swept` says: a lease that
-- ran out before `ms` returns its shard to the queue below the attempt ceiling and parks it at the
-- ceiling, and every other row stays as it was.
pub rows-expire_leases :
    (ms : ℕ) (ceiling : Bytes) (s : Store)
    → (expire_leases ms ceiling s).0.shards.rows ≡ map (swept ms ceiling) s.shards.rows
unfolding expire_leases update_shards
rows-expire_leases ms ceiling s = swept_rows ms ceiling s.shards.rows

requeue_row-IsRow : (r : Shard) → IsRow r → IsRow (requeue_row r)
requeue_row-IsRow r v = record {
  leased_held = λ h. ground arith;
  queued_free = λ h. refl;
  known_agent = v.known_agent;
  ranked = v.ranked;
}

park_row-IsRow : (c : Bytes) (r : Shard) → IsRow r → IsRow (park_row c r)
park_row-IsRow c r v = record {
  leased_held = λ h. ground arith;
  queued_free = λ h. refl;
  known_agent = v.known_agent;
  ranked = v.ranked;
}

pub expire_leases-IsValid :
    (ms : ℕ) (ceiling : Bytes) (s : Store)
    → IsValid s.shards
    → IsValid (expire_leases ms ceiling s).0.shards
unfolding expire_leases
expire_leases-IsValid ms c s v =
    update_shards-IsValid (is_expired ms) (park_row c) _ (λ r. refl) (λ r _. park_row-IsRow c r)
      (update_shards-IsValid (is_retriable ms) requeue_row s.shards (λ r. refl)
        (λ r _. requeue_row-IsRow r) v)

-- A row is held by (shard, lease) within a lease that has not run out at `ms`.
abbrev pub is_held_live : ℕ → ℕ → ℕ → Shard → Bool
is_held_live ms i l r = is_held i l r && not (is_expired ms r)

held-swept :
    (ms : ℕ) (c : Bytes) (i l : ℕ) (r : Shard) → is_held i l (swept ms c r) ≡ is_held_live ms i l r
held-swept ms c i l r = elim (Bool-cases (is_expired ms r)) [
  | inl e ↦ ground arith
  | inr n ↦ rw n (sym (and-true (is_held i l r)))
]

held-map-swept :
    (ms : ℕ) (c : Bytes) (i l : ℕ) (rs : List Shard)
    → count_where (is_held i l) (map (swept ms c) rs) ≡ count_where (is_held_live ms i l) rs
held-map-swept ms c i l [] = refl
held-map-swept ms c i l (r ∷ rs) =
    ap₂ ◌+◌ (ap to_nat (held-swept ms c i l r)) (held-map-swept ms c i l rs)

-- A result that arrives for a lease that had run out when the sweep came is refused, whatever it
-- reports: the shard has been given back, and the report of its old holder changes nothing.
pub expired_result_refused :
    (ms : ℕ) (c : Bytes) (i l : ℕ) (to : ShardState) (res : Option Bytes) (msg : Bytes) (p : ℕ)
    (k : Option Counters) (s : Store)
    → count_where (is_held_live ms i l) s.shards.rows ≡ 0
    → shard_transition i l to res msg p k (expire_leases ms c s).0 ≡ err Error.lease_mismatch
unfolding shard_transition
expired_result_refused ms c i l to res msg p k s h =
    rw (rows-expire_leases ms c s) (rw (held-map-swept ms c i l s.shards.rows) (rw h refl))

renewed-kept :
    (a : Bytes) (ids : List ℕ) (e ms : ℕ) (c : Bytes) (r : Shard)
    → ms ≤ e
    → is_renewed a ids r ≡ true
    → swept ms c (record r { lease_expiry = some e }) ≡ record r { lease_expiry = some e }
unfolding is_renewed
renewed-kept a ids e ms c r h t = ground arith

not_renewed-swept :
    (a : Bytes) (ids : List ℕ) (ms : ℕ) (c : Bytes) (r : Shard)
    → is_renewed a ids r ≡ false
    → is_renewed a ids (swept ms c r) ≡ false
unfolding is_renewed
not_renewed-swept a ids ms c r h = ground arith

renewed-extended :
    (a : Bytes) (ids : List ℕ) (e : ℕ) (r : Shard)
    → is_renewed a ids (extend_row e r) ≡ is_renewed a ids r
unfolding is_renewed
renewed-extended a ids e r = refl

heartbeat_rows :
    (a : Bytes) (ids : List ℕ) (e ms : ℕ) (c : Bytes)
    → ms ≤ e
    → (rs : List Shard)
    → select
        (is_renewed a ids)
        (map (swept ms c) (update_where (is_renewed a ids) (extend_row e) rs))
      ≡ map (extend_row e) (select (is_renewed a ids) rs)
heartbeat_rows a ids e ms c h [] = refl
heartbeat_rows a ids e ms c h (r ∷ rs) = elim (Bool-cases (is_renewed a ids r)) [
  | inl y ↦
      rw (y, renewed-kept a ids e ms c r h y)
        (rw (renewed-extended a ids e r)
          (rw y (ap (◌∷◌ (extend_row e r)) (heartbeat_rows a ids e ms c h rs))))
  | inr n ↦ rw n (rw (not_renewed-swept a ids ms c r n) (heartbeat_rows a ids e ms c h rs))
]

-- A heartbeat in time keeps every lease that it reports: if it extends them to `e`, a sweep at any
-- time up to `e` leaves exactly the rows that it renewed with those leases, changed in the expiry
-- alone.
pub heartbeat_keeps_leases :
    (a : Bytes) (ids : List ℕ) (e ms : ℕ) (c : Bytes) (s : Store)
    → ms ≤ e
    → select (is_renewed a ids) (expire_leases ms c (renew_leases a ids e s).0).0.shards.rows
      ≡ map (extend_row e) (select (is_renewed a ids) s.shards.rows)
unfolding renew_leases update_shards
heartbeat_keeps_leases a ids e ms c s h =
    rw (rows-expire_leases ms c (renew_leases a ids e s).0)
      (heartbeat_rows a ids e ms c h s.shards.rows)

pub renew_leases-IsValid :
    (a : Bytes) (ids : List ℕ) (e : ℕ) (s : Store)
    → IsValid s.shards
    → IsValid (renew_leases a ids e s).0.shards
unfolding renew_leases
renew_leases-IsValid a ids e s v =
    update_shards-IsValid (is_renewed a ids) (extend_row e) s.shards (λ r. refl)
      (λ r _ q. record {
        leased_held = λ h. ((q.leased_held h).0, refl, (q.leased_held h).2);
        queued_free = q.queued_free;
        known_agent = q.known_agent;
        ranked = q.ranked;
      })
      v
