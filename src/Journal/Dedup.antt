-- ===== src/Journal/Dedup.antt =====
-- coordinator/internal/journal, Summary: the records that it has seen.
use drsync.Prelude.{
  ◌≡◌, refl, ◌∙◌, ap, Bool, true, false, ◌||◌, List, [], ◌∷◌, ◌++◌, bytes_eq, bytes_eq_refl,
  ==_refl, ◌==◌, eq_of_==, eq_of_bytes_eq, &&_true, ◌⊎◌, All, All-weaken, Bool-cases, inl, inr,
  arith,
}
use drsync.Journal.{JournalRecord, same_record, is_seen, fresh_records}

-- Records that were all seen add nothing.
All-seen :
    (seen rs : List JournalRecord)
    → All (λ r. is_seen seen r ≡ true) rs
    → fresh_records seen rs ≡ []
unfolding fresh_records
All-seen seen [] h = refl
All-seen seen (r ∷ rs) h = rw h.0 (All-seen seen rs h.1)

same_record_as :
    (x r q : JournalRecord)
    → same_record x r ≡ true
    → same_record r q ≡ true
    → same_record x q ≡ true
same_record_as x r q h k =
    let a = &&_true (x.type_no == r.type_no) (bytes_eq x.rel_path r.rel_path) h in
    let b = &&_true (r.type_no == q.type_no) (bytes_eq r.rel_path q.rel_path) k in
    let et : x.type_no ≡ q.type_no =
      eq_of_== x.type_no r.type_no a.0 ∙ eq_of_== r.type_no q.type_no b.0 in
    let ep : x.rel_path ≡ q.rel_path =
      eq_of_bytes_eq x.rel_path r.rel_path a.1 ∙ eq_of_bytes_eq r.rel_path q.rel_path b.1 in
    ground (arith, et, ep, ==_refl q.type_no, bytes_eq_refl q.rel_path)

is_seen_as :
    (seen : List JournalRecord) (r q : JournalRecord)
    → is_seen seen r ≡ true
    → same_record r q ≡ true
    → is_seen seen q ≡ true
unfolding is_seen
is_seen_as [] r q h k = cc
is_seen_as (x ∷ xs) r q h k = elim (Bool-cases (same_record x r)) [
  | inl t ↦ rw (same_record_as x r q t k) refl
  | inr f ↦ or_right (same_record x q) (is_seen xs q) (is_seen_as xs r q (rw f at h) k)
]
  where
    or_right : (a b : Bool) → b ≡ true → (a || b) ≡ true
    or_right true b e = refl
    or_right false b e = e

-- A record that was seen, or is among others, is known.
abbrev pub IsKnown : List JournalRecord → List JournalRecord → JournalRecord → Type 0
IsKnown seen rs q = (is_seen seen q ≡ true) ⊎ (is_seen rs q ≡ true)

IsKnown-skip :
    (seen rs : List JournalRecord) (r q : JournalRecord)
    → is_seen seen r ≡ true
    → IsKnown seen (r ∷ rs) q
    → IsKnown seen rs q
unfolding is_seen
IsKnown-skip seen rs r q h (inl e) = inl e
IsKnown-skip seen rs r q h (inr e) = elim (Bool-cases (same_record r q)) [
  | inl t ↦ inl (is_seen_as seen r q h t)
  | inr f ↦ inr (rw f at e)
]

IsKnown-add :
    (seen rs : List JournalRecord) (r q : JournalRecord)
    → IsKnown seen (r ∷ rs) q
    → IsKnown (r ∷ seen) rs q
unfolding is_seen
IsKnown-add seen rs r q (inl e) = inl (ground (arith, e))
IsKnown-add seen rs r q (inr e) = elim (Bool-cases (same_record r q)) [
  | inl t ↦ inl (rw t refl)
  | inr f ↦ inr (rw f at e)
]

seen_of_known :
    (seen : List JournalRecord) (q : JournalRecord) → IsKnown seen [] q → is_seen seen q ≡ true
unfolding is_seen
seen_of_known seen q (inl e) = e
seen_of_known seen q (inr e) = cc

-- Summary counts a record once however often it is journaled: records that follow, each with the type and
-- path of an earlier one, as a shard that runs again journals them, change nothing.
pub fresh_records_again :
    (seen rs again : List JournalRecord)
    → All (IsKnown seen rs) again
    → fresh_records seen (rs ++ again) ≡ fresh_records seen rs
unfolding fresh_records
fresh_records_again seen [] again h =
    All-seen seen again
      (All-weaken (IsKnown seen []) (λ q. is_seen seen q ≡ true) (seen_of_known seen) again h)
fresh_records_again seen (r ∷ rs) again h = elim (Bool-cases (is_seen seen r)) [
  | inl t ↦ rw t (
      fresh_records_again seen rs again (
        All-weaken (IsKnown seen (r ∷ rs)) (IsKnown seen rs) (λ q k. IsKnown-skip seen rs r q t k)
          again h))
  | inr f ↦ rw f (
      ap (λ l. r ∷ l)
        (fresh_records_again (r ∷ seen) rs again (
          All-weaken (IsKnown seen (r ∷ rs)) (IsKnown (r ∷ seen) rs)
            (λ q k. IsKnown-add seen rs r q k) again h)))
]
