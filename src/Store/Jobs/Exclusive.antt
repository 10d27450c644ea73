-- ===== src/Store/Jobs/Exclusive.antt =====
-- coordinator/internal/store/store.go: CreateJob, SetJobState and the destinations of jobs.
use drsync.Prelude.{
  ℕ, ◌≡◌, refl, sym, ap, ◌∙◌, Bool, true, false, List, [], ◌∷◌, ◌++◌, Option, none, some,
  Option-cases, inl, inr, Bytes, arith, All, All-pair, All-weaken, find_row, update_where,
  if◌then◌else◌, Bool-cases,
}
use drsync.Model.States.{JobState}
use drsync.Store.Schema.{Job, Store}
use drsync.Store.Jobs.{
  holds_destination, overlaps, is_conflict, destination_conflict, is_named, has_job_id, get_job,
  put_job_state, add_job, job_row, insert_job, check_job, create_job, set_job_state,
}

-- No row was found: none satisfies the test.
pub find_row-none :
    (p : Job → Bool) (js : List Job) → find_row p js ≡ none → All (λ j. p j ≡ false) js
find_row-none p [] h = tt
find_row-none p (j ∷ js) h = elim (Bool-cases (p j)) [
  | inl t ↦ ground (arith)
  | inr f ↦ (f, find_row-none p js (ground arith))
]

module _ (destination_of : Bytes → Option Bytes) where
  -- Two jobs that both hold their destinations: no destination of the one overlaps that of the other.
  abbrev pub Apart : Job → Job → Type 0
  Apart j k =
      (dst : Bytes)
      → holds_destination j.state ≡ true
      → holds_destination k.state ≡ true
      → destination_of k.spec_yaml ≡ some dst
      → overlaps dst (destination_of j.spec_yaml) ≡ false

  -- Every job is apart from each later one.
  unfoldable pub IsExclusive : List Job → Type 0
  IsExclusive [] = Unit
  IsExclusive (j ∷ js) = All (Apart j) js × IsExclusive js

  append-IsExclusive :
      (js : List Job) (k : Job)
      → All (λ j. Apart j k) js
      → IsExclusive js
      → IsExclusive (js ++ k ∷ [])
  unfolding IsExclusive
  append-IsExclusive [] k h e = (tt, tt)
  append-IsExclusive (j ∷ js) k h e =
      (All-snoc (Apart j) js k e.0 h.0, append-IsExclusive js k h.1 e.1)
    where
      All-snoc :
          (P : Job → Type 0) (xs : List Job) (x : Job) → All P xs → P x → All P (xs ++ x ∷ [])
      All-snoc P [] x h p = (p, tt)
      All-snoc P (y ∷ ys) x h p = (h.0, All-snoc P ys x h.1 p)

  new-Apart :
      (name spec dst : Bytes) (k j : Job)
      → k.spec_yaml ≡ spec
      → destination_of spec ≡ some dst
      → is_conflict destination_of name dst holds_destination j ≡ false
      → is_named name j ≡ false
      → Apart j k
  new-Apart name spec dst k j e d c n dst' hj hk d' = ground arith

  added :
      (name spec_yaml dst : Bytes) (dry_run : Bool) (s : Store)
      → destination_of spec_yaml ≡ some dst
      → find_row (is_conflict destination_of name dst holds_destination) s.jobs ≡ none
      → get_job name s.jobs ≡ none
      → IsExclusive s.jobs
      → IsExclusive (add_job name spec_yaml dry_run s).jobs
  unfolding add_job
  added name spec_yaml dst dry_run s d c n e =
      append-IsExclusive s.jobs (job_row s.next_job name spec_yaml dry_run)
        (All-weaken
          (λ (j : Job).
            (is_conflict destination_of name dst holds_destination j ≡ false)
            × (is_named name j ≡ false))
          (λ j. Apart j (job_row s.next_job name spec_yaml dry_run))
          (λ j h.
            new-Apart name spec_yaml dst (job_row s.next_job name spec_yaml dry_run) j refl d h.0
              h.1)
          s.jobs
          (All-pair (λ (j : Job). is_conflict destination_of name dst holds_destination j ≡ false)
            (λ (j : Job). is_named name j ≡ false) s.jobs
            (find_row-none (is_conflict destination_of name dst holds_destination) s.jobs c)
            (find_row-none (is_named name) s.jobs n)))
        e

  insert_job-IsExclusive :
      (name spec_yaml dst : Bytes) (dry_run : Bool) (s : Store)
      → destination_of spec_yaml ≡ some dst
      → find_row (is_conflict destination_of name dst holds_destination) s.jobs ≡ none
      → IsExclusive s.jobs
      → (o : Option Job) → get_job name s.jobs ≡ o
      → IsExclusive (insert_job name spec_yaml dry_run s o).0.jobs
  insert_job-IsExclusive name spec_yaml dst dry_run s d c e (some taken) n = e
  insert_job-IsExclusive name spec_yaml dst dry_run s d c e none n =
      added name spec_yaml dst dry_run s d c n e

  check_job-IsExclusive :
      (name spec_yaml dst : Bytes) (dry_run : Bool) (s : Store)
      → destination_of spec_yaml ≡ some dst
      → IsExclusive s.jobs
      → (o : Option Job)
      → find_row (is_conflict destination_of name dst holds_destination) s.jobs ≡ o
      → IsExclusive (check_job name spec_yaml dry_run s o).0.jobs
  check_job-IsExclusive name spec_yaml dst dry_run s d e (some other) c = e
  check_job-IsExclusive name spec_yaml dst dry_run s d e none c =
      insert_job-IsExclusive name spec_yaml dst dry_run s d c e (get_job name s.jobs) refl

  -- CreateJob, accepted or refused, keeps the destinations of the jobs that may write disjoint.
  pub create_job-IsExclusive :
      (name spec_yaml : Bytes) (dry_run : Bool) (s : Store)
      → IsExclusive s.jobs
      → IsExclusive (create_job destination_of name spec_yaml dry_run s).0.jobs
  unfolding create_job destination_conflict
  create_job-IsExclusive name spec_yaml dry_run s e =
      elim (Option-cases (destination_of spec_yaml)) [
        | inl n ↦ rw (n, create_job) e
        | inr (dst, d) ↦
            rw (d, create_job)
              (check_job-IsExclusive name spec_yaml dst dry_run s d e
                (find_row (is_conflict destination_of name dst holds_destination) s.jobs) refl)
      ]

  -- Either no job of the id changes to a holding state, or it held its destination before.
  abbrev pub MayBecome : ℕ → JobState → Job → Type 0
  MayBecome i st j =
      has_job_id i j ≡ true → holds_destination st ≡ true → holds_destination j.state ≡ true

  abbrev updated : ℕ → JobState → Job → Job
  updated i st j = if has_job_id i j then put_job_state st j else j

  spec-updated : (i : ℕ) (st : JobState) (j : Job) → (updated i st j).spec_yaml ≡ j.spec_yaml
  spec-updated i st j = ground arith

  holds-updated :
      (i : ℕ) (st : JobState) (j : Job)
      → MayBecome i st j
      → holds_destination (updated i st j).state ≡ true
      → holds_destination j.state ≡ true
  holds-updated i st j m h = elim (Bool-cases (has_job_id i j)) [
    | inl t ↦ m t (
        sym (ap (λ (b : Bool). holds_destination (if b then put_job_state st j else j).state) t)
        ∙ h)
    | inr f ↦
        sym (ap (λ (b : Bool). holds_destination (if b then put_job_state st j else j).state) f) ∙ h
  ]

  updated-Apart :
      (i : ℕ) (st : JobState) (j k : Job)
      → MayBecome i st j
      → MayBecome i st k
      → Apart j k
      → Apart (updated i st j) (updated i st k)
  updated-Apart i st j k mj mk a dst hj hk d =
      ap (λ (y : Bytes). overlaps dst (destination_of y)) (spec-updated i st j)
      ∙ a dst (holds-updated i st j mj hj) (holds-updated i st k mk hk)
          (ap destination_of (sym (spec-updated i st k)) ∙ d)

  update-All :
      (i : ℕ) (st : JobState) (j : Job) (js : List Job)
      → MayBecome i st j
      → All (MayBecome i st) js
      → All (Apart j) js
      → All (Apart (updated i st j)) (update_where (has_job_id i) (put_job_state st) js)
  update-All i st j [] mj h a = tt
  update-All i st j (k ∷ ks) mj h a =
      (updated-Apart i st j k mj h.0 a.0, update-All i st j ks mj h.1 a.1)

  update-IsExclusive :
      (i : ℕ) (st : JobState) (js : List Job)
      → All (MayBecome i st) js
      → IsExclusive js
      → IsExclusive (update_where (has_job_id i) (put_job_state st) js)
  unfolding IsExclusive
  update-IsExclusive i st [] h e = tt
  update-IsExclusive i st (j ∷ js) h e =
      (update-All i st j js h.0 h.1 e.0, update-IsExclusive i st js h.1 e.1)

  -- SetJobState keeps them disjoint, unless it takes a job that held no destination to a state that does.
  pub set_job_state-IsExclusive :
      (i : ℕ) (st : JobState) (s : Store)
      → All (MayBecome i st) s.jobs
      → IsExclusive s.jobs
      → IsExclusive (set_job_state i st s).jobs
  unfolding set_job_state
  set_job_state-IsExclusive i st s h e = update-IsExclusive i st s.jobs h e
