-- ===== src/Scheduler/Policy/Coherent.antt =====
-- coordinator/internal/scheduler/scheduler.go, jobPolicy: the cache of policies and the specs of the store.
use drsync.Prelude.{
  ℕ, ◌≡◌, refl, sym, ◌∙◌, ap, List, [], ◌∷◌, Option, none, some, ◌==◌, find_row, update_where, All,
  All-weaken, All-delete_where, arith, Bool-cases, inl, inr, eq_of_==,
}
use drsync.Model.States.{JobState}
use drsync.Store.Schema.{Job, Store}
use drsync.Store.Jobs.{has_job_id, put_job_state, set_job_state}
use drsync.Scheduler.Policy.{
  SpecLib, JobPolicy, Lookup, Sched, policy_of_job, resolve_policy, is_policy_of, remember,
  cached_or, job_policy, invalidate_options,
}

module _ (lib : SpecLib) where
  -- What a cached entry must be.
  abbrev pub Entry : Store → ℕ × JobPolicy → Type 0
  Entry s e = resolve_policy lib s e.0 ≡ Lookup.found e.1

  abbrev pub IsCoherent : Store → Sched → Type 0
  IsCoherent s sched = All (Entry s) sched.policies

  found-Entry :
      (s : Store) (i : ℕ) (es : List (ℕ × JobPolicy)) (e : ℕ × JobPolicy)
      → All (Entry s) es
      → find_row (is_policy_of i) es ≡ some e
      → resolve_policy lib s i ≡ Lookup.found e.1
  found-Entry s i [] e h q = cc
  found-Entry s i (x ∷ xs) e h q = elim (Bool-cases (i == x.0)) [
    | inl t ↦ ap (resolve_policy lib s) (eq_of_== i x.0 t) ∙ ground (arith, h.0)
    | inr f ↦ found-Entry s i xs e h.1 (ground arith)
  ]

  remember-IsCoherent :
      (s : Store) (sched : Sched) (i : ℕ) (l : Lookup)
      → resolve_policy lib s i ≡ l
      → IsCoherent s sched
      → IsCoherent s (remember sched i l).0 × ((remember sched i l).1 ≡ l)
  remember-IsCoherent s sched i (Lookup.found p) e h = ((e, h), refl)
  remember-IsCoherent s sched i (Lookup.missing x) e h = (h, refl)

  -- The cache is transparent: where it is coherent with the store, looking a job up gives what resolving
  -- its spec afresh gives, an error included, and leaves it coherent.
  pub job_policy_fresh :
      (s : Store) (sched : Sched) (i : ℕ)
      → IsCoherent s sched
      → ((job_policy lib sched s i).1 ≡ resolve_policy lib s i)
        × IsCoherent s (job_policy lib sched s i).0
  unfolding job_policy
  job_policy_fresh s sched i h = by_cache (find_row (is_policy_of i) sched.policies) refl
    where
      by_cache :
          (o : Option (ℕ × JobPolicy))
          → find_row (is_policy_of i) sched.policies ≡ o
          → ((cached_or lib sched s i o).1 ≡ resolve_policy lib s i)
            × IsCoherent s (cached_or lib sched s i o).0
      by_cache (some e) q = (sym (found-Entry s i sched.policies e h q), h)
      by_cache none q =
          let r = remember-IsCoherent s sched i (resolve_policy lib s i) refl h in (r.1, r.0)

  invalidate_options-IsCoherent :
      (s : Store) (sched : Sched) (i : ℕ)
      → IsCoherent s sched
      → IsCoherent s (invalidate_options i sched)
  unfolding invalidate_options
  invalidate_options-IsCoherent s sched i h =
      All-delete_where (Entry s) (is_policy_of i) sched.policies h

  policy-put_job_state :
      (i k : ℕ) (st : JobState) (js : List Job)
      → policy_of_job lib i
          (find_row (has_job_id i) (update_where (has_job_id k) (put_job_state st) js))
        ≡ policy_of_job lib i (find_row (has_job_id i) js)
  policy-put_job_state i k st [] = refl
  policy-put_job_state i k st (j ∷ js) = ground (arith, policy-put_job_state i k st js)

  -- A job that changes its state keeps its policy, so the cache stays coherent.
  pub set_job_state-IsCoherent :
      (s : Store) (sched : Sched) (k : ℕ) (st : JobState)
      → IsCoherent s sched
      → IsCoherent (set_job_state k st s) sched
  unfolding set_job_state resolve_policy
  set_job_state-IsCoherent s sched k st h =
      All-weaken (Entry s) (Entry (set_job_state k st s))
        (λ e q. policy-put_job_state e.0 k st s.jobs ∙ q) sched.policies h
