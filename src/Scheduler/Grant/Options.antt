-- ===== src/Scheduler/Grant/Options.antt =====
-- coordinator/internal/scheduler/scheduler.go, Grant: the options that go with the items.
use drsync.Prelude.{
  ℕ, ◌≡◌, ◌⊎◌, refl, sym, List, [], ◌∷◌, ◌++◌, none, some, ◌==◌, eq_of_==, inl, inr, All,
  Bool-cases, ◌≤◌, ◌&&◌, ==_refl, arith, count_where, if◌then◌else◌,
}
use drsync.Model.Spec.Options.{JobOptions}
use drsync.Store.Schema.{Store}
use drsync.Scheduler.Policy.{SpecLib, JobPolicy, Lookup, Sched, resolve_policy, job_policy}
use drsync.Scheduler.Policy.Coherent.{IsCoherent, job_policy_fresh}
use drsync.Scheduler.Grant.{Optioning, cached_hash, add_options, then_options, options_for}

-- The options are among those sent.
abbrev pub Carries : JobOptions → List JobOptions → Type 0
Carries o [] = ⊥
Carries o (x ∷ xs) = (o ≡ x) ⊎ Carries o xs

Carries-left : (o : JobOptions) (xs ys : List JobOptions) → Carries o xs → Carries o (xs ++ ys)
Carries-left o [] ys h = absurd h
Carries-left o (x ∷ xs) ys (inl e) = inl e
Carries-left o (x ∷ xs) ys (inr h) = inr (Carries-left o xs ys h)

Carries-last : (o : JobOptions) (xs : List JobOptions) → Carries o (xs ++ o ∷ [])
Carries-last o [] = inl refl
Carries-last o (x ∷ xs) = inr (Carries-last o xs)

-- The agent named the hash for the job.
abbrev pub named : ℕ → ℕ → List (ℕ × ℕ) → ℕ
named job hash cached = count_where (λ e. (job == e.0) && (e.1 == hash)) cached

named_or_default :
    (d job hash : ℕ) (cached : List (ℕ × ℕ))
    → cached_hash d job cached ≡ hash
    → (1 ≤ named job hash cached) ⊎ (d ≡ hash)
unfolding cached_hash
named_or_default d job hash [] h = inr h
named_or_default d job hash (e ∷ es) h =
    ground (arith, named_or_default (if job == e.0 then e.1 else d) job hash es h, ==_refl e.1)

-- The agent named the hash of the job's options, or they are sent, or their hash is 0, which an agent
-- that names none for the job is taken to hold.
abbrev pub Equipped : SpecLib → Store → List (ℕ × ℕ) → List JobOptions → ℕ → Type 0
Equipped lib s cached out job =
    (pol : JobPolicy) × (resolve_policy lib s job ≡ Lookup.found pol)
    × ((1 ≤ named job pol.opts.options_hash cached)
        ⊎ ((0 ≡ pol.opts.options_hash) ⊎ Carries pol.opts out))

module _ (lib : SpecLib) (cached : List (ℕ × ℕ)) (s : Store) where
  Equipped-more :
      (job : ℕ) (out more : List JobOptions)
      → Equipped lib s cached out job
      → Equipped lib s cached (out ++ more) job
  Equipped-more job out more (pol, e, inl h) = (pol, e, inl h)
  Equipped-more job out more (pol, e, inr (inl h)) = (pol, e, inr (inl h))
  Equipped-more job out more (pol, e, inr (inr h)) =
      (pol, e, inr (inr (Carries-left pol.opts out more h)))

  -- What one round adds: the options sent before stay, and the job has its own.
  abbrev Added : ℕ → List JobOptions → Optioning → Type 0
  Added job out (sc, out', some e) = Unit
  Added job out (sc, out', none) =
      Equipped lib s cached out' job
      × ((j : ℕ) → Equipped lib s cached out j → Equipped lib s cached out' j)
      × IsCoherent lib s sc

  by_name :
      {X : Type 0} (job : ℕ) (pol : JobPolicy)
      → cached_hash 0 job cached ≡ pol.opts.options_hash
      → (1 ≤ named job pol.opts.options_hash cached) ⊎ ((0 ≡ pol.opts.options_hash) ⊎ X)
  by_name job pol h = elim (named_or_default 0 job pol.opts.options_hash cached h) [
    | inl n ↦ inl n
    | inr z ↦ inr (inl z)
  ]

  add_options-Added :
      (job : ℕ) (out : List JobOptions) (sc : Sched) (l : Lookup)
      → l ≡ resolve_policy lib s job
      → IsCoherent lib s sc
      → Added job out (add_options cached job out (sc, l))
  add_options-Added job out sc (Lookup.missing e) q h = tt
  add_options-Added job out sc (Lookup.found pol) q h =
      elim (Bool-cases (cached_hash 0 job cached == pol.opts.options_hash)) [
        | inl t ↦ rw t ((pol, sym q, by_name job pol (eq_of_== _ _ t)), λ j x. x, h)
        | inr f ↦ rw f (
          (pol, sym q, inr (inr (Carries-last pol.opts out))),
          λ j x. Equipped-more j out (pol.opts ∷ []) x,
          h,
        )
      ]

  -- After the loop every job has its options.
  abbrev pub Done : List ℕ → List JobOptions → Optioning → Type 0
  Done jobs out (sc, out', some e) = Unit
  Done jobs out (sc, out', none) =
      All (Equipped lib s cached out') jobs
      × ((j : ℕ) → Equipped lib s cached out j → Equipped lib s cached out' j)

  pub options_for-Done :
      (jobs : List ℕ) (sc : Sched) (out : List JobOptions)
      → IsCoherent lib s sc
      → Done jobs out (options_for lib cached s jobs sc out)
  unfolding options_for
  options_for-Done [] sc out h = (tt, λ j x. x)
  options_for-Done (job ∷ jobs) sc out h =
      let f = job_policy_fresh lib s sc job h in
      by_round (options_for lib cached s jobs) (options_for-Done jobs)
        (add_options cached job out (job_policy lib sc s job))
        (add_options-Added job out (job_policy lib sc s job).0 (job_policy lib sc s job).1 f.0 f.1)
    where
      then_done :
          (sc₁ : Sched) (o₁ : List JobOptions) (q : Optioning)
          → Added job out (sc₁, o₁, none)
          → Done jobs o₁ q
          → Done (job ∷ jobs) out q
      then_done sc₁ o₁ (sc₂, o₂, some e) a d = tt
      then_done sc₁ o₁ (sc₂, o₂, none) a d = ((d.1 job a.0, d.0), λ j x. d.1 j (a.1 j x))

      by_round :
          (more : Sched → List JobOptions → Optioning)
          → ((sc₁ : Sched) (o₁ : List JobOptions)
              → IsCoherent lib s sc₁
              → Done jobs o₁ (more sc₁ o₁))
          → (q : Optioning) → Added job out q
          → Done (job ∷ jobs) out (then_options more q)
      by_round more f (sc₁, o₁, some e) a = tt
      by_round more f (sc₁, o₁, none) a = then_done sc₁ o₁ (more sc₁ o₁) a (f sc₁ o₁ a.2)
