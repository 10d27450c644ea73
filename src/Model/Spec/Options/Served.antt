-- ===== src/Model/Spec/Options/Served.antt =====
-- coordinator/internal/model/spec.go: ToJobOptions on a spec that ParseSpec accepted.
use drsync.Prelude.{
  if◌then◌else◌, ◌==◌, eq_of_==, subst, false, is_some, ◌*◌, ◌-◌, ◌%◌, ◌^◌, ◌/◌, leb, ℕ, suc, ◌≤◌,
  ◌≡◌, sym, ◌∙◌, ap, refl, Bool, true, List, [], ◌∷◌, Option, none, some, Bytes, bytes, bytes_eq,
  length, All, arith, Bool-cases, inl, inr, ◌⊎◌,
}
use native.Mathlib.Nat.{div-le_of_le-mul, div-mul-le_self}
use drsync.Model.Spec.{JobSpec, Rate, or_flag, sample_ppm, rounded_down, bit_count, apply_defaults}
use drsync.Model.Spec.Validate.{
  SpecError, Parsed, max_filter_rules, max_filter_pattern, is_one_of, parse_spec,
}
use drsync.Model.Spec.Validate.Accepted.{
  InUnit, IsRunnable, FitsTable, accepted-inv, parse_spec-IsRunnable,
}
use drsync.Model.Spec.Options.{
  FilterRule, JobOptions, Resolved, Flags, flags_of, Conflict, ServerSideCopy, Untranslatable,
  server_side_copy_of, conflict_of, untranslatable_of, rules_of, resolve_modes, options_of, stamp,
  to_job_options,
}

abbrev value_of : Option Bool → Bool
value_of none = true
value_of (some b) = b

or_flag_value : (x : Option Bool) → or_flag true x ≡ some (value_of x)
unfolding or_flag
or_flag_value none = refl
or_flag_value (some b) = refl

flags_of-apply_defaults : (raw : JobSpec) → (f : Flags) × (flags_of (apply_defaults raw) ≡ some f)
unfolding apply_defaults flags_of
flags_of-apply_defaults raw = (
  record {
    preserve_sparse = value_of raw.copy.preserve_sparse;
    direct_write = value_of raw.copy.direct_write;
    owner = value_of raw.metadata.owner;
    mode = value_of raw.metadata.mode;
    times = value_of raw.metadata.times;
    xattrs = value_of raw.metadata.xattrs;
    posix = value_of raw.metadata.acls.posix;
    nfs4 = value_of raw.metadata.acls.nfs4;
    specials = value_of raw.metadata.specials;
    require_mount = value_of raw.require_mount;
  },
  simp or_flag_value,
)

conflict_known :
    (t : Bytes)
    → is_one_of t (bytes "skip" ∷ bytes "overwrite" ∷ []) ≡ true
    → (c : Conflict) × (conflict_of t ≡ some c)
unfolding conflict_of
conflict_known t h = elim (Bool-cases (bytes_eq t (bytes "skip"))) [
  | inl e ↦ (Conflict.skip_if_dest_newer, ground (arith, e))
  | inr e ↦ (Conflict.overwrite, ground (arith, e))
]

-- The rules of filters that fit the agent's table: one for each filter, none too long.
abbrev pub FitsRule : FilterRule → Type 0
FitsRule r = (1 ≤ length r.pattern_text) × (length r.pattern_text ≤ max_filter_pattern)

rules_fit :
    (fs : List (List (Bytes × Bytes)))
    → All FitsTable fs
    → All FitsRule (rules_of fs) × (length (rules_of fs) ≡ length fs)
unfolding rules_of
rules_fit [] p = (tt, refl)
rules_fit (f ∷ fs) ((k, pat, e, key, lo, hi), q) =
    let ih = rules_fit fs q in rw e (((lo, hi), ih.0), ap suc ih.1)

at_top :
    (num den : ℕ)
    → 1 ≤ den
    → num ≤ den
    → 1000000 * den ≤ num * 1000000
    → leb ((1000001 * den - num * 1000000) * 17179869184) den ≡ false
at_top num den p l m = ground (arith, p, l, m)

by_quotient :
    (num den q : ℕ)
    → q ≤ 1000000
    → q * den ≤ num * 1000000
    → num ≤ den
    → (den ≡ 0 → q ≤ 0)
    → (if leb ((suc q * den - num * 1000000) * 2 ^ (54 - bit_count 64 q)) den then suc q else q)
      ≤ 1000000
unfolding bit_count
by_quotient num den q l m n z = elim (Bool-cases (q == 1000000)) [
  | inl t ↦
      let e = eq_of_== q 1000000 t in
      let p : 1 ≤ den = ground (arith, e, z) in
      subst
        (λ x.
          (if leb ((suc x * den - num * 1000000) * 2 ^ (54 - bit_count 64 x)) den then suc x else x)
          ≤ 1000000)
        (sym e) (rw (at_top num den p n (subst (λ x. x * den ≤ num * 1000000) e m)) (omega arith))
  | inr f ↦ below (leb ((suc q * den - num * 1000000) * 2 ^ (54 - bit_count 64 q)) den) f
]
  where
    below : (b : Bool) → q == 1000000 ≡ false → (if b then suc q else q) ≤ 1000000
    below b f = ground (arith, l, f)

rounded_down_bound :
    (num den : ℕ) → num ≤ den ⊎ (num ≡ 0) → rounded_down (num * 1000000) den ≤ 1000000
unfolding rounded_down
rounded_down_bound num den h =
    by_quotient num den (num * 1000000 / den) (div-le_of_le-mul den (in_unit h))
      (div-mul-le_self (num * 1000000) den) (less h) (λ z. div-le_of_le-mul den (no_rate h z))
  where
    less : num ≤ den ⊎ (num ≡ 0) → num ≤ den
    less (inl l) = l
    less (inr z) = omega (arith, z)

    in_unit : num ≤ den ⊎ (num ≡ 0) → num * 1000000 ≤ den * 1000000
    in_unit (inl l) = omega (arith, l)
    in_unit (inr z) = omega (arith, z)

    no_rate : num ≤ den ⊎ (num ≡ 0) → den ≡ 0 → num * 1000000 ≤ den * 0
    no_rate (inl l) z = omega (arith, l, z)
    no_rate (inr z) y = omega (arith, z)

ppm_bound :
    (r : Rate)
    → (is_some r.nan ≡ true) ⊎ InUnit r
    → (is_some r.nan ≡ true) ⊎ (sample_ppm r ≤ 1000000)
unfolding sample_ppm
ppm_bound r (inl h) = inl h
ppm_bound r (inr (e, h)) = inr (rw e (rounded_down_bound r.num r.den h))

ppm_fits :
    (r : Rate)
    → (is_some r.nan ≡ true) ⊎ (sample_ppm r ≤ 1000000)
    → (is_some r.nan ≡ true) ⊎ (sample_ppm r % 2 ^ 32 ≤ 1000000)
ppm_fits r (inl h) = inl h
ppm_fits r (inr h) = inr (omega (arith, h))

module _ (marshal : JobOptions → Option Bytes) (digest : Bytes → ℕ) where
  -- Options, or a refusal, that the spec calls for.
  abbrev pub IsServed : JobSpec → Resolved → Type 0
  IsServed s Resolved.panicked = ⊥
  IsServed s (Resolved.refused e) =
      (server_side_copy_of s.copy.server_side_copy ≡ none)
      ⊎ ((untranslatable_of s.metadata.acls.untranslatable ≡ none) ⊎ (e ≡ SpecError.marshal))
  IsServed s (Resolved.resolved o) =
      (o.src_root ≡ s.source)
      × (o.dst_root ≡ s.destination)
      × (length o.filters ≡ length s.filters)
      × (length o.filters ≤ max_filter_rules)
      × All FitsRule o.filters
      × ((is_some s.verify.sample_rate.nan ≡ true) ⊎ (o.sample_rate_ppm ≤ 1000000))

  stamp-IsServed :
      (s : JobSpec) (i : ℕ) (dry : Bool) (f : Flags) (ssc : ServerSideCopy) (c : Conflict)
      (u : Untranslatable) (blob : Option Bytes)
      → IsRunnable s
      → IsServed s (stamp marshal digest (options_of i dry s f ssc c u) blob)
  stamp-IsServed s i dry f ssc c u none r = inr (inr refl)
  stamp-IsServed s i dry f ssc c u (some blob) r =
      let fit = rules_fit s.filters r.rules_fit in
      (
        refl,
        refl,
        fit.1,
        omega (arith, fit.1, r.few_rules),
        fit.0,
        ppm_fits s.verify.sample_rate (ppm_bound s.verify.sample_rate r.rate_in_unit),
      )

  modes-IsServed :
      (s : JobSpec) (i : ℕ) (dry : Bool) (f : Flags) (ssc : Option ServerSideCopy) (c : Conflict)
      (u : Option Untranslatable)
      → ssc ≡ server_side_copy_of s.copy.server_side_copy
      → u ≡ untranslatable_of s.metadata.acls.untranslatable
      → IsRunnable s
      → IsServed s (resolve_modes marshal digest i dry s f ssc (some c) u)
  modes-IsServed s i dry f none c u e d r = inl (sym e)
  modes-IsServed s i dry f (some ssc) c none e d r = inr (inl (sym d))
  modes-IsServed s i dry f (some ssc) c (some u) e d r =
      stamp-IsServed s i dry f ssc c u (marshal (options_of i dry s f ssc c u)) r

  -- What ToJobOptions makes of a spec that ParseSpec accepted. It never dereferences nil; it refuses
  -- the spec only where server_side_copy or acls.untranslatable has none of the known values, or the
  -- options cannot be marshalled; else the options carry the spec's paths, one rule for each filter,
  -- at most 64, each with a pattern of 1 to 255 bytes, and a sample rate of at most a million ppm,
  -- unless the spec's is NaN.
  pub to_job_options-IsServed :
      (decode : Bytes → Option JobSpec) (text : Bytes) (s : JobSpec) (i : ℕ) (dry : Bool)
      → parse_spec decode text ≡ Parsed.accepted s
      → IsServed s (to_job_options marshal digest i dry s)
  unfolding to_job_options
  to_job_options-IsServed decode text s i dry h =
      let p = accepted-inv decode text s h in
      let r = parse_spec-IsRunnable decode text s h in
      let c = conflict_known s.copy.on_dest_newer r.newer_known in
      let f = flags_of-apply_defaults p.0 in
      let e : flags_of s ≡ some f.0 = ap flags_of p.1 ∙ f.1 in
      rw (e, c.1)
        (modes-IsServed s i dry f.0 (server_side_copy_of s.copy.server_side_copy) c.0
          (untranslatable_of s.metadata.acls.untranslatable) refl refl r)

  -- A job whose spec was accepted can still be one that ToJobOptions refuses: any accepted spec with
  -- an unknown copy.server_side_copy is.
  pub unknown_copy_refused :
      (decode : Bytes → Option JobSpec) (text : Bytes) (s : JobSpec) (i : ℕ) (dry : Bool)
      → parse_spec decode text ≡ Parsed.accepted s
      → server_side_copy_of s.copy.server_side_copy ≡ none
      → to_job_options marshal digest i dry s ≡ Resolved.refused SpecError.server_side_copy
  unfolding to_job_options
  unknown_copy_refused decode text s i dry h k =
      let p = accepted-inv decode text s h in
      let f = flags_of-apply_defaults p.0 in
      let e : flags_of s ≡ some f.0 = ap flags_of p.1 ∙ f.1 in rw (e, k) refl
