-- ===== src/Model/Spec/Validate/Accepted.antt =====
-- coordinator/internal/model/spec.go, ParseSpec: what holds of a spec that it accepts.
use drsync.Prelude.{
  is_some, ℕ, suc, ◌≤◌, ◌≡◌, ◌⊎◌, refl, true, false, List, [], ◌∷◌, Option, none, some, Bytes,
  bytes, bytes_eq, length, All, arith,
}
use drsync.Model.Spec.{Rate, JobSpec, apply_defaults}
use drsync.Model.Spec.Paths.{has_prefix, paths_overlap}
use drsync.Model.Spec.Validate.{
  SpecError, Parsed, max_filter_rules, max_filter_pattern, check_rule, check_filter, check_filters,
  or_else, is_one_of, validate, validate_paths, validate_filters, validate_modes, parse_spec,
  accept, default_and_check,
}

-- One rule that the agent's table can hold.
abbrev pub FitsTable : List (Bytes × Bytes) → Type 0
FitsTable f =
    (k : Bytes) × (pat : Bytes) × (f ≡ (k, pat) ∷ [])
    × (is_one_of k (bytes "include" ∷ bytes "exclude" ∷ []) ≡ true)
    × (1 ≤ length pat)
    × (length pat ≤ max_filter_pattern)

-- A rate of at most 1, or 0 with a sign.
abbrev pub InUnit : Rate → Type 0
InUnit r = (r.nan ≡ none) × (r.num ≤ r.den ⊎ (r.num ≡ 0))

-- A spec that a job can run on.
pub record IsRunnable (s : JobSpec) : Type 0 where
  pub source_absolute : has_prefix s.source (bytes "/") ≡ true
  pub destination_absolute : has_prefix s.destination (bytes "/") ≡ true
  pub disjoint : paths_overlap s.source s.destination ≡ false
  pub few_rules : length s.filters ≤ max_filter_rules
  pub rules_fit : All FitsTable s.filters
  pub rate_in_unit : (is_some s.verify.sample_rate.nan ≡ true) ⊎ InUnit s.verify.sample_rate
  pub newer_known : is_one_of s.copy.on_dest_newer (bytes "skip" ∷ bytes "overwrite" ∷ []) ≡ true

or_else-none : (a b : Option SpecError) → or_else a b ≡ none → (a ≡ none) × (b ≡ none)
or_else-none a b h = ground arith

nonempty_length : (s : Bytes) → bytes_eq s [] ≡ false → 1 ≤ length s
unfolding bytes_eq
nonempty_length [] h = cc
nonempty_length (b ∷ bs) h = omega arith

check_rule-none :
    (i : ℕ) (k pat : Bytes)
    → check_rule i k pat ≡ none
    → (is_one_of k (bytes "include" ∷ bytes "exclude" ∷ []) ≡ true)
      × (1 ≤ length pat)
      × (length pat ≤ max_filter_pattern)
unfolding check_rule
check_rule-none i k pat h = ground (arith, nonempty_length pat)

check_filter-none : (i : ℕ) (f : List (Bytes × Bytes)) → check_filter i f ≡ none → FitsTable f
unfolding check_filter
check_filter-none i [] h = cc
check_filter-none i ((k, pat) ∷ []) h =
    let r = check_rule-none i k pat h in (k, pat, refl, r.0, r.1, r.2)
check_filter-none i (r ∷ q ∷ rest) h = cc

check_filters-none :
    (i : ℕ) (fs : List (List (Bytes × Bytes))) → check_filters i fs ≡ none → All FitsTable fs
unfolding check_filters
check_filters-none i [] h = tt
check_filters-none i (f ∷ fs) h =
    let p = or_else-none (check_filter i f) (check_filters (suc i) fs) h in
    (check_filter-none i f p.0, check_filters-none (suc i) fs p.1)

paths_none :
    (s : JobSpec)
    → validate_paths s ≡ none
    → (has_prefix s.source (bytes "/") ≡ true)
      × (has_prefix s.destination (bytes "/") ≡ true)
      × (paths_overlap s.source s.destination ≡ false)
unfolding validate_paths
paths_none s h = ground arith

filters_none :
    (s : JobSpec)
    → validate_filters s ≡ none
    → (length s.filters ≤ max_filter_rules) × (check_filters 0 s.filters ≡ none)
unfolding validate_filters
filters_none s h = ground arith

modes_none :
    (s : JobSpec)
    → validate_modes s ≡ none
    → ((is_some s.verify.sample_rate.nan ≡ true) ⊎ InUnit s.verify.sample_rate)
      × (is_one_of s.copy.on_dest_newer (bytes "skip" ∷ bytes "overwrite" ∷ []) ≡ true)
unfolding validate_modes
modes_none s h = by_rate s.verify.sample_rate.nan refl
  where
    by_rate :
        (o : Option ℕ)
        → s.verify.sample_rate.nan ≡ o
        → ((is_some s.verify.sample_rate.nan ≡ true) ⊎ InUnit s.verify.sample_rate)
          × (is_one_of s.copy.on_dest_newer (bytes "skip" ∷ bytes "overwrite" ∷ []) ≡ true)
    by_rate (some n) e = ground (arith, h, e)
    by_rate none e = ground (arith, h, e)

validate-IsRunnable : (s : JobSpec) → validate s ≡ none → IsRunnable s
unfolding validate
validate-IsRunnable s h =
    let a = or_else-none (validate_paths s) (or_else (validate_filters s) (validate_modes s)) h in
    let b = or_else-none (validate_filters s) (validate_modes s) a.1 in
    let p = paths_none s a.0 in
    let f = filters_none s b.0 in
    let m = modes_none s b.1 in
    record {
      source_absolute = p.0;
      destination_absolute = p.1;
      disjoint = p.2;
      few_rules = f.0;
      rules_fit = check_filters-none 0 s.filters f.1;
      rate_in_unit = m.0;
      newer_known = m.1;
    }

-- An accepted spec is a decoded one with its defaults filled in, and passes the checks.
pub accepted-inv :
    (decode : Bytes → Option JobSpec) (text : Bytes) (s : JobSpec)
    → parse_spec decode text ≡ Parsed.accepted s
    → (raw : JobSpec) × (s ≡ apply_defaults raw) × (validate s ≡ none)
unfolding parse_spec
accepted-inv decode text s h = from_decoded (decode text) h
  where
    from_checked :
        (raw : JobSpec) (v : Option SpecError)
        → v ≡ validate (apply_defaults raw)
        → accept (apply_defaults raw) v ≡ Parsed.accepted s
        → (r : JobSpec) × (s ≡ apply_defaults r) × (validate s ≡ none)
    from_checked raw none e q = (raw, cc, cc)
    from_checked raw (some x) e q = cc

    from_decoded :
        (o : Option JobSpec)
        → default_and_check o ≡ Parsed.accepted s
        → (r : JobSpec) × (s ≡ apply_defaults r) × (validate s ≡ none)
    from_decoded none q = cc
    from_decoded (some raw) q = from_checked raw (validate (apply_defaults raw)) refl q

-- A spec that ParseSpec accepts has absolute source and destination of which neither lies in the other,
-- at most 64 filters, each one rule with a pattern of 1 to 255 bytes under include or exclude, a
-- sample rate of at most 1 or NaN, and a known mode for newer destinations.
pub parse_spec-IsRunnable :
    (decode : Bytes → Option JobSpec) (text : Bytes) (s : JobSpec)
    → parse_spec decode text ≡ Parsed.accepted s
    → IsRunnable s
parse_spec-IsRunnable decode text s h =
    let p = accepted-inv decode text s h in validate-IsRunnable s p.2
