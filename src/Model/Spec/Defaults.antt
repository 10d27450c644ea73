-- ===== src/Model/Spec/Defaults.antt =====
-- coordinator/internal/model/spec.go, ApplyDefaults on a spec that is filled in.
use drsync.Prelude.{ℕ, ◌≡◌, refl, Bool, [], ◌∷◌, Option, none, some, Bytes, arith}
use drsync.Model.Spec.{
  JobSpec, Rate, or_number, or_text, or_flag, or_rate, default_rate, apply_defaults,
}

or_number_twice : (d x : ℕ) → or_number d (or_number d x) ≡ or_number d x
unfolding or_number
or_number_twice d x = ground arith

or_text_twice : (d x : Bytes) → or_text d (or_text d x) ≡ or_text d x
unfolding or_text
or_text_twice [] [] = refl
or_text_twice (b ∷ bs) [] = refl
or_text_twice d (b ∷ bs) = refl

or_flag_twice : (d : Bool) (x : Option Bool) → or_flag d (or_flag d x) ≡ or_flag d x
unfolding or_flag
or_flag_twice d none = refl
or_flag_twice d (some b) = refl

or_rate_twice : (r : Rate) → or_rate default_rate (or_rate default_rate r) ≡ or_rate default_rate r
unfolding or_rate
or_rate_twice r = ground arith

-- Defaults fill in only what is missing: applied to a spec that has them they change nothing.
pub apply_defaults_twice : (s : JobSpec) → apply_defaults (apply_defaults s) ≡ apply_defaults s
unfolding apply_defaults
apply_defaults_twice s = simp (or_number_twice, or_text_twice, or_flag_twice, or_rate_twice)
