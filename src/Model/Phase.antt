-- ===== src/Model/Phase.antt =====
-- coordinator/internal/model/model.go, EffectiveState: the phase that a pass is shown in.
use mathlib.Core.List.{Perm, Permᴰ}
use mathlib.Core.Logic.{∥∥₁_elim}
use drsync.Prelude.{
  ◌≤◌, ◌≡◌, refl, sym, ap, subst, ◌∙◌, Bool, true, false, List, [], ◌∷◌, ◌++◌, Option, none, some,
  ltb, if◌then◌else◌, arith,
}
use drsync.Model.States.{PassState, ShardKind, phase_rank}

-- phaseOfKind
abbrev pub phase_of_kind : ShardKind → Option PassState
phase_of_kind ShardKind.dirfix = some PassState.dirfix
phase_of_kind ShardKind.linkfix = some PassState.linkfix
phase_of_kind ShardKind.verify = some PassState.verify
phase_of_kind ShardKind.delete = some PassState.delete
phase_of_kind _ = none

abbrev further : PassState → Option PassState → PassState
further eff none = eff
further eff (some ph) = if ltb (phase_rank eff) (phase_rank ph) then ph else eff

-- The loop's body, for one entry of the map.
unfoldable pub phase_step : PassState → ShardKind × Bool → PassState
phase_step eff (k, present) = if present then further eff (phase_of_kind k) else eff

-- EffectiveState: Go walks the map in an order that it does not fix; the list is that order.
unfoldable pub effective_state : PassState → List (ShardKind × Bool) → PassState
effective_state st [] = st
effective_state st (e ∷ es) = effective_state (phase_step st e) es

eq_of_rank : (a b : PassState) → phase_rank a ≡ phase_rank b → a ≡ b
eq_of_rank a b h = ground arith

further_comm :
    (st : PassState) (a b : Option PassState) → further (further st a) b ≡ further (further st b) a
further_comm st none b = refl
further_comm st (some x) none = refl
further_comm st (some x) (some y) = ground (arith, eq_of_rank x y)

phase_step_comm :
    (st : PassState) (d e : ShardKind × Bool)
    → phase_step (phase_step st d) e ≡ phase_step (phase_step st e) d
unfolding phase_step
phase_step_comm st (k, true) (l, true) = further_comm st (phase_of_kind k) (phase_of_kind l)
phase_step_comm st (k, true) (l, false) = refl
phase_step_comm st (k, false) (l, true) = refl
phase_step_comm st (k, false) (l, false) = refl

effective_state-Permᴰ :
    {xs ys : List (ShardKind × Bool)} (st : PassState)
    → Permᴰ xs ys
    → effective_state st xs ≡ effective_state st ys
unfolding effective_state
effective_state-Permᴰ st Permᴰ.nil = refl
effective_state-Permᴰ st (Permᴰ.cons {a = a} {b = b} {l₁ = l} e p) =
    ap (λ x. effective_state (phase_step st x) l) e ∙ effective_state-Permᴰ (phase_step st b) p
effective_state-Permᴰ st (Permᴰ.swap {a} {b} {a'} {b'} {l = l} e f) =
    ap (λ x. effective_state (phase_step (phase_step st x) b) l) e
    ∙ (ap (λ x. effective_state (phase_step (phase_step st b') x) l) f
        ∙ ap (λ x. effective_state x l) (phase_step_comm st b' a'))
effective_state-Permᴰ st (Permᴰ.trans p q) = effective_state-Permᴰ st p ∙ effective_state-Permᴰ st q

PassState_set : IsSet PassState
PassState_set = hlevel

-- The phase shown does not depend on the order in which Go walks the map.
pub effective_state-Perm :
    (st : PassState) (xs ys : List (ShardKind × Bool))
    → Perm xs ys
    → effective_state st xs ≡ effective_state st ys
effective_state-Perm st xs ys p = ∥∥₁_elim p (PassState_set _ _) (effective_state-Permᴰ st)

further_rank : (st : PassState) (o : Option PassState) → phase_rank st ≤ phase_rank (further st o)
further_rank st none = omega arith
further_rank st (some ph) = ground arith

effective_state_rank :
    (st : PassState) (xs : List (ShardKind × Bool))
    → phase_rank st ≤ phase_rank (effective_state st xs)
unfolding effective_state phase_step
effective_state_rank st [] = omega arith
effective_state_rank st ((k, true) ∷ es) = omega (
  arith,
  further_rank st (phase_of_kind k),
  effective_state_rank (further st (phase_of_kind k)) es,
)
effective_state_rank st ((k, false) ∷ es) = effective_state_rank st es

further_covers : (st ph : PassState) → phase_rank ph ≤ phase_rank (further st (some ph))
further_covers st ph = ground arith

-- The phase shown is at or past the state of the pass, and at or past the phase of a kind that is present, wherever
-- the map has the kind.
pub effective_state_covers :
    (st ph : PassState) (k : ShardKind) (xs ys : List (ShardKind × Bool))
    → phase_of_kind k ≡ some ph
    → (phase_rank st ≤ phase_rank (effective_state st (xs ++ (k, true) ∷ ys)))
      × (phase_rank ph ≤ phase_rank (effective_state st (xs ++ (k, true) ∷ ys)))
unfolding effective_state phase_step
effective_state_covers st ph k xs ys e =
    (effective_state_rank st (xs ++ (k, true) ∷ ys), covered st xs)
  where
    covered :
        (st : PassState) (xs : List (ShardKind × Bool))
        → phase_rank ph ≤ phase_rank (effective_state st (xs ++ (k, true) ∷ ys))
    covered st [] =
        subst
          (λ (o : Option PassState). phase_rank ph ≤ phase_rank (effective_state (further st o) ys))
          (sym e)
          (omega (arith, further_covers st ph, effective_state_rank (further st (some ph)) ys))
    covered st ((l, b) ∷ xs) = covered (phase_step st (l, b)) xs
