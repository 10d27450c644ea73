-- ===== src/Scheduler/Shares.antt =====
-- coordinator/internal/scheduler/scheduler.go, fairShare and the ceiling on one grant.
use native.Mathlib.Nat.{div-add-mod, mod-lt, mul_comm, mul-le-mul_left}
use drsync.Prelude.{
  ℕ, zero, suc, ◌+◌, ◌-◌, ◌*◌, ◌/◌, ◌%◌, ◌≤◌, ◌<◌, ◌≡◌, inl, inr, Bool-cases, le_of_leb,
  lt_of_not_leb, ◌==◌, ltb, leb, if◌then◌else◌, arith, min, max,
}

-- grantMaxItems
abbrev pub grant_max_items : ℕ
grant_max_items = 64

-- fairShare. Credits, queue and fleet are never negative; the test `share < 1` is `max 1`.
unfoldable pub fair_share : ℕ → ℕ → ℕ → ℕ
fair_share credits queued agents =
    if ltb agents 2
    then credits
    else if credits == 0
    then credits
    else if leb (agents * credits) queued
    then credits
    else min (max 1 ((queued + agents - 1) / agents)) credits

-- Division that rounds up covers what it divides, and by less than one more round.
pub ceil_covers : (q a : ℕ) → 0 < a → (q ≤ a * ((q + a - 1) / a)) × (a * ((q + a - 1) / a) < q + a)
ceil_covers q a h =
    within (a * ((q + a - 1) / a)) ((q + a - 1) % a) (div-add-mod (q + a - 1) a)
      (mod-lt (q + a - 1) h)
  where
    within : (y r : ℕ) → y + r ≡ q + a - 1 → r < a → (q ≤ y) × (y < q + a)
    within y r e l = (omega arith, omega arith)

even_share :
    (q a c m : ℕ)
    → 0 < a
    → q ≤ a * m
    → a * m < q + a
    → (min q (a * c) ≤ a * min (max 1 m) c) × (0 < c → a * min (max 1 m) c < max 1 q + a)
even_share q a c zero h lo hi =
    (ground (arith, mul_comm a 1, mul_comm a 0), ground (arith, mul_comm a 1))
even_share q a c (suc m) h lo hi = elim (Bool-cases (leb (suc m) c)) [
  | inl t ↦ (ground (arith, le_of_leb (suc m) c t), ground (arith, le_of_leb (suc m) c t))
  | inr f ↦ (ground (arith), λ pos. ground (arith, mul-le-mul_left a (lt_of_not_leb (suc m) c f)))
]

-- The share of an agent that asks for work: it is within what the agent asked for and is never 0, and
-- the shares of a fleet of such agents cover the queue, or give every agent all that it asked for.
pub fair_share_covers :
    (credits queued agents : ℕ)
    → 0 < agents
    → 0 < credits
    → (fair_share credits queued agents ≤ credits)
      × (1 ≤ fair_share credits queued agents)
      × (min queued (agents * credits) ≤ agents * fair_share credits queued agents)
unfolding fair_share
fair_share_covers credits queued agents h k =
    let even =
      even_share queued agents credits ((queued + agents - 1) / agents) h
        (ceil_covers queued agents h).0 (ceil_covers queued agents h).1 in
    (ground arith, ground arith, ground (arith, even))

-- Among two agents or more, a queue that cannot fill all of them gives none more than an even part of
-- it, rounded up (one shard at least).
fair_share_even :
    (credits queued agents : ℕ)
    → 2 ≤ agents
    → queued < agents * credits
    → agents * fair_share credits queued agents < max 1 queued + agents
unfolding fair_share
fair_share_even credits queued agents h k =
    let even =
      even_share queued agents credits ((queued + agents - 1) / agents) (omega (arith, h))
        (ceil_covers queued agents (omega (arith, h))).0
        (ceil_covers queued agents (omega (arith, h))).1 in
    ground (arith, even)
