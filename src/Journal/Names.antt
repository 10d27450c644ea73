-- ===== src/Journal/Names.antt =====
-- coordinator/internal/journal: the names segment-%06d.drj, by their number alone since the rest is the same,
-- and sort.Strings on them. Names are distinct, so that any sort does the same.
use drsync.Prelude.{
  ℕ, zero, suc, ◌+◌, ◌/◌, ◌%◌, ◌<◌, ◌≤◌, ◌≡◌, ◌⊎◌, refl, inl, inr, ap, Bool, true, false, List, [],
  ◌∷◌, ◌++◌, Bytes, ◌==◌, ltb, if◌then◌else◌, arith, map, length, Bool-cases,
}

abbrev digit : ℕ → ℕ
digit n = 48 + n % 10

-- Six digits of a number below 1000000.
unfoldable pub six : ℕ → Bytes
six n =
    digit (n / 100000)
    ∷ digit (n / 10000)
    ∷ digit (n / 1000)
    ∷ digit (n / 100)
    ∷ digit (n / 10)
    ∷ digit n
    ∷ []

-- %06d: six digits, and more from 1000000 on. The number is fuel enough.
unfoldable pub padded : ℕ → ℕ → Bytes
padded zero n = six n
padded (suc fuel) n =
    let front = padded fuel (n / 10) in if ltb n 1000000 then six n else front ++ digit n ∷ []

unfoldable pub segment_number : ℕ → Bytes
segment_number n = padded n n

-- a <= b, for strings
unfoldable pub name_le : Bytes → Bytes → Bool
name_le [] ys = true
name_le (x ∷ xs) [] = false
name_le (x ∷ xs) (y ∷ ys) =
    let rest = name_le xs ys in if ltb x y then true else if x == y then rest else false

unfoldable pub insert_segment : ℕ × Bytes → List (ℕ × Bytes) → List (ℕ × Bytes)
insert_segment f [] = f ∷ []
insert_segment f (g ∷ gs) =
    let rest = insert_segment f gs in
    if name_le (segment_number f.0) (segment_number g.0) then f ∷ g ∷ gs else g ∷ rest

-- sort.Strings
unfoldable pub sort_segments : List (ℕ × Bytes) → List (ℕ × Bytes)
sort_segments [] = []
sort_segments (f ∷ fs) = insert_segment f (sort_segments fs)

-- Segments by their numbers, from `n` on.
unfoldable pub numbered : ℕ → List Bytes → List (ℕ × Bytes)
numbered n [] = []
numbered n (b ∷ bs) = (n, b) ∷ numbered (suc n) bs

name_le-cons :
    (x y : ℕ) (xs ys : Bytes)
    → (x < y) ⊎ ((x ≡ y) × (name_le xs ys ≡ true))
    → name_le (x ∷ xs) (y ∷ ys) ≡ true
unfolding name_le
name_le-cons x y xs ys h = ground (arith, h)

not_below : (x y : ℕ) → ltb x y ≡ false → y ≤ x
not_below x y h = ground (arith, h)

last_le : (a b : ℕ) → a % 10 ≤ b % 10 → name_le (digit a ∷ []) (digit b ∷ []) ≡ true
unfolding name_le
last_le a b h = ground (arith, h)

two_le :
    (a b : ℕ)
    → a % 100 ≤ b % 100
    → name_le (digit (a / 10) ∷ digit a ∷ []) (digit (b / 10) ∷ digit b ∷ []) ≡ true
two_le a b h = name_le-cons _ _ _ _ (by_digit (last_le a b))
  where
    by_digit :
        {P : Type 0}
        → (a % 10 ≤ b % 10 → P)
        → (digit (a / 10) < digit (b / 10)) ⊎ ((digit (a / 10) ≡ digit (b / 10)) × P)
    by_digit f = elim (Bool-cases (ltb (digit (a / 10)) (digit (b / 10)))) [
      | inl l ↦ inl (ground (arith, l))
      | inr m ↦ let n = not_below _ _ m in inr (omega (arith, h, n), f (omega (arith, h, n)))
    ]

three_le :
    (a b : ℕ)
    → a % 1000 ≤ b % 1000
    → name_le
        (digit (a / 100) ∷ digit (a / 10) ∷ digit a ∷ [])
        (digit (b / 100) ∷ digit (b / 10) ∷ digit b ∷ [])
      ≡ true
three_le a b h = name_le-cons _ _ _ _ (by_digit (two_le a b))
  where
    by_digit :
        {P : Type 0}
        → (a % 100 ≤ b % 100 → P)
        → (digit (a / 100) < digit (b / 100)) ⊎ ((digit (a / 100) ≡ digit (b / 100)) × P)
    by_digit f = elim (Bool-cases (ltb (digit (a / 100)) (digit (b / 100)))) [
      | inl l ↦ inl (ground (arith, l))
      | inr m ↦ let n = not_below _ _ m in inr (omega (arith, h, n), f (omega (arith, h, n)))
    ]

four_le :
    (a b : ℕ)
    → a % 10000 ≤ b % 10000
    → name_le
        (digit (a / 1000) ∷ digit (a / 100) ∷ digit (a / 10) ∷ digit a ∷ [])
        (digit (b / 1000) ∷ digit (b / 100) ∷ digit (b / 10) ∷ digit b ∷ [])
      ≡ true
four_le a b h = name_le-cons _ _ _ _ (by_digit (three_le a b))
  where
    by_digit :
        {P : Type 0}
        → (a % 1000 ≤ b % 1000 → P)
        → (digit (a / 1000) < digit (b / 1000)) ⊎ ((digit (a / 1000) ≡ digit (b / 1000)) × P)
    by_digit f = elim (Bool-cases (ltb (digit (a / 1000)) (digit (b / 1000)))) [
      | inl l ↦ inl (ground (arith, l))
      | inr m ↦ let n = not_below _ _ m in inr (omega (arith, h, n), f (omega (arith, h, n)))
    ]

five_le :
    (a b : ℕ)
    → a % 100000 ≤ b % 100000
    → name_le
        (digit (a / 10000) ∷ digit (a / 1000) ∷ digit (a / 100) ∷ digit (a / 10) ∷ digit a ∷ [])
        (digit (b / 10000) ∷ digit (b / 1000) ∷ digit (b / 100) ∷ digit (b / 10) ∷ digit b ∷ [])
      ≡ true
five_le a b h = name_le-cons _ _ _ _ (by_digit (four_le a b))
  where
    by_digit :
        {P : Type 0}
        → (a % 10000 ≤ b % 10000 → P)
        → (digit (a / 10000) < digit (b / 10000)) ⊎ ((digit (a / 10000) ≡ digit (b / 10000)) × P)
    by_digit f = elim (Bool-cases (ltb (digit (a / 10000)) (digit (b / 10000)))) [
      | inl l ↦ inl (ground (arith, l))
      | inr m ↦ let n = not_below _ _ m in inr (omega (arith, h, n), f (omega (arith, h, n)))
    ]

six_le : (a b : ℕ) → a ≤ b → b < 1000000 → name_le (six a) (six b) ≡ true
unfolding six
six_le a b h k = name_le-cons _ _ _ _ (by_digit (five_le a b))
  where
    by_digit :
        {P : Type 0}
        → (a % 100000 ≤ b % 100000 → P)
        → (digit (a / 100000) < digit (b / 100000))
          ⊎ ((digit (a / 100000) ≡ digit (b / 100000)) × P)
    by_digit f = elim (Bool-cases (ltb (digit (a / 100000)) (digit (b / 100000)))) [
      | inl l ↦ inl (ground (arith, l))
      | inr m ↦ let n = not_below _ _ m in inr (omega (arith, h, k, n), f (omega (arith, h, k, n)))
    ]

padded_small : (fuel n : ℕ) → n < 1000000 → padded fuel n ≡ six n
unfolding padded
padded_small zero n h = refl
padded_small (suc fuel) n h = ground (arith, h)

numbers_le : (a b : ℕ) → a ≤ b → b < 1000000 → name_le (segment_number a) (segment_number b) ≡ true
unfolding segment_number
numbers_le a b h k =
    rw (padded_small a a (omega (arith, h, k)), padded_small b b k) (six_le a b h k)

insert-numbered :
    (n : ℕ) (b : Bytes) (bs : List Bytes)
    → n + length bs < 1000000
    → insert_segment (n, b) (numbered (suc n) bs) ≡ (n, b) ∷ numbered (suc n) bs
unfolding insert_segment numbered
insert-numbered n b [] h = refl
insert-numbered n b (c ∷ cs) h = rw (numbers_le n (suc n) (omega arith) (omega (arith, h))) refl

-- Up to a million segments come in the order of their numbers.
pub sort-numbered :
    (n : ℕ) (bs : List Bytes)
    → n + length bs ≤ 1000000
    → sort_segments (numbered n bs) ≡ numbered n bs
unfolding sort_segments numbered
sort-numbered n [] h = refl
sort-numbered n (b ∷ bs) h =
    rw (sort-numbered (suc n) bs (omega (arith, h))) (insert-numbered n b bs (omega (arith, h)))

pub contents-numbered :
    (n : ℕ) (bs : List Bytes) → map (λ (f : ℕ × Bytes). f.1) (numbered n bs) ≡ bs
unfolding numbered
contents-numbered n [] = refl
contents-numbered n (b ∷ bs) = ap (λ r. b ∷ r) (contents-numbered (suc n) bs)
