-- ===== src/Prelude/Table.antt =====
-- SQL statements on a table: a list of rows in the order of their keys.
use Prim.Native.Nat.{ℕ, ◌+◌, ◌≤◌}
use mathlib.Core.Path.{◌≡◌, refl}
use mathlib.Core.Bool.{Bool, true, false, ◌&&◌}
use mathlib.Core.List.{List, [], ◌∷◌, ◌++◌}
use mathlib.Core.Option.{Option, none, some}
use native.Mathlib.Omega.{arith}
use drsync.Prelude.Tests.{if◌then◌else◌, to_nat}
use drsync.Prelude.Lists.{All, length}

module _ {ℓ} {A : Type ℓ} where
  -- SELECT … WHERE
  abbrev pub select : (A → Bool) → List A → List A
  select p [] = []
  select p (x ∷ xs) = let rest = select p xs in if p x then x ∷ rest else rest

  -- SELECT … WHERE on a key: the row, or sql.ErrNoRows.
  abbrev pub find_row : (A → Bool) → List A → Option A
  find_row p [] = none
  find_row p (x ∷ xs) = let rest = find_row p xs in if p x then some x else rest

  -- SELECT COUNT(*) … WHERE; also the RowsAffected of an UPDATE or DELETE with that WHERE.
  abbrev pub count_where : (A → Bool) → List A → ℕ
  count_where p [] = 0
  count_where p (x ∷ xs) = to_nat (p x) + count_where p xs

  -- UPDATE … SET … WHERE
  abbrev pub update_where : (A → Bool) → (A → A) → List A → List A
  update_where p f [] = []
  update_where p f (x ∷ xs) = (if p x then f x else x) ∷ update_where p f xs

  -- DELETE … WHERE
  abbrev pub delete_where : (A → Bool) → List A → List A
  delete_where p [] = []
  delete_where p (x ∷ xs) = let rest = delete_where p xs in if p x then rest else x ∷ rest

  pub count_where-append :
      (p : A → Bool) (xs ys : List A)
      → count_where p (xs ++ ys) ≡ count_where p xs + count_where p ys
  count_where-append p [] ys = omega arith
  count_where-append p (x ∷ xs) ys = omega (arith, count_where-append p xs ys)

  pub count_where-le-length : (p : A → Bool) (xs : List A) → count_where p xs ≤ length xs
  count_where-le-length p [] = omega arith
  count_where-le-length p (x ∷ xs) = ground (arith, count_where-le-length p xs)

  -- An UPDATE that matches no row changes nothing.
  pub update_where_none :
      (p : A → Bool) (f : A → A) (xs : List A) → count_where p xs ≡ 0 → update_where p f xs ≡ xs
  update_where_none p f [] h = refl
  update_where_none p f (x ∷ xs) h = ground (arith, update_where_none p f xs)

  pub length-update_where :
      (p : A → Bool) (f : A → A) (xs : List A) → length (update_where p f xs) ≡ length xs
  length-update_where p f [] = refl
  length-update_where p f (x ∷ xs) = omega (arith, length-update_where p f xs)

  pub All-update_where {κ} :
      (P : A → Type κ) (p : A → Bool) (f : A → A)
      → ((x : A) → p x ≡ true → P x → P (f x))
      → (xs : List A) → All P xs
      → All P (update_where p f xs)
  All-update_where P p f keep [] h = tt
  All-update_where P p f keep (x ∷ xs) h = ground (arith, keep x, All-update_where P p f keep xs)

  pub All-delete_where {κ} :
      (P : A → Type κ) (p : A → Bool) (xs : List A) → All P xs → All P (delete_where p xs)
  All-delete_where P p [] h = tt
  All-delete_where P p (x ∷ xs) h = ground (arith, All-delete_where P p xs)

  pub All-select {κ} :
      (P : A → Type κ) (p : A → Bool) (xs : List A) → All P xs → All P (select p xs)
  All-select P p [] h = tt
  All-select P p (x ∷ xs) h = ground (arith, All-select P p xs)

  pub select-All : (p : A → Bool) (xs : List A) → All (λ x. p x ≡ true) (select p xs)
  select-All p [] = tt
  select-All p (x ∷ xs) = ground (arith, select-All p xs)

  pub count_where-delete_where :
      (p w : A → Bool) (xs : List A) → count_where p (delete_where w xs) ≤ count_where p xs
  count_where-delete_where p w [] = omega arith
  count_where-delete_where p w (x ∷ xs) = ground (arith, count_where-delete_where p w xs)

  -- After an UPDATE no row satisfies `p` that the UPDATE takes out of `p`, if `p` lies within it.
  pub count_where-update_where_zero :
      (p w : A → Bool) (f : A → A)
      → ((x : A) → w x ≡ true → p (f x) ≡ false)
      → ((x : A) → w x ≡ false → p x ≡ false)
      → (xs : List A) → count_where p (update_where w f xs) ≡ 0
  count_where-update_where_zero p w f a b [] = refl
  count_where-update_where_zero p w f a b (x ∷ xs) =
      ground (arith, a x, b x, count_where-update_where_zero p w f a b xs)

  -- A DELETE removes exactly the rows that it matches.
  pub count_where-split_delete :
      (p w : A → Bool) (xs : List A)
      → count_where p xs ≡ count_where (λ x. w x && p x) xs + count_where p (delete_where w xs)
  count_where-split_delete p w [] = omega arith
  count_where-split_delete p w (x ∷ xs) = ground (arith, count_where-split_delete p w xs)

  pub count_where_mono :
      (p q : A → Bool)
      → ((x : A) → p x ≡ true → q x ≡ true)
      → (xs : List A) → count_where p xs ≤ count_where q xs
  count_where_mono p q f [] = omega arith
  count_where_mono p q f (x ∷ xs) = ground (arith, f x, count_where_mono p q f xs)

  -- An UPDATE that makes no row satisfy `p` adds none that does.
  pub count_where-update_where_le :
      (p w : A → Bool) (f : A → A)
      → ((x : A) → p (f x) ≡ false)
      → (xs : List A) → count_where p (update_where w f xs) ≤ count_where p xs
  count_where-update_where_le p w f h [] = omega arith
  count_where-update_where_le p w f h (x ∷ xs) =
      ground (arith, h x, count_where-update_where_le p w f h xs)
