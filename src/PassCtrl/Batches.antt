-- ===== src/PassCtrl/Batches.antt =====
-- coordinator/internal/passctrl/passctrl.go: the batching and the deepest-first order of the seeds.
use drsync.Prelude.{
  ℕ, ◌+◌, ◌≡◌, ◌≤◌, ◌<◌, refl, sym, ap, ◌∙◌, Bool, List, [], ◌∷◌, ◌++◌, Option, none, some, Bytes,
  ◌==◌, ltb, leb, if◌then◌else◌, arith, length, All, All-append, to_nat, count_where, Bool-cases,
  inl, inr, length-append, lt_of_not_leb, lt_of_ltb, All-weaken,
}
use mathlib.Core.List.{append_assoc, append-nil}

module _ {ℓ} {A : Type ℓ} where
  -- One record: the batch that it fills and flushes, if any, and the batch that is left.
  abbrev pub push : ℕ → List A → A → Option (List A) × List A
  push k batch x =
      if leb k (length (batch ++ x ∷ []))
      then (some (batch ++ x ∷ []), [])
      else (none, batch ++ x ∷ [])

  abbrev pub emit : Option (List A) → List (List A) → List (List A)
  emit none bs = bs
  emit (some b) bs = b ∷ bs

  -- The loop: the batches flushed, and the batch left at the end.
  unfoldable pub fill_batches : ℕ → List A → List A → List (List A) × List A
  fill_batches k batch [] = ([], batch)
  fill_batches k batch (x ∷ xs) =
      let r = push k batch x in let rest = fill_batches k r.1 xs in (emit r.0 rest.0, rest.1)

  -- `flush` of the last batch, which does nothing on an empty one.
  abbrev pub flush : List A → List (List A)
  flush [] = []
  flush (x ∷ xs) = (x ∷ xs) ∷ []

  unfoldable pub batches : ℕ → List A → List (List A)
  batches k xs = (fill_batches k [] xs).0 ++ flush (fill_batches k [] xs).1

  abbrev pub flat : List (List A) → List A
  flat [] = []
  flat (b ∷ bs) = b ++ flat bs

  abbrev pub IsBatch : ℕ → List A → Type 0
  IsBatch k b = (1 ≤ length b) × (length b ≤ k)

  flat-append : (bs cs : List (List A)) → flat (bs ++ cs) ≡ flat bs ++ flat cs
  flat-append [] cs = refl
  flat-append (b ∷ bs) cs =
      ap (λ (r : List A). b ++ r) (flat-append bs cs) ∙ sym (append_assoc b (flat bs) (flat cs))

  flat-flush : (b : List A) → flat (flush b) ≡ b
  flat-flush [] = refl
  flat-flush (x ∷ xs) = append-nil (x ∷ xs)

  -- One step keeps the records, in order.
  covers : List (List A) × List A → List A
  covers r = flat r.0 ++ r.1

  fill_covers :
      (k : ℕ) (batch xs : List A)
      → flat (fill_batches k batch xs).0 ++ (fill_batches k batch xs).1 ≡ batch ++ xs
  unfolding fill_batches
  fill_covers k batch [] = sym (append-nil batch)
  fill_covers k batch (x ∷ xs) = elim (Bool-cases (leb k (length (batch ++ x ∷ [])))) [
    | inl t ↦ rw t (
        append_assoc (batch ++ x ∷ []) (flat (fill_batches k [] xs).0) (fill_batches k [] xs).1
        ∙ (ap (λ (r : List A). (batch ++ x ∷ []) ++ r) (fill_covers k [] xs)
            ∙ append_assoc batch (x ∷ []) xs))
    | inr f ↦ rw f (fill_covers k (batch ++ x ∷ []) xs ∙ append_assoc batch (x ∷ []) xs)
  ]

  fill_sizes :
      (k : ℕ) (batch xs : List A)
      → length batch < k
      → All (IsBatch k) (fill_batches k batch xs).0 × (length (fill_batches k batch xs).1 < k)
  unfolding fill_batches
  fill_sizes k batch [] h = (tt, h)
  fill_sizes k batch (x ∷ xs) h = elim (Bool-cases (leb k (length (batch ++ x ∷ [])))) [
    | inl t ↦
        let size : length (batch ++ x ∷ []) ≡ length batch + 1 = length-append batch (x ∷ []) in
        let ih : All (IsBatch k) (fill_batches k [] xs).0 × (length (fill_batches k [] xs).1 < k) =
          fill_sizes k [] xs (omega (arith, h)) in
        rw t (((omega (arith, size), omega (arith, size, h)), ih.0), ih.1)
    | inr f ↦
        rw f (fill_sizes k (batch ++ x ∷ []) xs (lt_of_not_leb k (length (batch ++ x ∷ [])) f))
  ]

  flush-IsBatch : (k : ℕ) (b : List A) → length b < k → All (IsBatch k) (flush b)
  flush-IsBatch k [] h = tt
  flush-IsBatch k (x ∷ xs) h = ((omega arith, omega (arith, h)), tt)

  -- Batching loses, repeats and reorders nothing: the batches, one after the other, are the records;
  -- no batch is empty, and none is larger than the batch size.
  pub batches_cover :
      (k : ℕ) (xs : List A) → 1 ≤ k → (flat (batches k xs) ≡ xs) × All (IsBatch k) (batches k xs)
  unfolding batches
  batches_cover k xs h = (
    flat-append (fill_batches k [] xs).0 (flush (fill_batches k [] xs).1)
        ∙ (ap (λ (r : List A). flat (fill_batches k [] xs).0 ++ r)
              (flat-flush (fill_batches k [] xs).1)
            ∙ fill_covers k [] xs),
    All-append (IsBatch k) (fill_batches k [] xs).0 (flush (fill_batches k [] xs).1)
        (fill_sizes k [] xs (omega (arith, h))).0
        (flush-IsBatch k (fill_batches k [] xs).1 (fill_sizes k [] xs (omega (arith, h))).1),
  )

-- strings.Count(p, "/")
abbrev pub depth : Bytes → ℕ
depth p = count_where (λ b. b == 47) p

module _ {ℓ} {A : Type ℓ} (path : A → Bytes) where
  -- sort.SliceStable by falling depth: an element goes before the equals that came after it.
  abbrev pub place_deep : A → List A → List A
  place_deep x [] = x ∷ []
  place_deep x (y ∷ ys) =
      let rest = place_deep x ys in
      if ltb (depth (path x)) (depth (path y)) then y ∷ rest else x ∷ y ∷ ys

  abbrev pub deepest_first : List A → List A
  deepest_first [] = []
  deepest_first (x ∷ xs) = place_deep x (deepest_first xs)

  -- No element comes after a shallower one.
  abbrev pub IsDeepestFirst : List A → Type 0
  IsDeepestFirst [] = Unit
  IsDeepestFirst (x ∷ xs) = All (λ y. depth (path y) ≤ depth (path x)) xs × IsDeepestFirst xs

  place_deep-All :
      (d : ℕ) (x : A) (ys : List A)
      → depth (path x) ≤ d
      → All (λ y. depth (path y) ≤ d) ys
      → All (λ y. depth (path y) ≤ d) (place_deep x ys)
  place_deep-All d x [] h a = (h, tt)
  place_deep-All d x (y ∷ ys) h a = elim (Bool-cases (ltb (depth (path x)) (depth (path y)))) [
    | inl t ↦ rw t (a.0, place_deep-All d x ys h a.1)
    | inr f ↦ rw f (h, a)
  ]

  place_deep-IsDeepestFirst :
      (x : A) (ys : List A) → IsDeepestFirst ys → IsDeepestFirst (place_deep x ys)
  place_deep-IsDeepestFirst x [] s = (tt, tt)
  place_deep-IsDeepestFirst x (y ∷ ys) s =
      elim (Bool-cases (ltb (depth (path x)) (depth (path y)))) [
        | inl t ↦ rw t (
          place_deep-All (depth (path y)) x ys (omega (arith, lt_of_ltb _ _ t)) s.0,
          place_deep-IsDeepestFirst x ys s.1,
        )
        | inr f ↦ rw f ((ground arith, All-weaken _ _ (λ z h. ground arith) ys s.0), s)
      ]

  count_where-place_deep :
      (p : A → Bool) (x : A) (ys : List A)
      → count_where p (place_deep x ys) ≡ to_nat (p x) + count_where p ys
  count_where-place_deep p x [] = refl
  count_where-place_deep p x (y ∷ ys) = elim (Bool-cases (ltb (depth (path x)) (depth (path y)))) [
    | inl t ↦ rw t (omega (arith, count_where-place_deep p x ys))
    | inr f ↦ rw f refl
  ]

  -- The sort puts every path before the paths that are less deep, so before its own ancestors, and
  -- keeps the elements: as many of them satisfy any test as before.
  pub deepest_first_lem :
      (p : A → Bool) (xs : List A)
      → IsDeepestFirst (deepest_first xs) × (count_where p (deepest_first xs) ≡ count_where p xs)
  deepest_first_lem p [] = (tt, refl)
  deepest_first_lem p (x ∷ xs) = (
    place_deep-IsDeepestFirst x (deepest_first xs) (deepest_first_lem p xs).0,
    omega (arith, count_where-place_deep p x (deepest_first xs), (deepest_first_lem p xs).1),
  )
