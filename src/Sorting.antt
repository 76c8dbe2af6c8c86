-- ===== src/Sorting.antt =====
-- Python's `sorted` by a total order, as a stable insertion sort, with what callers rely on: the
-- result is in order, holds the same items and has the same length.
use universal_agent_memory.Prelude.{
  suc, ◌≡◌, refl, ◌⊎◌, inl, inr, Bool, true, false, List, [], ◌∷◌, arith, if◌then◌else◌, Bool-cases,
  length, All, In, All-map,
}

-- The test `le x y` says that `x` may stand before `y`.
module _ {ℓ} {A : Type ℓ} (le : A → A → Bool) where
  unfoldable pub insert : A → List A → List A
  insert x [] = x ∷ []
  insert x (y ∷ ys) = let rest = insert x ys in if le x y then x ∷ y ∷ ys else y ∷ rest

  -- An item is inserted before its equals that come later, so the sort is stable.
  unfoldable pub sort : List A → List A
  unfolding insert
  sort [] = []
  sort (x ∷ xs) = insert x (sort xs)

  -- Each item may stand before all later ones.
  abbrev pub IsSorted : List A → Type ℓ
  IsSorted [] = Unit
  IsSorted (x ∷ xs) = All (λ y. le x y ≡ true) xs × IsSorted xs

  pub length-insert : (x : A) (xs : List A) → length (insert x xs) ≡ suc (length xs)
  unfolding insert
  length-insert x [] = refl
  length-insert x (y ∷ ys) = ground (arith, length-insert x ys)

  pub length-sort : (xs : List A) → length (sort xs) ≡ length xs
  unfolding sort
  length-sort [] = refl
  length-sort (x ∷ xs) = omega (arith, length-insert x (sort xs), length-sort xs)

  pub All-insert {κ} : (P : A → Type κ) (x : A) (xs : List A) → P x → All P xs → All P (insert x xs)
  unfolding insert
  All-insert P x [] h k = (h, k)
  All-insert P x (y ∷ ys) h k = elim (Bool-cases (le x y)) [
    | inl e ↦ rw e (h, k)
    | inr e ↦ rw e (k.0, All-insert P x ys h k.1)
  ]

  pub All-sort {κ} : (P : A → Type κ) (xs : List A) → All P xs → All P (sort xs)
  unfolding sort
  All-sort P [] h = h
  All-sort P (x ∷ xs) h = All-insert P x (sort xs) h.0 (All-sort P xs h.1)

  module _ (total : (x y : A) → le x y ≡ false → le y x ≡ true)
      (trans : (x y z : A) → le x y ≡ true → le y z ≡ true → le x z ≡ true) where
    pub insert-IsSorted : (x : A) (xs : List A) → IsSorted xs → IsSorted (insert x xs)
    unfolding insert
    insert-IsSorted x [] h = (tt, tt)
    insert-IsSorted x (y ∷ ys) h = elim (Bool-cases (le x y)) [
      | inl e ↦ rw e ((e, All-map (λ z p. trans x y z e p) ys h.0), h)
      | inr e ↦
          rw e (All-insert (λ z. le y z ≡ true) x ys (total x y e) h.0, insert-IsSorted x ys h.1)
    ]

    pub sort-IsSorted : (xs : List A) → IsSorted (sort xs)
    unfolding sort
    sort-IsSorted [] = tt
    sort-IsSorted (x ∷ xs) = insert-IsSorted x (sort xs) (sort-IsSorted xs)

module _ {A : Type 0} (le : A → A → Bool) where
  pub In-insert_self : (x : A) (xs : List A) → In x (insert le x xs)
  unfolding insert
  In-insert_self x [] = inl refl
  In-insert_self x (y ∷ ys) = elim (Bool-cases (le x y)) [
    | inl e ↦ rw e (inl refl)
    | inr e ↦ rw e (inr (In-insert_self x ys))
  ]

  pub In-insert : (x y : A) (xs : List A) → In y xs → In y (insert le x xs)
  unfolding insert
  In-insert x y [] m = absurd m
  In-insert x y (z ∷ zs) (inl q) = elim (Bool-cases (le x z)) [
    | inl e ↦ rw e (inr (inl q))
    | inr e ↦ rw e (inl q)
  ]
  In-insert x y (z ∷ zs) (inr m) = elim (Bool-cases (le x z)) [
    | inl e ↦ rw e (inr (inr m))
    | inr e ↦ rw e (inr (In-insert x y zs m))
  ]

  pub In-sort : (y : A) (xs : List A) → In y xs → In y (sort le xs)
  unfolding sort
  In-sort y [] m = m
  In-sort y (x ∷ xs) (inl e) = rw e (In-insert_self x (sort le xs))
  In-sort y (x ∷ xs) (inr m) = In-insert x y (sort le xs) (In-sort y xs m)

  pub In-of-insert : (x y : A) (xs : List A) → In y (insert le x xs) → (y ≡ x) ⊎ In y xs
  unfolding insert
  In-of-insert x y [] (inl e) = inl e
  In-of-insert x y [] (inr m) = absurd m
  In-of-insert x y (z ∷ zs) m = elim (Bool-cases (le x z)) [
    | inl e ↦ rw e at m
    | inr e ↦
        let n : In y (z ∷ insert le x zs) = rw e at m in regroup n (λ k. In-of-insert x y zs k)
  ]
    where
      regroup :
          In y (z ∷ insert le x zs)
          → (In y (insert le x zs) → (y ≡ x) ⊎ In y zs)
          → (y ≡ x) ⊎ In y (z ∷ zs)
      regroup (inl q) f = inr (inl q)
      regroup (inr k) f = elim (f k) [ inl q ↦ inl q | inr j ↦ inr (inr j) ]

  pub In-of-sort : (y : A) (xs : List A) → In y (sort le xs) → In y xs
  unfolding sort
  In-of-sort y [] m = m
  In-of-sort y (x ∷ xs) m = elim (In-of-insert x y (sort le xs) m) [
    | inl e ↦ inl e
    | inr k ↦ inr (In-of-sort y xs k)
  ]
