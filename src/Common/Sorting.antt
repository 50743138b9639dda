-- ===== src/Common/Sorting.antt =====
-- Python's `sorted` and `min` with a key: stable, by a Boolean order.
use junca_social_ecosystem_c.Common.Prelude.{
  ℕ, suc, ◌+◌, ◌≤◌, ◌≡◌, refl, Bool, true, false, ◌&&◌, ◌||◌, List, [], ◌∷◌, arith, ltb, ◌==◌,
  if◌then◌else◌, Bool-cases, inl, inr,
}
use junca_social_ecosystem_c.Common.Lists.{length, sum_by, All}

module _ {ℓ} {A : Type ℓ} (le : A → A → Bool) where
  abbrev pub insert_by : A → List A → List A
  insert_by a [] = a ∷ []
  insert_by a (x ∷ xs) = if le a x then a ∷ x ∷ xs else x ∷ insert_by a xs

  abbrev pub sort_by : List A → List A
  sort_by [] = []
  sort_by (x ∷ xs) = insert_by x (sort_by xs)

  -- `min(x, *xs)`: the first of the least.
  abbrev pub min_by : A → List A → A
  min_by best [] = best
  min_by best (x ∷ xs) = min_by (if le best x then best else x) xs

module _ {ℓ} {A : Type ℓ} where
  pub length-insert_by :
      (le : A → A → Bool) (a : A) (xs : List A) → length (insert_by le a xs) ≡ suc (length xs)
  length-insert_by le a [] = refl
  length-insert_by le a (x ∷ xs) = ground (arith, length-insert_by le a xs)

  pub length-sort_by : (le : A → A → Bool) (xs : List A) → length (sort_by le xs) ≡ length xs
  length-sort_by le [] = refl
  length-sort_by le (x ∷ xs) =
      omega (arith, length-insert_by le x (sort_by le xs), length-sort_by le xs)

  pub sum_by-insert_by :
      (le : A → A → Bool) (f : A → ℕ) (a : A) (xs : List A)
      → sum_by f (insert_by le a xs) ≡ f a + sum_by f xs
  sum_by-insert_by le f a [] = refl
  sum_by-insert_by le f a (x ∷ xs) = ground (arith, sum_by-insert_by le f a xs)

  pub sum_by-sort_by :
      (le : A → A → Bool) (f : A → ℕ) (xs : List A) → sum_by f (sort_by le xs) ≡ sum_by f xs
  sum_by-sort_by le f [] = refl
  sum_by-sort_by le f (x ∷ xs) =
      omega (arith, sum_by-insert_by le f x (sort_by le xs), sum_by-sort_by le f xs)

  pub All-insert_by {κ} :
      (le : A → A → Bool) (P : A → Type κ) (a : A) (xs : List A)
      → P a
      → All P xs
      → All P (insert_by le a xs)
  All-insert_by le P a [] p h = (p, tt)
  All-insert_by le P a (x ∷ xs) p h = elim (Bool-cases (le a x)) [
    | inl first ↦ rw first (p, h)
    | inr later ↦ rw later (h.0, All-insert_by le P a xs p h.1)
  ]

  pub All-sort_by {κ} :
      (le : A → A → Bool) (P : A → Type κ) (xs : List A) → All P xs → All P (sort_by le xs)
  All-sort_by le P [] h = tt
  All-sort_by le P (x ∷ xs) h = All-insert_by le P x (sort_by le xs) h.0 (All-sort_by le P xs h.1)

  pub All-min_by {κ} :
      (le : A → A → Bool) (P : A → Type κ) (a : A) (xs : List A)
      → P a
      → All P xs
      → P (min_by le a xs)
  All-min_by le P a [] p h = p
  All-min_by le P a (x ∷ xs) p h = elim (Bool-cases (le a x)) [
    | inl first ↦ rw first (All-min_by le P a xs p h.1)
    | inr later ↦ rw later (All-min_by le P x xs h.0 h.1)
  ]

  -- Where the order puts the greater measure first, `min` finds the greatest.
  pub min_by_greatest :
      (le : A → A → Bool) (f : A → ℕ)
      → ((a b : A) → le a b ≡ true → f b ≤ f a)
      → ((a b : A) → le a b ≡ false → f a ≤ f b)
      → (a : A) (xs : List A) (top : ℕ) → f (min_by le a xs) ≤ top
      → (f a ≤ top) × All (λ x. f x ≤ top) xs
  min_by_greatest le f hit miss a [] top h = (h, tt)
  min_by_greatest le f hit miss a (x ∷ xs) top h = elim (Bool-cases (le a x)) [
    | inl first ↦
        let (best, rest) = min_by_greatest le f hit miss a xs top (rw first at h) in
        (best, (omega (arith, hit a x first), rest))
    | inr later ↦
        let (best, rest) = min_by_greatest le f hit miss x xs top (rw later at h) in
        (omega (arith, miss a x later), (best, rest))
  ]

  pub min_by_least :
      (le : A → A → Bool) (f : A → ℕ)
      → ((a b : A) → le a b ≡ true → f a ≤ f b)
      → ((a b : A) → le a b ≡ false → f b ≤ f a)
      → (a : A) (xs : List A) (bottom : ℕ) → bottom ≤ f (min_by le a xs)
      → (bottom ≤ f a) × All (λ x. bottom ≤ f x) xs
  min_by_least le f hit miss a [] bottom h = (h, tt)
  min_by_least le f hit miss a (x ∷ xs) bottom h = elim (Bool-cases (le a x)) [
    | inl first ↦
        let (best, rest) = min_by_least le f hit miss a xs bottom (rw first at h) in
        (best, (omega (arith, hit a x first), rest))
    | inr later ↦
        let (best, rest) = min_by_least le f hit miss x xs bottom (rw later at h) in
        (omega (arith, miss a x later), (best, rest))
  ]

-- The order of `str` and `bytes`: lexicographic on code points.
abbrev pub text_leb : List ℕ → List ℕ → Bool
text_leb [] ys = true
text_leb (x ∷ xs) [] = false
text_leb (x ∷ xs) (y ∷ ys) = ltb x y || (x == y && text_leb xs ys)
