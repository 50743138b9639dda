-- ===== src/Common/Ordered.antt =====
-- Sorted lists: what `sorted` returns is ascending, and sorting it again changes nothing.
use junca_social_ecosystem_c.Common.Prelude.{
  ℕ, ◌≡◌, refl, ap, ◌∙◌, Bool, true, false, List, [], ◌∷◌, arith, Bool-cases, inl, inr,
}
use junca_social_ecosystem_c.Common.Sorting.{insert_by, sort_by, text_leb}

module _ {ℓ} {A : Type ℓ} (le : A → A → Bool) where
  -- Each element is at most the next one.
  abbrev pub Ascending : List A → Type 0
  Ascending [] = Unit
  Ascending (x ∷ []) = Unit
  Ascending (x ∷ y ∷ xs) = (le x y ≡ true) × Ascending (y ∷ xs)

  abbrev pub IsTotal : Type ℓ
  IsTotal = (a b : A) → le a b ≡ false → le b a ≡ true

  insert_by-Ascending :
      IsTotal → (a : A) (xs : List A) → Ascending xs → Ascending (insert_by le a xs)
  insert_by-Ascending total a [] h = tt
  insert_by-Ascending total a (x ∷ []) h = elim (Bool-cases (le a x)) [
    | inl first ↦ rw first (first, tt)
    | inr later ↦ rw later (total a x later, tt)
  ]
  insert_by-Ascending total a (x ∷ y ∷ xs) h = elim (Bool-cases (le a x)) [
    | inl first ↦ rw first (first, h)
    | inr later ↦ elim (Bool-cases (le a y)) [
      | inl second ↦ rw (later, second) (total a x later, (second, h.1))
      | inr last ↦
          let rest : Ascending (insert_by le a (y ∷ xs)) =
            insert_by-Ascending total a (y ∷ xs) h.1 in
          rw (later, last) (h.0, rw last at rest)
    ]
  ]

  pub sort_by-Ascending : IsTotal → (xs : List A) → Ascending (sort_by le xs)
  sort_by-Ascending total [] = tt
  sort_by-Ascending total (x ∷ xs) =
      insert_by-Ascending total x (sort_by le xs) (sort_by-Ascending total xs)

  insert_by_first : (x : A) (xs : List A) → Ascending (x ∷ xs) → insert_by le x xs ≡ x ∷ xs
  insert_by_first x [] h = refl
  insert_by_first x (y ∷ xs) h = rw (h.0) refl

  pub sort_by_sorted : (xs : List A) → Ascending xs → sort_by le xs ≡ xs
  sort_by_sorted [] h = refl
  sort_by_sorted (x ∷ []) h = refl
  sort_by_sorted (x ∷ y ∷ xs) h =
      ap (insert_by le x) (sort_by_sorted (y ∷ xs) h.1) ∙ insert_by_first x (y ∷ xs) h

pub text_leb_total : (s t : List ℕ) → text_leb s t ≡ false → text_leb t s ≡ true
text_leb_total [] t h = cc
text_leb_total (x ∷ s) [] h = refl
text_leb_total (x ∷ s) (y ∷ t) h = ground (arith, text_leb_total s t)

pub text_leb_antisym : (s t : List ℕ) → text_leb s t ≡ true → text_leb t s ≡ true → s ≡ t
text_leb_antisym [] [] h g = refl
text_leb_antisym [] (y ∷ t) h g = cc
text_leb_antisym (x ∷ s) [] h g = cc
text_leb_antisym (x ∷ s) (y ∷ t) h g = ground (arith, text_leb_antisym s t)
