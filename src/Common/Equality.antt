-- ===== src/Common/Equality.antt =====
-- Python's `==` at the types that serve as dictionary keys.
use junca_social_ecosystem_c.Common.Prelude.{
  ℕ, ◌≡◌, refl, ◌↔◌, ◌≢◌, Bool, true, false, ◌&&◌, List, [], ◌∷◌, ◌||◌, arith, ◌==◌ as nat_beq,
  ==_iff, false_of_not_true,
}

pub record Eq {ℓ} (A : Type ℓ) : Type ℓ where
  pub beq : A → A → Bool
  -- The test decides equality.
  pub beq_iff : (x y : A) → (beq x y ≡ true) ↔ (x ≡ y)

infix 50 ◌=?◌
abbrev pub ◌=?◌ {ℓ} : {A : Type ℓ} ⦃e : Eq A⦄ → A → A → Bool
◌=?◌ ⦃e⦄ = e.beq

abbrev pub list_beq {ℓ} : {A : Type ℓ} → (A → A → Bool) → List A → List A → Bool
list_beq f [] [] = true
list_beq f (x ∷ xs) (y ∷ ys) = f x y && list_beq f xs ys
list_beq f _ _ = false

pub list_beq_iff {ℓ} :
    {A : Type ℓ} (f : A → A → Bool)
    → ((a b : A) → (f a b ≡ true) ↔ (a ≡ b))
    → (xs ys : List A) → (list_beq f xs ys ≡ true) ↔ (xs ≡ ys)
list_beq_iff f h [] [] = (λ _. refl, λ _. refl)
list_beq_iff f h [] (y ∷ ys) = (λ e. cc, λ e. cc)
list_beq_iff f h (x ∷ xs) [] = (λ e. cc, λ e. cc)
list_beq_iff f h (x ∷ xs) (y ∷ ys) = ground (arith, h x y, list_beq_iff f h xs ys)

instance abbrev pub list_eq {ℓ} : {A : Type ℓ} ⦃e : Eq A⦄ → Eq (List A)
list_eq ⦃e⦄ = record { beq = list_beq e.beq; beq_iff = list_beq_iff e.beq e.beq_iff }

instance abbrev pub nat_eq : Eq ℕ
nat_eq = record { beq = nat_beq; beq_iff = ==_iff }

abbrev pub pair_beq {ℓ κ} :
    {A : Type ℓ} {B : Type κ} → (A → A → Bool) → (B → B → Bool) → A × B → A × B → Bool
pair_beq f g (a, b) (c, d) = f a c && g b d

pub pair_beq_iff {ℓ κ} :
    {A : Type ℓ} {B : Type κ} (f : A → A → Bool) (g : B → B → Bool)
    → ((a b : A) → (f a b ≡ true) ↔ (a ≡ b))
    → ((a b : B) → (g a b ≡ true) ↔ (a ≡ b))
    → (p q : A × B) → (pair_beq f g p q ≡ true) ↔ (p ≡ q)
pair_beq_iff f g hf hg (a, b) (c, d) = ground (arith, hf a c, hg b d)

instance abbrev pub pair_eq {ℓ κ} : {A : Type ℓ} {B : Type κ} ⦃e : Eq A⦄ ⦃d : Eq B⦄ → Eq (A × B)
pair_eq ⦃e⦄ ⦃d⦄ = record {
  beq = pair_beq e.beq d.beq;
  beq_iff = pair_beq_iff e.beq d.beq e.beq_iff d.beq_iff;
}

module _ {ℓ} {A : Type ℓ} ⦃e : Eq A⦄ where
  pub beq_refl : (a : A) → (a =? a) ≡ true
  beq_refl a = (e.beq_iff a a).1 refl

  pub beq_ne : (a b : A) → a ≢ b → (a =? b) ≡ false
  beq_ne a b h = false_of_not_true (a =? b) (λ t. h ((e.beq_iff a b).0 t))

  pub ne_of_beq : (a b : A) → (a =? b) ≡ false → a ≢ b
  ne_of_beq a b h t = ground (arith, e.beq_iff a b)

  -- `x in xs`
  abbrev pub mem : A → List A → Bool
  mem a [] = false
  mem a (x ∷ xs) = (a =? x) || mem a xs

  -- No element is listed twice.
  abbrev pub Distinct : List A → Type 0
  Distinct [] = Unit
  Distinct (x ∷ xs) = (mem x xs ≡ false) × Distinct xs

  -- `set.remove` and `set.discard` on a list without repetitions.
  abbrev pub remove : A → List A → List A
  remove a [] = []
  remove a (x ∷ xs) = elim (a =? x) [ true ↦ xs | false ↦ x ∷ remove a xs ]
