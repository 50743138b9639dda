-- ===== src/Common/Outcome.antt =====
-- A call that returns or raises.
use junca_social_ecosystem_c.Common.Prelude.{
  ◌≡◌, ◌∙◌, ap, ◌⊎◌, inl, inr, refl, Bool, true, false, Option, none, some,
}

pub data Result {ℓ} (E : Type 0) (A : Type ℓ) : Type ℓ where
  ok : A → Result E A
  err : E → Result E A

-- A call that returns nothing or raises.
abbrev pub Check : Type 0 → Type 0
Check E = Result E (Unit {0})

infixl 5 ◌>>=◌ ◌>>◌
abbrev pub ◌>>=◌ {ℓ κ} :
    {E : Type 0} {A : Type ℓ} {B : Type κ} → Result E A → (A → Result E B) → Result E B
err e >>= rest = err e
ok value >>= rest = rest value

abbrev pub ◌>>◌ {ℓ} : {E : Type 0} {B : Type ℓ} → Result E (Unit {0}) → Result E B → Result E B
first >> rest = first >>= λ _. rest

-- `if test: raise e`
abbrev pub raise_if : {E : Type 0} → Bool → E → Result E (Unit {0})
raise_if true e = err e
raise_if false e = ok tt

-- `_require(test, e)`
abbrev pub require : {E : Type 0} → Bool → E → Result E (Unit {0})
require true e = ok tt
require false e = err e

abbrev pub or_raise {ℓ} : {E : Type 0} {A : Type ℓ} → Option A → E → Result E A
or_raise none e = err e
or_raise (some a) e = ok a

-- What a call of a callback gives: a value, or an exception.
pub data Verdict : Type 0 where
  returned : Bool → Verdict
  raised : Verdict

-- What is left of a verifier's answer: anything but `True` is a failure.
abbrev pub is_true : Verdict → Bool
is_true (returned b) = b
is_true raised = false

pub >>=-eq-ok {ℓ κ} :
    {E : Type 0} {A : Type ℓ} {B : Type κ} (call : Result E A) (rest : A → Result E B) {result : B}
    → (call >>= rest) ≡ ok result
    → (value : A) × (call ≡ ok value) × (rest value ≡ ok result)
>>=-eq-ok (err e) rest h = cc
>>=-eq-ok (ok value) rest h = (value, refl, h)

pub >>-eq-ok {ℓ} :
    {E : Type 0} {B : Type ℓ} (m : Result E (Unit {0})) (k : Result E B) {b : B}
    → (m >> k) ≡ ok b
    → (m ≡ ok tt) × (k ≡ ok b)
>>-eq-ok (ok tt) k h = (refl, h)
>>-eq-ok (err e) k h = cc

pub raise_if-eq-ok : {E : Type 0} (t : Bool) (e : E) → raise_if t e ≡ ok tt → t ≡ false
raise_if-eq-ok true e h = cc
raise_if-eq-ok false e h = refl

pub require-eq-ok : {E : Type 0} (t : Bool) (e : E) → require t e ≡ ok tt → t ≡ true
require-eq-ok true e h = refl
require-eq-ok false e h = cc

pub ok-injective {ℓ} :
    {E : Type 0} {A : Type ℓ} {a b : A} → ◌≡◌ {A = Result E A} (ok a) (ok b) → a ≡ b
ok-injective h = cc

pub or_raise-eq-ok {ℓ} :
    {E : Type 0} {A : Type ℓ} (o : Option A) (e : E) {a : A} → or_raise o e ≡ ok a → o ≡ some a
or_raise-eq-ok none e h = cc
or_raise-eq-ok (some b) e h = cc

pub Result-cases {ℓ} :
    {E : Type 0} {A : Type ℓ} (r : Result E A) → ((a : A) × (r ≡ ok a)) ⊎ ((e : E) × (r ≡ err e))
Result-cases (ok a) = inl (a, refl)
Result-cases (err e) = inr (e, refl)

-- The other way round: what each call returns, put together.
pub >>-ok {ℓ} :
    {E : Type 0} {B : Type ℓ} (m : Result E (Unit {0})) {k : Result E B} {b : B}
    → m ≡ ok tt
    → k ≡ ok b
    → (m >> k) ≡ ok b
>>-ok (ok tt) h g = g
>>-ok (err e) h g = cc

pub >>=-ok {ℓ κ} :
    {E : Type 0} {A : Type ℓ} {B : Type κ} (call : Result E A) (rest : A → Result E B) (value : A)
    {b : B}
    → call ≡ ok value
    → rest value ≡ ok b
    → (call >>= rest) ≡ ok b
>>=-ok (ok a) rest value h g = let same : a ≡ value = (cc) in ap rest same ∙ g
>>=-ok (err e) rest value h g = cc

pub raise_if-ok : {E : Type 0} (t : Bool) (e : E) → t ≡ false → raise_if t e ≡ ok tt
raise_if-ok true e h = cc
raise_if-ok false e h = refl
