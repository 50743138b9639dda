-- ===== src/Samples.antt =====
-- Concrete stand-ins for the tests: a platform whose encoder and hash are plain functions, and
-- well-formed addresses and hashes.
use junca_social_ecosystem_c.Common.{
  boolean, Bool, true, false, ◌≡◌, refl, if◌then◌else◌, [], ◌∷◌, ◌++◌, Text, Bytes, codes, Json,
  Items, Fields, null, text, number, array, object, nil, cons, end, field, Platform, Result, ok,
  err,
}

mutual
  flat : Json → Bytes
  flat null = 0 ∷ []
  flat (boolean b) = 5 ∷ (if b then 1 else 0) ∷ []
  flat (text t) = 1 ∷ t
  flat (number n) = 2 ∷ n ∷ []
  flat (array xs) = 3 ∷ flat_items xs
  flat (object fs) = 4 ∷ flat_fields fs

  flat_items : Items → Bytes
  flat_items nil = []
  flat_items (cons x xs) = flat x ++ flat_items xs

  flat_fields : Fields → Bytes
  flat_fields end = []
  flat_fields (field k v fs) = flat v ++ flat_fields fs

unfoldable pub sample_dumps : Json → Bytes
unfolding flat
sample_dumps j = flat j

abbrev pub sample_platform : Platform
sample_platform = record { dumps = sample_dumps; sha256 = λ b. b }

abbrev pub alice : Text
alice = codes "0x00000000000000000000000000000000000000a1"

abbrev pub bob : Text
bob = codes "0x00000000000000000000000000000000000000b2"

abbrev pub sample_hash : Text
sample_hash = codes "0x00000000000000000000000000000000000000000000000000000000000000c3"

abbrev pub or_else {ℓ} : {E : Type 0} {A : Type ℓ} → A → Result E A → A
or_else a (ok b) = b
or_else a (err e) = a

abbrev pub is_ok {ℓ} : {E : Type 0} {A : Type ℓ} → Result E A → Bool
is_ok (ok a) = true
is_ok (err e) = false

-- A call that returned, with what it returned.
pub or_else-ok {ℓ} :
    {E : Type 0} {A : Type ℓ} (a : A) (call : Result E A)
    → is_ok call ≡ true
    → call ≡ ok (or_else a call)
or_else-ok a (ok b) h = refl
or_else-ok a (err e) h = cc
