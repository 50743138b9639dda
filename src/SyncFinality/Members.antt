-- ===== src/SyncFinality/Members.antt =====
-- sync_finality.py, `ValidatorSet`: a set that the constructor accepts lists each member once, so
-- the power over its members is its total power.
use junca_social_ecosystem_c.Common.{
  ◌+◌, ◌≤◌, ◌≡◌, refl, true, none, List, [], ◌∷◌, map, arith, Bool-cases, inl, inr, length,
  length-insert_new, nat_eq, list_eq, text_iff, beq_refl, mem, Distinct, ok, Dict, lookup, insert,
  lookup-insert, Keyed, Text,
}
use junca_social_ecosystem_c.Finality.Types.{Validator}
use junca_social_ecosystem_c.Finality.Machine.{by_id}
use junca_social_ecosystem_c.Finality.Machine.Safety.{weight, by_id-weight, by_id-Keyed}
use junca_social_ecosystem_c.SyncFinality.Schedule.{
  ValidatorSet, identities, set_of, check_set, total_power,
}
use junca_social_ecosystem_c.SyncFinality.Verifier.{members_of}

length-set_of-le : (xs : List Text) → length (set_of xs) ≤ length xs
unfolding set_of
length-set_of-le [] = omega arith
length-set_of-le (x ∷ xs) = ground (arith, length-set_of-le xs)

mem-set_of : (a : Text) (xs : List Text) → mem a (set_of xs) ≡ mem a xs
unfolding set_of
mem-set_of a [] = refl
mem-set_of a (x ∷ xs) = ground (arith, mem-set_of a xs, text_iff a x)

set_of-Distinct : (xs : List Text) → length (set_of xs) ≡ length xs → Distinct xs
unfolding set_of
set_of-Distinct [] h = tt
set_of-Distinct (x ∷ xs) h = elim (Bool-cases (mem x (set_of xs))) [
  | inl again ↦ absurd (ground (arith, length-set_of-le xs))
  | inr new ↦ (ground (arith, mem-set_of x xs), set_of-Distinct xs (ground arith))
]

by_id-length :
    (vs : List Validator) (d : Dict Text Validator)
    → Distinct (map (λ (v : Validator). v.validator_id) vs)
    → ((id : Text)
        → mem id (map (λ (v : Validator). v.validator_id) vs) ≡ true
        → lookup id d ≡ none)
    → length (by_id vs d) ≡ length vs + length d
unfolding by_id
by_id-length [] d q f = omega arith
by_id-length (v ∷ vs) d q f = omega (
  arith,
  length-insert_new v.validator_id v d (f v.validator_id (rw (beq_refl v.validator_id) refl)),
  by_id-length vs (insert v.validator_id v d) q.1 (λ id m. away id m (f id (ground (arith, m)))),
)
  where
    away :
        (id : Text)
        → mem id (map (λ (v : Validator). v.validator_id) vs) ≡ true
        → lookup id d ≡ none
        → lookup id (insert v.validator_id v d) ≡ none
    away id m g =
        ground (arith, q.0, lookup-insert v.validator_id id v d, text_iff v.validator_id id)

pub check_set-Keyed : (s : ValidatorSet) → Keyed (members_of s)
check_set-Keyed s = by_id-Keyed s.validators [] tt

pub check_set-weight :
    (s : ValidatorSet) → check_set s ≡ ok tt → weight (members_of s) ≡ total_power s
unfolding check_set total_power
check_set-weight s h = omega (
  arith,
  by_id-weight s.validators []
      (by_id-length s.validators [] (set_of-Distinct (identities s) (ground arith)) (λ id m. refl)),
)
