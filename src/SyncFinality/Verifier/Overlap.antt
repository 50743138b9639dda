-- ===== src/SyncFinality/Verifier/Overlap.antt =====
-- sync_finality.py, `CertifiedFinalityVerifier.verify`: the power behind a proof that verifies.
use junca_social_ecosystem_c.Common.{
  ℕ, ◌*◌, ◌≤◌, ◌<◌, ◌≡◌, refl, sym, Bool, true, false, ◌&&◌, ◌||◌, List, [], ◌∷◌, arith, nat_eq,
  list_eq, ◌=?◌, text_iff, mem, ok, ok-injective, >>=-eq-ok, or_raise, or_raise-eq-ok, Verdict,
  Dict, lookup, Keyed, Text, Platform,
}
use junca_social_ecosystem_c.Finality.Types.{Validator, FinalityVote, FinalityCertificate}
use junca_social_ecosystem_c.Finality.Machine.Quorum.{
  power_where, power_where-add, power_where_none, power_where-overlap,
}
use junca_social_ecosystem_c.SyncFinality.Schedule.{
  total_power, quorum_power, check_set, at_height, missing_validator,
}
use junca_social_ecosystem_c.SyncFinality.Members.{check_set-Keyed, check_set-weight}
use junca_social_ecosystem_c.SyncFinality.Verifier.{
  FinalityProof, FinalityVerifier, members_of, signed_power_of, verify_proof,
}
use junca_social_ecosystem_c.SyncFinality.Verifier.Accepted.{Fresh, verify_proof-Verified}

-- Whether a validator has a vote among these.
abbrev pub signed_by : List FinalityVote → Text → Bool
signed_by [] id = false
signed_by (vote ∷ votes) id = (vote.validator_id =? id) || signed_by votes id

Fresh-signed_by :
    (id : Text) (seen : List Text) (votes : List FinalityVote)
    → Fresh seen votes
    → mem id seen ≡ true
    → signed_by votes id ≡ false
Fresh-signed_by id seen [] f m = refl
Fresh-signed_by id seen (vote ∷ votes) f m =
    ground (
      arith,
      Fresh-signed_by id (vote.validator_id ∷ seen) votes f.1,
      text_iff vote.validator_id id,
    )

-- The power that `verify` sums over the votes is that of the members who signed.
pub signed_power_of-power_where :
    (members : Dict Text Validator) (seen : List Text) (votes : List FinalityVote) (signed : ℕ)
    → Keyed members
    → Fresh seen votes
    → signed_power_of members votes ≡ ok signed
    → signed ≡ power_where (signed_by votes) members
unfolding signed_power_of
signed_power_of-power_where members seen [] signed q f h =
    rw (← ok-injective h) (sym (power_where_none members))
signed_power_of-power_where members seen (vote ∷ votes) signed q f h =
    let (w, found, h1) =
      >>=-eq-ok (or_raise (lookup vote.validator_id members) missing_validator) _ h in
    let (rest, e, h2) = >>=-eq-ok (signed_power_of members votes) _ h1 in
    let alone =
      Fresh-signed_by vote.validator_id (vote.validator_id ∷ seen) votes f.1
        (ground (arith, text_iff vote.validator_id vote.validator_id)) in
    omega (
      arith,
      ok-injective h2,
      signed_power_of-power_where members (vote.validator_id ∷ seen) votes rest q f.1 e,
      power_where-add (signed_by votes) vote.validator_id w members q
          (or_raise-eq-ok _ missing_validator found) alone,
    )

module _ (platform : Platform) where
  -- Take two proofs for one height that verify against one schedule, whatever their vote
  -- verifiers, rounds and blocks, where the set active at the height passes its constructor.
  -- The members who signed in both hold more than a third of the set's power.
  pub verified_overlap :
      (verifier : FinalityVerifier) (accepts accepts' : FinalityVote → Verdict)
      (p q : FinalityProof) (c d : FinalityCertificate)
      → check_set (at_height p.height verifier.schedule) ≡ ok tt
      → verify_proof platform verifier accepts p ≡ ok c
      → verify_proof platform verifier accepts' q ≡ ok d
      → q.height ≡ p.height
      → total_power (at_height p.height verifier.schedule)
        < 3
          * power_where
              (λ id. signed_by p.votes id && signed_by q.votes id)
              (members_of (at_height p.height verifier.schedule))
  unfolding quorum_power
  verified_overlap verifier accepts accepts' p q c d set h g same =
      let active = at_height p.height verifier.schedule in
      let v = verify_proof-Verified platform verifier accepts p h in
      let w = verify_proof-Verified platform verifier accepts' q g in
      let keyed = check_set-Keyed active in
      let counted : signed_power_of (members_of active) q.votes ≡ ok w.signed =
        rw (← same) w.counted in
      let enough : quorum_power active ≤ w.signed = rw (← same) w.quorum in
      omega (
        arith,
        v.quorum,
        enough,
        signed_power_of-power_where (members_of active) [] p.votes v.signed keyed v.fresh v.counted,
        signed_power_of-power_where (members_of active) [] q.votes w.signed keyed w.fresh counted,
        check_set-weight active set,
        power_where-overlap (signed_by p.votes) (signed_by q.votes) (members_of active),
      )
