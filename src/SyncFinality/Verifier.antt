-- ===== src/SyncFinality/Verifier.antt =====
-- sync_finality.py, `CertifiedFinalityVerifier.verify`. A vote's verifier returns or raises.
pub mod Accepted
pub mod Overlap
use junca_social_ecosystem_c.Common.{
  ℕ, ◌+◌, Bool, true, false, not, ◌||◌, List, [], ◌∷◌, ◌++◌, map, if◌then◌else◌, ltb, ◌==◌, length,
  drop, Eq, nat_eq, list_eq, ◌=?◌, mem, sort_by, text_leb, Result, ok, err, Check, ◌>>=◌, ◌>>◌,
  raise_if, or_raise, Verdict, is_true, Dict, lookup, contains, Text, Bytes, codes, is_empty, lower,
  starts_with, parses_hex, Platform,
}
use junca_social_ecosystem_c.Finality.Types.{
  Validator, FinalityVote, FinalityCertificate, vote_hash, certificate_digest,
}
use junca_social_ecosystem_c.Finality.Machine.{by_id}
use junca_social_ecosystem_c.SyncFinality.Schedule.{
  SyncFinalityError, bad_policy, identity_mismatch, bad_hash, wrong_set, too_many_votes, bad_vote,
  duplicate_validator, unknown_validator, unbound_vote, verification_failed, no_quorum,
  hash_mismatch, missing_validator, ValidatorSet, total_power, quorum_power, set_hash, Schedule,
  at_height,
}

pub record FinalityProof : Type 0 where
  pub chain_id : ℕ
  pub height : ℕ
  pub round : ℕ
  pub block_hash : Text
  pub validator_set_hash : Text
  pub votes : List FinalityVote
  pub certificate_hash : Text

-- `CertifiedFinalityVerifier` without its callback, and `__init__`.
pub record FinalityVerifier : Type 0 where
  pub chain_id : ℕ
  pub schedule : Schedule

unfoldable pub make_verifier : ℕ → Schedule → Result SyncFinalityError FinalityVerifier
make_verifier chain_id schedule = do
  raise_if (chain_id == 0) bad_policy
  ok (record { chain_id = chain_id; schedule = schedule })

-- `_hash`
unfoldable pub check_hash : Text → Check SyncFinalityError
check_hash value = do
  raise_if (not (length value == 66) || not (starts_with value (codes "0x"))) bad_hash
  raise_if (not (parses_hex (drop 2 value))) bad_hash

unfoldable pub unbound : FinalityProof → FinalityVote → Bool
unbound proof vote =
    not (vote.chain_id == proof.chain_id)
    || not (vote.height == proof.height)
    || not (vote.round == proof.round)
    || not (lower vote.block_hash =? lower proof.block_hash)

-- The tests of one vote in the loop, with the validators seen before.
unfoldable pub check_vote :
    (FinalityVote → Verdict)
    → FinalityProof
    → Dict Text Validator
    → List Text
    → FinalityVote
    → Check SyncFinalityError
check_vote vote_verifier proof members seen vote = do
  raise_if (is_empty vote.signature || ltb 4096 (length vote.signature)) bad_vote
  check_hash vote.block_hash
  raise_if (mem vote.validator_id seen) duplicate_validator
  raise_if (not (contains vote.validator_id members)) unknown_validator
  raise_if (unbound proof vote) unbound_vote
  raise_if (not (is_true (vote_verifier vote))) verification_failed

-- The loop: the votes accepted, after those before.
unfoldable pub accept_votes :
    (FinalityVote → Verdict)
    → FinalityProof
    → Dict Text Validator
    → List Text
    → List FinalityVote
    → List FinalityVote
    → Result SyncFinalityError (List FinalityVote)
accept_votes vote_verifier proof members seen accepted [] = ok accepted
accept_votes vote_verifier proof members seen accepted (vote ∷ votes) = do
  check_vote vote_verifier proof members seen vote
  accept_votes vote_verifier proof members (vote.validator_id ∷ seen) (accepted ++ vote ∷ []) votes

-- `sum(by_id[item.validator_id].voting_power for item in accepted)`
unfoldable pub signed_power_of :
    Dict Text Validator → List FinalityVote → Result SyncFinalityError ℕ
signed_power_of members [] = ok 0
signed_power_of members (vote ∷ votes) = do
  v ← or_raise (lookup vote.validator_id members) missing_validator
  rest ← signed_power_of members votes
  ok (v.voting_power + rest)

abbrev pub members_of : ValidatorSet → Dict Text Validator
members_of active = by_id active.validators []

module _ (platform : Platform) where
  -- The certificate that is reconstructed from the accepted votes.
  unfoldable pub certificate_of :
      ℕ → FinalityProof → ValidatorSet → List FinalityVote → ℕ → FinalityCertificate
  certificate_of chain_id proof active accepted signed =
      let ordered = sort_by (λ a b. text_leb a.validator_id b.validator_id) accepted in
      let ids = map (λ v. v.validator_id) ordered in
      let hashes = map (vote_hash platform) ordered in
      record {
        chain_id = chain_id;
        height = proof.height;
        round = proof.round;
        block_hash = lower proof.block_hash;
        signed_power = signed;
        total_power = total_power active;
        validator_ids = ids;
        vote_hashes = hashes;
        certificate_hash =
            certificate_digest platform chain_id proof.height proof.round (lower proof.block_hash)
              signed (total_power active) ids hashes;
      }

  -- The part of `verify` below the tests of the proof's identity.
  unfoldable pub verify_under :
      ℕ
      → (FinalityVote → Verdict)
      → FinalityProof
      → ValidatorSet
      → Result SyncFinalityError FinalityCertificate
  verify_under chain_id vote_verifier proof active = do
    raise_if (not (lower proof.validator_set_hash =? set_hash platform active)) wrong_set
    raise_if (ltb (length active.validators) (length proof.votes)) too_many_votes
    accepted ← accept_votes vote_verifier proof (members_of active) [] [] proof.votes
    signed ← signed_power_of (members_of active) accepted
    raise_if (ltb signed (quorum_power active)) no_quorum
    let certificate = certificate_of chain_id proof active accepted signed
    raise_if (not (certificate.certificate_hash =? lower proof.certificate_hash)) hash_mismatch
    ok certificate

  -- `CertifiedFinalityVerifier.verify`
  unfoldable pub verify_proof :
      FinalityVerifier
      → (FinalityVote → Verdict)
      → FinalityProof
      → Result SyncFinalityError FinalityCertificate
  verify_proof verifier vote_verifier proof = do
    raise_if (not (proof.chain_id == verifier.chain_id) || is_empty proof.votes) identity_mismatch
    check_hash proof.block_hash
    check_hash proof.validator_set_hash
    check_hash proof.certificate_hash
    verify_under verifier.chain_id vote_verifier proof (at_height proof.height verifier.schedule)
