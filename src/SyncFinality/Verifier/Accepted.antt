-- ===== src/SyncFinality/Verifier/Accepted.antt =====
-- sync_finality.py, the loop of `verify`: what is known of the votes of a proof that verifies.
use junca_social_ecosystem_c.Common.{
  ℕ, ◌≤◌, ◌≡◌, sym, ap, ◌∙◌, true, false, not, List, [], ◌∷◌, ◌++◌, arith, append_assoc, append-nil,
  ltb, length, All, nat_eq, list_eq, ◌=?◌, text_iff, mem, ok, >>=-eq-ok, >>-eq-ok, raise_if,
  ok-injective, subst, Verdict, is_true, Dict, contains, Text, lower, Platform,
}
use junca_social_ecosystem_c.Finality.Types.{Validator, FinalityVote, FinalityCertificate}
use junca_social_ecosystem_c.SyncFinality.Schedule.{
  ValidatorSet, quorum_power, set_hash, at_height, too_many_votes, wrong_set, no_quorum,
  hash_mismatch,
}
use junca_social_ecosystem_c.SyncFinality.Verifier.{
  FinalityProof, FinalityVerifier, members_of, check_vote, accept_votes, signed_power_of,
  certificate_of, verify_under, verify_proof, unbound, check_hash,
}

-- A vote that the loop lets pass.
pub record Bound (vote_verifier : FinalityVote → Verdict) (proof : FinalityProof)
    (members : Dict Text Validator) (vote : FinalityVote) : Type 0 where
  pub member : contains vote.validator_id members ≡ true
  pub chain : vote.chain_id ≡ proof.chain_id
  pub same_height : vote.height ≡ proof.height
  pub same_round : vote.round ≡ proof.round
  pub same_block : lower vote.block_hash ≡ lower proof.block_hash
  pub verified : is_true (vote_verifier vote) ≡ true

-- None of the votes is from a validator seen before, and no two are from one.
abbrev pub Fresh : List Text → List FinalityVote → Type 0
Fresh seen [] = Unit
Fresh seen (vote ∷ votes) =
    (mem vote.validator_id seen ≡ false) × Fresh (vote.validator_id ∷ seen) votes

check_vote-Bound :
    (vote_verifier : FinalityVote → Verdict) (proof : FinalityProof) (members : Dict Text Validator)
    (seen : List Text) (vote : FinalityVote)
    → check_vote vote_verifier proof members seen vote ≡ ok tt
    → Bound vote_verifier proof members vote × (mem vote.validator_id seen ≡ false)
unfolding check_vote unbound check_hash
check_vote-Bound vote_verifier proof members seen vote h = (
  record {
    member = ground arith;
    chain = ground arith;
    same_height = ground arith;
    same_round = ground arith;
    same_block = ground (arith, text_iff (lower vote.block_hash) (lower proof.block_hash));
    verified = ground arith;
  },
  ground arith,
)

-- The loop accepts every vote, in order.
pub accept_votes-ok :
    (vote_verifier : FinalityVote → Verdict) (proof : FinalityProof) (members : Dict Text Validator)
    (seen : List Text) (accepted votes : List FinalityVote) {result : List FinalityVote}
    → accept_votes vote_verifier proof members seen accepted votes ≡ ok result
    → (result ≡ accepted ++ votes)
      × All (Bound vote_verifier proof members) votes
      × Fresh seen votes
unfolding accept_votes
accept_votes-ok vote_verifier proof members seen accepted [] h =
    (sym (ok-injective h) ∙ sym (append-nil accepted), tt, tt)
accept_votes-ok vote_verifier proof members seen accepted (vote ∷ votes) {result} h =
    let (checked, rest) = >>-eq-ok (check_vote vote_verifier proof members seen vote) _ h in
    let (bound, fresh) = check_vote-Bound vote_verifier proof members seen vote checked in
    let (all, bounds, others) =
      accept_votes-ok vote_verifier proof members (vote.validator_id ∷ seen) (accepted ++ vote ∷ [])
        votes rest in
    (all ∙ append_assoc accepted (vote ∷ []) votes, (bound, bounds), (fresh, others))

module _ (platform : Platform) where
  -- What is known of a proof that verifies.
  pub record Verified (verifier : FinalityVerifier) (vote_verifier : FinalityVote → Verdict)
      (proof : FinalityProof) (c : FinalityCertificate) : Type 0 where
    pub signed : ℕ
    pub chain : proof.chain_id ≡ verifier.chain_id
    pub set :
        lower proof.validator_set_hash
        ≡ set_hash platform (at_height proof.height verifier.schedule)
    pub bound :
        All
          (Bound vote_verifier proof (members_of (at_height proof.height verifier.schedule)))
          proof.votes
    pub fresh : Fresh [] proof.votes
    pub counted :
        signed_power_of (members_of (at_height proof.height verifier.schedule)) proof.votes
        ≡ ok signed
    pub quorum : quorum_power (at_height proof.height verifier.schedule) ≤ signed
    pub certificate :
        c
        ≡ certificate_of platform verifier.chain_id proof
            (at_height proof.height verifier.schedule)
            proof.votes
            signed
    pub digest : c.certificate_hash ≡ lower proof.certificate_hash

  verify_under-Verified :
      (chain_id : ℕ) (vote_verifier : FinalityVote → Verdict) (proof : FinalityProof)
      (active : ValidatorSet) {c : FinalityCertificate}
      → verify_under platform chain_id vote_verifier proof active ≡ ok c
      → (signed : ℕ) × (lower proof.validator_set_hash ≡ set_hash platform active)
        × All (Bound vote_verifier proof (members_of active)) proof.votes
        × Fresh [] proof.votes
        × (signed_power_of (members_of active) proof.votes ≡ ok signed)
        × (quorum_power active ≤ signed)
        × (c ≡ certificate_of platform chain_id proof active proof.votes signed)
        × (c.certificate_hash ≡ lower proof.certificate_hash)
  unfolding verify_under
  verify_under-Verified chain_id vote_verifier proof active {c} h =
      let (at_set, h1) =
        >>-eq-ok
          (raise_if (not (lower proof.validator_set_hash =? set_hash platform active)) wrong_set) _
          h in
      let (few, h2) =
        >>-eq-ok (raise_if (ltb (length active.validators) (length proof.votes)) too_many_votes) _
          h1 in
      let (accepted, loop, h3) =
        >>=-eq-ok (accept_votes vote_verifier proof (members_of active) [] [] proof.votes) _ h2 in
      let (all, bounds, fresh) =
        accept_votes-ok vote_verifier proof (members_of active) [] [] proof.votes loop in
      let (signed, power, h4) = >>=-eq-ok (signed_power_of (members_of active) accepted) _ h3 in
      let e : signed_power_of (members_of active) proof.votes ≡ ok signed =
        subst (λ (vs : List FinalityVote). signed_power_of (members_of active) vs ≡ ok signed) all
          power in
      let certificate = certificate_of platform chain_id proof active accepted signed in
      let (enough, h5) = >>-eq-ok (raise_if (ltb signed (quorum_power active)) no_quorum) _ h4 in
      let (digest, h6) =
        >>-eq-ok
          (raise_if (not (certificate.certificate_hash =? lower proof.certificate_hash))
            hash_mismatch)
          _ h5 in
      let same : c ≡ certificate = sym (ok-injective h6) in
      (
        signed,
        ground (arith, text_iff (lower proof.validator_set_hash) (set_hash platform active)),
        bounds,
        fresh,
        e,
        ground arith,
        same
            ∙ ap
                (λ (vs : List FinalityVote).
                  certificate_of platform chain_id proof active vs signed)
                all,
        rw same
            (ground (arith, text_iff certificate.certificate_hash (lower proof.certificate_hash))),
      )

  pub verify_proof-Verified :
      (verifier : FinalityVerifier) (vote_verifier : FinalityVote → Verdict) (proof : FinalityProof)
      {c : FinalityCertificate}
      → verify_proof platform verifier vote_verifier proof ≡ ok c
      → Verified verifier vote_verifier proof c
  unfolding verify_proof
  verify_proof-Verified verifier vote_verifier proof {c} h =
      let active = at_height proof.height verifier.schedule in
      let under : verify_under platform verifier.chain_id vote_verifier proof active ≡ ok c =
        ground arith in
      let (signed, set, bound, fresh, counted, quorum, certificate, digest) =
        verify_under-Verified verifier.chain_id vote_verifier proof active under in
      record {
        signed = signed;
        chain = ground arith;
        set = set;
        bound = bound;
        fresh = fresh;
        counted = counted;
        quorum = quorum;
        certificate = certificate;
        digest = digest;
      }
