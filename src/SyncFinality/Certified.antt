-- ===== src/SyncFinality/Certified.antt =====
-- sync_finality.py and finality.py: what a finality machine finalizes, `verify` accepts.
use junca_social_ecosystem_c.Common.{
  ℕ, ◌≤◌, ◌≡◌, refl, sym, ap, ◌∙◌, subst, true, false, List, [], ◌∷◌, ◌++◌, arith, ltb, ==_iff,
  length, All, All-weaken, All-both, nat_eq, list_eq, pair_eq, beq_refl, text_leb, sort_by,
  lookup-sort_by, ok, ok-injective, Verdict, lookup, contains, Entries, Text, Bytes, codes, lower,
  is_empty, Platform,
}
use junca_social_ecosystem_c.Finality.Types.{
  Validator, FinalityVote, FinalityCertificate, certificate_digest,
}
use junca_social_ecosystem_c.Finality.Machine.{
  Machine, matches, matching, quorum_power as machine_quorum, build_certificate, power_of,
}
use junca_social_ecosystem_c.Finality.Machine.Endings.{with_vote, Finalizes}
use junca_social_ecosystem_c.Finality.Machine.Safety.{Sound, by_id-length-le}
use junca_social_ecosystem_c.SyncFinality.Schedule.{
  ValidatorSet, total_power, quorum_power, set_hash, at_height,
}
use junca_social_ecosystem_c.SyncFinality.Verifier.{
  FinalityProof, FinalityVerifier, check_hash, unbound, accept_votes, signed_power_of, members_of,
  certificate_of, verify_under, verify_proof,
}
use junca_social_ecosystem_c.SyncFinality.Members.{check_set-Keyed}
use junca_social_ecosystem_c.SyncFinality.Ballots.{
  Single, Single-Fresh_nil, matching-Single, matching-All, Single-length, power_of-signed_power_of,
}
use junca_social_ecosystem_c.SyncFinality.Vetted.{Vetted, AllVetted, Passes, accept_votes_complete}

-- Documented of `hexdigest`: 64 lowercase hexadecimal digits.
pub record HexDigests (platform : Platform) : Type 0 where
  pub formed : (b : Bytes) → check_hash (codes "0x" ++ platform.sha256 b) ≡ ok tt
  pub lowered :
      (b : Bytes) → lower (codes "0x" ++ platform.sha256 b) ≡ codes "0x" ++ platform.sha256 b

-- The proof with the fields that `Carries` names.
abbrev proof_of :
    Platform → ValidatorSet → Machine → FinalityVote → FinalityCertificate → FinalityProof
proof_of platform active m vote c = record {
  chain_id = m.chain_id;
  height = vote.height;
  round = vote.round;
  block_hash = vote.block_hash;
  validator_set_hash = set_hash platform active;
  votes = matching (with_vote m vote) vote;
  certificate_hash = c.certificate_hash;
}

-- A proof that carries the votes that a machine counted, the hash of the validator set and that of
-- the machine's certificate.
pub record Carries (platform : Platform) (active : ValidatorSet) (m : Machine) (vote : FinalityVote)
    (c : FinalityCertificate) (proof : FinalityProof) : Type 0 where
  pub chain : proof.chain_id ≡ m.chain_id
  pub height : proof.height ≡ vote.height
  pub round : proof.round ≡ vote.round
  pub block_hash : proof.block_hash ≡ vote.block_hash
  pub set : proof.validator_set_hash ≡ set_hash platform active
  pub votes : proof.votes ≡ matching (with_vote m vote) vote
  pub certificate : proof.certificate_hash ≡ c.certificate_hash

Carries-same :
    (platform : Platform) (active : ValidatorSet) (m : Machine) (vote : FinalityVote)
    (c : FinalityCertificate) (proof : FinalityProof)
    → Carries platform active m vote c proof
    → proof_of platform active m vote c ≡ proof
Carries-same platform active m vote c proof k =
    rw (k.chain, k.height, k.round, k.block_hash, k.set, k.votes, k.certificate) refl

-- The machine was made for the set.
pub record Serves (m : Machine) (active : ValidatorSet) : Type 0 where
  pub members :
      m.validators ≡ sort_by (λ (a b : Text × Validator). text_leb a.0 b.0) (members_of active)
  pub power : m.total_power ≡ total_power active

module _ (platform : Platform) (digests : HexDigests platform)
    (accepts : FinalityVote → Verdict) where
  Vetted-Passes :
      (active : ValidatorSet) (m : Machine) (vote item : FinalityVote) (c : FinalityCertificate)
      → Serves m active
      → Vetted accepts m.chain_id item
      → contains item.validator_id m.validators ≡ true
      → matches vote item ≡ true
      → Passes accepts (proof_of platform active m vote c) (members_of active) item
  unfolding unbound
  Vetted-Passes active m vote item c serves v member fits = record {
    vetted = v;
    member = ground (
      arith,
      member,
      serves.members,
      lookup-sort_by (λ (a b : Text × Validator). text_leb a.0 b.0) item.validator_id
          (members_of active) (check_set-Keyed active),
    );
    bound = ground (arith, v.chain, fits, ==_iff item.chain_id m.chain_id);
  }

  ballots-Passes :
      (active : ValidatorSet) (m : Machine) (vote : FinalityVote) (c : FinalityCertificate)
      → Serves m active
      → Sound (with_vote m vote)
      → AllVetted accepts (with_vote m vote)
      → All
          (Passes accepts (proof_of platform active m vote c) (members_of active))
          (matching (with_vote m vote) vote)
  unfolding matching
  ballots-Passes active m vote c serves s a =
      let votes = (with_vote m vote).votes in
      let known = λ (v : FinalityVote).
        Vetted accepts m.chain_id v × (contains v.validator_id m.validators ≡ true) in
      let all : Entries (λ k v. known v) votes =
        All-weaken _ _ votes (λ entry h. (h.0, h.1.1)) (All-both _ _ votes a s.placed) in
      All-weaken _ _ (matching (with_vote m vote) vote)
        (λ item h. Vetted-Passes active m vote item c serves h.0.0 h.0.1 h.1)
        (matching-All known vote votes all)

  ballots-Single :
      (m : Machine) (vote : FinalityVote)
      → Sound (with_vote m vote)
      → Single (matching (with_vote m vote) vote)
  unfolding matching
  ballots-Single m vote s =
      let votes = (with_vote m vote).votes in
      matching-Single vote votes s.single (All-weaken _ _ votes (λ entry h. h.0) s.placed)

  ballots-few :
      (active : ValidatorSet) (m : Machine) (vote : FinalityVote) (c : FinalityCertificate)
      → Serves m active
      → Sound (with_vote m vote)
      → AllVetted accepts (with_vote m vote)
      → length (matching (with_vote m vote) vote) ≤ length active.validators
  ballots-few active m vote c serves s a =
      let ms = matching (with_vote m vote) vote in
      omega (
        arith,
        Single-length ms (members_of active) (ballots-Single m vote s)
            (All-weaken _ _ ms (λ item p. p.member) (ballots-Passes active m vote c serves s a)),
        by_id-length-le active.validators [],
      )

  certificate-same :
      (chain_id : ℕ) (active : ValidatorSet) (m : Machine) (vote : FinalityVote)
      (c : FinalityCertificate) (signed : ℕ)
      → m.chain_id ≡ chain_id
      → Serves m active
      → certificate_of platform chain_id
          (proof_of platform active m vote c)
          active
          (matching (with_vote m vote) vote)
          signed
        ≡ build_certificate platform
            (with_vote m vote)
            vote
            (matching (with_vote m vote) vote)
            signed
  unfolding certificate_of build_certificate
  certificate-same chain_id active m vote c signed chain serves = rw (← chain, ← serves.power) refl

  set_hash-formed :
      (active : ValidatorSet)
      → (lower (set_hash platform active) ≡ set_hash platform active)
        × (check_hash (set_hash platform active) ≡ ok tt)
  unfolding set_hash
  set_hash-formed active = (digests.lowered _, digests.formed _)

  certificate-formed :
      (m : Machine) (vote : FinalityVote) (c : FinalityCertificate)
      → Finalizes platform m vote c
      → (lower c.certificate_hash ≡ c.certificate_hash) × (check_hash c.certificate_hash ≡ ok tt)
  unfolding build_certificate certificate_digest
  certificate-formed m vote c f = rw f.built (digests.lowered _, digests.formed _)

  same_quorum :
      (active : ValidatorSet) (m : Machine) (signed : ℕ)
      → Serves m active
      → machine_quorum m ≤ signed
      → ltb signed (quorum_power active) ≡ false
  unfolding quorum_power machine_quorum
  same_quorum active m signed serves enough = ground (arith, serves.power, enough)

  -- A quorum is not empty.
  pub some_ballot :
      (m : Machine) (votes : List FinalityVote) {signed : ℕ}
      → power_of m.validators votes ≡ ok signed
      → machine_quorum m ≤ signed
      → is_empty votes ≡ false
  unfolding power_of machine_quorum
  some_ballot m [] {signed} h enough =
      let e : 0 ≡ signed = ok-injective h in absurd (omega (arith, e, enough))
  some_ballot m (vote ∷ votes) h enough = refl

  under-ok :
      (verifier : FinalityVerifier) (active : ValidatorSet) (m : Machine) (vote : FinalityVote)
      (c : FinalityCertificate)
      → m.chain_id ≡ verifier.chain_id
      → Serves m active
      → Sound (with_vote m vote)
      → AllVetted accepts (with_vote m vote)
      → Finalizes platform m vote c
      → verify_under platform verifier.chain_id accepts (proof_of platform active m vote c) active
        ≡ ok c
  unfolding verify_under
  under-ok verifier active m vote c chain serves s a f =
      let ms = matching (with_vote m vote) vote in
      let proof = proof_of platform active m vote c in
      let same : lower (set_hash platform active) ≡ set_hash platform active =
        (set_hash-formed active).0 in
      let few : ltb (length active.validators) (length ms) ≡ false =
        ground (arith, ballots-few active m vote c serves s a) in
      let accepted : accept_votes accepts proof (members_of active) [] [] ms ≡ ok ms =
        accept_votes_complete accepts proof (members_of active) [] [] ms
          (ballots-Passes active m vote c serves s a)
          (Single-Fresh_nil ms (ballots-Single m vote s)) in
      let counted : signed_power_of (members_of active) ms ≡ ok f.signed =
        power_of-signed_power_of m.validators (members_of active) ms f.signed
          (λ id.
            ap (lookup id) serves.members
            ∙ lookup-sort_by (λ (a b : Text × Validator). text_leb a.0 b.0) id (members_of active)
                (check_set-Keyed active))
          f.counted in
      let enough : ltb f.signed (quorum_power active) ≡ false =
        same_quorum active (with_vote m vote) f.signed
          (record { members = serves.members; power = serves.power }) f.quorum in
      let built : certificate_of platform verifier.chain_id proof active ms f.signed ≡ c =
        certificate-same verifier.chain_id active m vote c f.signed chain serves ∙ sym f.built in
      let digest : lower c.certificate_hash ≡ c.certificate_hash =
        (certificate-formed m vote c f).0 in
      rw
        (
          same,
          beq_refl (set_hash platform active),
          few,
          accepted,
          counted,
          enough,
          built,
          digest,
          beq_refl c.certificate_hash,
        )
        refl

  -- The same for the proof that is written out.
  verify_proof-ok :
      (verifier : FinalityVerifier) (m : Machine) (vote : FinalityVote) (c : FinalityCertificate)
      → m.chain_id ≡ verifier.chain_id
      → Serves m (at_height vote.height verifier.schedule)
      → Sound (with_vote m vote)
      → AllVetted accepts (with_vote m vote)
      → check_hash vote.block_hash ≡ ok tt
      → Finalizes platform m vote c
      → verify_proof platform verifier accepts
          (proof_of platform (at_height vote.height verifier.schedule) m vote c)
        ≡ ok c
  unfolding verify_proof
  verify_proof-ok verifier m vote c chain serves s a hash f =
      let active = at_height vote.height verifier.schedule in
      rw
        (
          (==_iff m.chain_id verifier.chain_id).1 chain,
          some_ballot (with_vote m vote) (matching (with_vote m vote) vote) f.counted f.quorum,
          hash,
          (set_hash-formed active).1,
          (certificate-formed m vote c f).1,
        )
        (under-ok verifier active m vote c chain serves s a f)

  -- Where the vote makes the machine finalize, `verify` returns the machine's certificate for
  -- every proof that carries what the machine counted.
  pub certificate_verifies :
      (verifier : FinalityVerifier) (m : Machine) (vote : FinalityVote) (c : FinalityCertificate)
      (proof : FinalityProof)
      → Carries platform (at_height vote.height verifier.schedule) m vote c proof
      → m.chain_id ≡ verifier.chain_id
      → Serves m (at_height vote.height verifier.schedule)
      → Sound (with_vote m vote)
      → AllVetted accepts (with_vote m vote)
      → check_hash vote.block_hash ≡ ok tt
      → Finalizes platform m vote c
      → verify_proof platform verifier accepts proof ≡ ok c
  certificate_verifies verifier m vote c proof carries chain serves s a hash f =
      let active = at_height vote.height verifier.schedule in
      subst (λ (p : FinalityProof). verify_proof platform verifier accepts p ≡ ok c)
        (Carries-same platform active m vote c proof carries)
        (verify_proof-ok verifier m vote c chain serves s a hash f)
