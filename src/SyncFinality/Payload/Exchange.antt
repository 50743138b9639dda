-- ===== src/SyncFinality/Payload/Exchange.antt =====
-- sync_finality.py and finality.py: a proof that is written as a payload and read again, and a proof
-- that carries what a finality machine has finalized.
use junca_social_ecosystem_c.Common.{
  ℕ, ◌%◌, ◌≤◌, ◌≡◌, refl, ap, ◌∙◌, sym, subst, arith, true, false, List, [], ◌∷◌, ltb, ◌==◌, length,
  All, All-weaken, All-both, Entries, IsByte, hex, from_hex-hex, length-hex, all_of-hex, nat_eq,
  list_eq, pair_eq, ok, is_empty, Verdict, find_field, field_names, to_items, Platform, ◌>>=◌,
}
use junca_social_ecosystem_c.Finality.Types.{FinalityVote, FinalityCertificate}
use junca_social_ecosystem_c.Finality.Machine.{Machine, matching}
use junca_social_ecosystem_c.Finality.Machine.Endings.{with_vote, Finalizes}
use junca_social_ecosystem_c.Finality.Machine.Safety.{Sound}
use junca_social_ecosystem_c.SyncFinality.Schedule.{at_height}
use junca_social_ecosystem_c.SyncFinality.Verifier.{
  FinalityProof, FinalityVerifier, check_hash, verify_proof,
}
use junca_social_ecosystem_c.SyncFinality.Ballots.{matching-All}
use junca_social_ecosystem_c.SyncFinality.Vetted.{AllVetted}
use junca_social_ecosystem_c.SyncFinality.Certified.{
  HexDigests, Carries, Serves, some_ballot, certificate_verifies,
}
use junca_social_ecosystem_c.SyncFinality.Payload.{
  vote_payload_json, proof_to_payload, decode_signature, decode_vote_fields, decode_vote,
  decode_votes, proof_from_fields, proof_from_payload, has_no_items,
}

-- A vote that can be sent: its signature is 1 to 4096 bytes.
pub record IsSendable (vote : FinalityVote) : Type 0 where
  pub signed : is_empty vote.signature ≡ false
  pub short : ltb 4096 (length vote.signature) ≡ false
  pub bytes : All IsByte vote.signature

decode_signature-hex :
    (vote : FinalityVote)
    → IsSendable vote
    → decode_signature (hex vote.signature) ≡ ok vote.signature
unfolding decode_signature
decode_signature-hex vote v =
    let count = length-hex vote.signature in
    let some_bytes = positive vote.signature v.signed in
    let long : ltb (length (hex vote.signature)) 2 ≡ false = ground (arith, count, some_bytes) in
    let fits : ltb 8192 (length (hex vote.signature)) ≡ false = ground (arith, count, v.short) in
    let even : (length (hex vote.signature) % 2 == 0) ≡ true = ground (arith, count) in
    rw (long, fits, even, all_of-hex vote.signature v.bytes, from_hex-hex vote.signature v.bytes)
      refl
  where
    positive : (b : List ℕ) → is_empty b ≡ false → 1 ≤ length b
    positive [] h = absurd (cc)
    positive (x ∷ b) h = omega arith

decode_votes-to_items :
    (votes : List FinalityVote)
    → All IsSendable votes
    → decode_votes (to_items vote_payload_json votes) ≡ ok votes
unfolding decode_votes decode_vote decode_vote_fields vote_payload_json find_field field_names
decode_votes-to_items [] h = refl
decode_votes-to_items (vote ∷ votes) h =
    rw (decode_signature-hex vote h.0, decode_votes-to_items votes h.1) refl

has_no_items-to_items :
    (votes : List FinalityVote) → has_no_items (to_items vote_payload_json votes) ≡ is_empty votes
has_no_items-to_items [] = refl
has_no_items-to_items (vote ∷ votes) = refl

-- What a proof with votes is sent as, is read as that proof.
proof_from_payload-proof_to_payload :
    (proof : FinalityProof)
    → is_empty proof.votes ≡ false
    → All IsSendable proof.votes
    → proof_from_payload (proof_to_payload proof) ≡ ok proof
unfolding proof_from_payload proof_from_fields proof_to_payload find_field field_names
proof_from_payload-proof_to_payload proof held sendable =
    rw (has_no_items-to_items proof.votes, held, decode_votes-to_items proof.votes sendable) refl

module _ (platform : Platform) (digests : HexDigests platform)
    (accepts : FinalityVote → Verdict) where
  ballots-IsSendable :
      (m : Machine) (vote : FinalityVote)
      → AllVetted accepts (with_vote m vote)
      → Entries (λ k v. All IsByte v.signature) (with_vote m vote).votes
      → All IsSendable (matching (with_vote m vote) vote)
  unfolding matching
  ballots-IsSendable m vote vetted bytes =
      let votes = (with_vote m vote).votes in
      let sendable : Entries (λ k v. IsSendable v) votes =
        All-weaken _ _ votes
          (λ entry h. record { signed = h.0.signed; short = h.0.short; bytes = h.1 })
          (All-both _ _ votes vetted bytes) in
      All-weaken _ _ (matching (with_vote m vote) vote) (λ v h. h.0)
        (matching-All IsSendable vote votes sendable)

  -- Take a finality machine made for the set that is active at a vote's height, sound with the
  -- vote, with its votes all tested under one verifier and their signatures bytes, and let the
  -- vote, for a well-formed block hash, make it finalize with a certificate. Then every proof
  -- with the machine's chain, the vote's height, round and block, the set's hash, the votes
  -- that the machine counted and the certificate's hash verifies under the same verifier once
  -- it has been written by `proof_to_payload` and read by `proof_from_payload`, and `verify`
  -- returns the machine's certificate, provided that digests have the form of `hexdigest`.
  pub payload_verifies :
      (verifier : FinalityVerifier) (m : Machine) (vote : FinalityVote) (c : FinalityCertificate)
      (proof : FinalityProof)
      → Carries platform (at_height vote.height verifier.schedule) m vote c proof
      → m.chain_id ≡ verifier.chain_id
      → Serves m (at_height vote.height verifier.schedule)
      → Sound (with_vote m vote)
      → AllVetted accepts (with_vote m vote)
      → Entries (λ k v. All IsByte v.signature) (with_vote m vote).votes
      → check_hash vote.block_hash ≡ ok tt
      → Finalizes platform m vote c
      → (proof_from_payload (proof_to_payload proof) >>= verify_proof platform verifier accepts)
        ≡ ok c
  payload_verifies verifier m vote c proof carries chain serves sound vetted bytes hash f =
      let counted = carries.votes in
      let held =
        some_ballot platform digests accepts (with_vote m vote) (matching (with_vote m vote) vote)
          f.counted f.quorum in
      let read =
        proof_from_payload-proof_to_payload proof
          (ap (λ (l : List FinalityVote). is_empty l) counted ∙ held)
          (subst (All IsSendable) (sym counted) (ballots-IsSendable m vote vetted bytes)) in
      rw read (
        certificate_verifies platform digests accepts verifier m vote c proof carries chain serves
          sound vetted hash f)
