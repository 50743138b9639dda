-- ===== src/SyncFinality/Tests.antt =====
-- A proof of three votes is verified against a schedule of two sets; the theorems at these runs.
use junca_social_ecosystem_c.Common.{
  Entries, All, IsByte, ◌>>=◌, pos, pair_eq, Platform, ◌*◌, ◌<◌, ◌≡◌, refl, true, ◌&&◌, [], ◌∷◌,
  arith, ok, Verdict, returned, nat_eq, list_eq, codes, lower, starts_with, parses_hex, Text,
}
use junca_social_ecosystem_c.Samples.{sample_dumps, sample_hash}
use junca_social_ecosystem_c.Finality.Types.{
  validate_block_hash, FinalityVote, FinalityCertificate, vote_hash, certificate_digest,
}
use junca_social_ecosystem_c.Finality.Machine.{
  Machine, by_id, make_machine, fresh_machine, validate_vote, max_key, latest_of, matching,
  power_of, quorum_power as machine_quorum, build_certificate, finalize, tally,
  certificate_if_finalized, count_vote, vote_at, add_vote,
}
use junca_social_ecosystem_c.Finality.Machine.Endings.{with_vote, Finalizes}
use junca_social_ecosystem_c.Finality.Machine.Safety.{
  Sound, with_vote-Sound, add_vote-Sound, make_machine-Sound,
}
use junca_social_ecosystem_c.Finality.Machine.Quorum.{power_where}
use junca_social_ecosystem_c.SyncFinality.Schedule.{
  ValidatorSet, Schedule, set_of, check_set, total_power, quorum_power, set_hash, make_schedule,
  register, register_all, last_from, active_from, at_height,
}
use junca_social_ecosystem_c.SyncFinality.Verifier.{
  FinalityProof, FinalityVerifier, check_hash, unbound, check_vote, accept_votes, signed_power_of,
  certificate_of, verify_under, verify_proof, members_of,
}
use junca_social_ecosystem_c.SyncFinality.Verifier.Overlap.{signed_by, verified_overlap}
use junca_social_ecosystem_c.SyncFinality.Certified.{HexDigests, Carries, Serves}
use junca_social_ecosystem_c.SyncFinality.Payload.{proof_to_payload, proof_from_payload}
use junca_social_ecosystem_c.SyncFinality.Payload.Exchange.{payload_verifies}
use junca_social_ecosystem_c.SyncFinality.Vetted.{
  AllVetted, with_vote-AllVetted, add_vote-AllVetted,
}

opened : Unit {0}
unfolding by_id set_of check_set total_power quorum_power set_hash make_schedule register
    register_all last_from active_from at_height check_hash unbound check_vote accept_votes
    signed_power_of certificate_of verify_under verify_proof starts_with parses_hex lower vote_hash
    certificate_digest sample_dumps
opened = tt

opened_machine : Unit {0}
unfolding opened make_machine validate_vote max_key latest_of matching power_of machine_quorum
    build_certificate finalize tally certificate_if_finalized count_vote vote_at add_vote
    validate_block_hash
opened_machine = tt

abbrev first_set : ValidatorSet
first_set = record {
  epoch = 0;
  activation_height = 0;
  validators =
      record { validator_id = codes "v1"; voting_power = 1 }
      ∷ record { validator_id = codes "v2"; voting_power = 1 }
      ∷ record { validator_id = codes "v3"; voting_power = 1 }
      ∷ [];
}

abbrev second_set : ValidatorSet
second_set = record first_set { epoch = 1; activation_height = 10 }

abbrev schedule : Schedule
schedule = record { initial = first_set; later = [] }

-- The stand-in digests have no 64 digits, so a platform with digests of a fixed form is used.
abbrev digests : Platform
digests = record {
  dumps = sample_dumps;
  sha256 = λ b. codes "00000000000000000000000000000000000000000000000000000000000000c3";
}

abbrev verifier : FinalityVerifier
verifier = record { chain_id = 7; schedule = schedule }

abbrev vote_of : Text → FinalityVote
vote_of id = record {
  chain_id = 7;
  height = 4;
  round = 0;
  block_hash = sample_hash;
  validator_id = id;
  signature = 1 ∷ [];
}

abbrev proof : FinalityProof
proof = record {
  chain_id = 7;
  height = 4;
  round = 0;
  block_hash = sample_hash;
  validator_set_hash = sample_hash;
  votes = vote_of (codes "v2") ∷ vote_of (codes "v1") ∷ vote_of (codes "v3") ∷ [];
  certificate_hash = sample_hash;
}

abbrev accepts : FinalityVote → Verdict
accepts vote = returned true

abbrev certificate : FinalityCertificate
certificate = certificate_of digests 7 proof first_set proof.votes 3

verified : verify_proof digests verifier accepts proof ≡ ok certificate
unfolding opened
verified = refl

checked : check_set (at_height 4 schedule) ≡ ok tt
unfolding opened
checked = refl

verified_overlap_example :
    total_power (at_height 4 schedule)
    < 3
      * power_where
          (λ id. signed_by proof.votes id && signed_by proof.votes id)
          (members_of (at_height 4 schedule))
verified_overlap_example =
    verified_overlap digests verifier accepts accepts proof proof certificate certificate checked
      verified verified refl

two_sets : register_all (second_set ∷ []) schedule ≡ record schedule { later = second_set ∷ [] }
unfolding opened
two_sets = refl

digests-HexDigests : HexDigests digests
unfolding opened
digests-HexDigests = record { formed = λ b. refl; lowered = λ b. refl }

abbrev machine : Machine
machine = fresh_machine 7 first_set.validators (pos 3)

abbrev after_two : Machine
after_two =
    (add_vote digests accepts (vote_of (codes "v1"))
      (add_vote digests accepts (vote_of (codes "v2")) machine).1).1

abbrev last_vote : FinalityVote
last_vote = vote_of (codes "v3")

machine_made : make_machine 7 first_set.validators (pos 3) ≡ ok machine
unfolding opened_machine
machine_made = refl

after_two-Sound : Sound after_two
after_two-Sound =
    add_vote-Sound digests accepts (vote_of (codes "v1"))
      (add_vote digests accepts (vote_of (codes "v2")) machine).1
      (add_vote-Sound digests accepts (vote_of (codes "v2")) machine
        (make_machine-Sound 7 first_set.validators (pos 3) machine_made))

after_two-AllVetted : AllVetted accepts after_two
after_two-AllVetted =
    add_vote-AllVetted digests accepts (add_vote digests accepts (vote_of (codes "v2")) machine).1
      (vote_of (codes "v1")) (add_vote-AllVetted digests accepts machine (vote_of (codes "v2")) tt)

abbrev machine_certificate : FinalityCertificate
machine_certificate =
    build_certificate digests (with_vote after_two last_vote) last_vote
      (matching (with_vote after_two last_vote) last_vote) 3

last_vote-Finalizes : Finalizes digests after_two last_vote machine_certificate
unfolding opened_machine
last_vote-Finalizes = record {
  signed = 3;
  counted = refl;
  quorum = omega arith;
  built = refl;
  contiguous = refl;
}

last_vote-Sound : Sound (with_vote after_two last_vote)
unfolding opened_machine
last_vote-Sound = with_vote-Sound after_two last_vote refl after_two-Sound

last_vote-AllVetted : AllVetted accepts (with_vote after_two last_vote)
unfolding opened_machine
last_vote-AllVetted = with_vote-AllVetted accepts after_two last_vote refl after_two-AllVetted

after_two-Serves : Serves after_two (at_height 4 schedule)
unfolding opened_machine
after_two-Serves = record { members = refl; power = refl }

last_vote-Bytes : Entries (λ k v. All IsByte v.signature) (with_vote after_two last_vote).votes
unfolding opened_machine
last_vote-Bytes = ((omega arith, tt), ((omega arith, tt), ((omega arith, tt), tt)))

abbrev carrier : FinalityProof
carrier = record {
  chain_id = verifier.chain_id;
  height = 4;
  round = last_vote.round;
  block_hash = last_vote.block_hash;
  validator_set_hash = set_hash digests (at_height 4 schedule);
  votes = matching (with_vote after_two last_vote) last_vote;
  certificate_hash = machine_certificate.certificate_hash;
}

carrier-Carries :
    Carries digests (at_height 4 schedule) after_two last_vote machine_certificate carrier
unfolding opened_machine
carrier-Carries = record {
  chain = refl;
  height = refl;
  round = refl;
  block_hash = refl;
  set = refl;
  votes = refl;
  certificate = refl;
}

payload_verifies_example :
    (proof_from_payload (proof_to_payload carrier) >>= verify_proof digests verifier accepts)
    ≡ ok machine_certificate
unfolding opened_machine
payload_verifies_example =
    payload_verifies digests digests-HexDigests accepts verifier after_two last_vote
      machine_certificate carrier carrier-Carries refl after_two-Serves last_vote-Sound
      last_vote-AllVetted last_vote-Bytes refl last_vote-Finalizes
