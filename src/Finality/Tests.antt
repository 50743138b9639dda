-- ===== src/Finality/Tests.antt =====
-- Three validators of equal power finalize a block; the theorems at these runs.
use junca_social_ecosystem_c.Common.{
  ◌*◌, ◌<◌, ◌≡◌, refl, true, ◌&&◌, some, List, [], ◌∷◌, arith, ok, Verdict, returned, nat_eq, codes,
  lower, starts_with, parses_hex, negsuc, Text,
}
use junca_social_ecosystem_c.Samples.{sample_platform, sample_dumps, sample_hash}
use junca_social_ecosystem_c.Finality.Types.{
  Validator, FinalityVote, FinalityCertificate, vote_hash, certificate_digest, validate_block_hash,
}
use junca_social_ecosystem_c.Finality.Machine.{
  Machine, by_id, make_machine, fresh_machine, validate_vote, max_key, latest_of, matching,
  power_of, quorum_power, build_certificate, finalize, tally, certificate_if_finalized, count_vote,
  vote_at, add_vote,
}
use junca_social_ecosystem_c.Finality.Machine.Endings.{with_vote, Finalizes}
use junca_social_ecosystem_c.Finality.Machine.Safety.{
  Extends, add_vote-Extends, Sound, with_vote-Sound, add_vote-Sound, make_machine-Sound,
}
use junca_social_ecosystem_c.Finality.Machine.Quorum.{voted_for, power_where, quorum_overlap}

opened : Unit {0}
unfolding by_id make_machine validate_vote max_key latest_of matching power_of quorum_power
    build_certificate finalize tally certificate_if_finalized count_vote vote_at add_vote
    validate_block_hash starts_with parses_hex lower vote_hash certificate_digest sample_dumps
opened = tt

abbrev members : List Validator
members =
    record { validator_id = codes "v1"; voting_power = 1 }
    ∷ record { validator_id = codes "v2"; voting_power = 1 }
    ∷ record { validator_id = codes "v3"; voting_power = 1 }
    ∷ []

abbrev vote_of : Text → FinalityVote
vote_of id = record {
  chain_id = 7;
  height = 0;
  round = 0;
  block_hash = sample_hash;
  validator_id = id;
  signature = 1 ∷ [];
}

abbrev verified : FinalityVote → Verdict
verified vote = returned true

abbrev genesis : Machine
genesis = fresh_machine 7 members (negsuc 0)

genesis_made : make_machine 7 members (negsuc 0) ≡ ok genesis
unfolding opened
genesis_made = refl

abbrev after_one : Machine
after_one = (add_vote sample_platform verified (vote_of (codes "v1")) genesis).1

abbrev after_two : Machine
after_two = (add_vote sample_platform verified (vote_of (codes "v2")) after_one).1

abbrev last_vote : FinalityVote
last_vote = vote_of (codes "v3")

abbrev certificate : FinalityCertificate
certificate =
    build_certificate sample_platform (with_vote after_two last_vote) last_vote
      (matching (with_vote after_two last_vote) last_vote) 3

finalized : (add_vote sample_platform verified last_vote after_two).0 ≡ ok (some certificate)
unfolding opened
finalized = refl

genesis-Sound : Sound genesis
genesis-Sound = make_machine-Sound 7 members (negsuc 0) genesis_made

after_two-Sound : Sound after_two
after_two-Sound =
    add_vote-Sound sample_platform verified (vote_of (codes "v2")) after_one
      (add_vote-Sound sample_platform verified (vote_of (codes "v1")) genesis genesis-Sound)

add_vote-Sound_example : Sound (add_vote sample_platform verified last_vote after_two).1
add_vote-Sound_example = add_vote-Sound sample_platform verified last_vote after_two after_two-Sound

add_vote-Extends_example :
    Extends after_two (add_vote sample_platform verified last_vote after_two).1
add_vote-Extends_example = add_vote-Extends sample_platform verified last_vote after_two

last_vote-Finalizes : Finalizes sample_platform after_two last_vote certificate
unfolding opened
last_vote-Finalizes = record {
  signed = 3;
  counted = refl;
  quorum = omega arith;
  built = refl;
  contiguous = refl;
}

last_vote-Sound : Sound (with_vote after_two last_vote)
unfolding opened
last_vote-Sound = with_vote-Sound after_two last_vote refl after_two-Sound

quorum_overlap_example :
    after_two.total_power
    < 3
      * power_where
          (λ id.
            voted_for last_vote (with_vote after_two last_vote).votes id
            && voted_for last_vote (with_vote after_two last_vote).votes id)
          after_two.validators
quorum_overlap_example =
    quorum_overlap sample_platform after_two after_two last_vote last_vote certificate certificate
      last_vote-Sound last_vote-Sound refl last_vote-Finalizes last_vote-Finalizes
