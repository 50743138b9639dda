-- ===== src/NodePipeline/RestartTests.antt =====
-- Three validators finalize the block that a node has proposed, and the node reads the certificate
-- back, in a concrete run.
use junca_social_ecosystem_c.Common.{
  ◌≡◌, refl, arith, inl, true, some, List, [], ◌∷◌, nat_eq, list_eq, pair_eq, ok, Verdict, returned,
  codes, pos, Text,
}
use junca_social_ecosystem_c.Samples.{or_else, or_else-ok}
use junca_social_ecosystem_c.Finality.Types.{
  Validator, FinalityVote, FinalityCertificate, vote_hash, certificate_digest, validate_block_hash,
}
use junca_social_ecosystem_c.Finality.Machine.{
  Machine, by_id, make_machine, fresh_machine, validate_vote, max_key, latest_of, matching,
  power_of, quorum_power, build_certificate, finalize, tally, certificate_if_finalized, count_vote,
  vote_at, add_vote,
}
use junca_social_ecosystem_c.Finality.Machine.Endings.{with_vote, Finalizes}
use junca_social_ecosystem_c.Finality.Machine.Safety.{
  Sound, with_vote-Sound, add_vote-Sound, make_machine-Sound,
}
use junca_social_ecosystem_c.StateStore.Types.{StoredBlock, receipts_json, receipt_json}
use junca_social_ecosystem_c.StateStore.Store.{
  Store, Call, check_commit, write_block, commit_finalized_block, certificate_json,
}
use junca_social_ecosystem_c.StateStore.Codec.{codec, codec_loads, codec-Documented}
use junca_social_ecosystem_c.StateStore.Certificate.{latest_finality_certificate}
use junca_social_ecosystem_c.StateStore.Certificate.Decode.{Readable}
use junca_social_ecosystem_c.StateStore.Certificate.Bound.{
  Binds, latest_finality_certificate-Readable,
}
use junca_social_ecosystem_c.StateStore.Certificate.Issued.{Named}
use junca_social_ecosystem_c.StateStore.Certificate.Recovery.{finalized_certificate_recovered}
use junca_social_ecosystem_c.NodePipeline.Pipeline.{commit_of}
use junca_social_ecosystem_c.NodePipeline.Sample.{
  node, proposal, to_genesis, fresh_made, opened, no_block,
}

opened_machine : Unit {0}
unfolding opened by_id make_machine validate_vote max_key latest_of matching power_of quorum_power
    build_certificate finalize tally certificate_if_finalized count_vote vote_at add_vote
    validate_block_hash vote_hash certificate_digest
opened_machine = tt

opened_commit : Unit {0}
unfolding opened_machine check_commit write_block commit_finalized_block certificate_json
    receipts_json receipt_json
opened_commit = tt

abbrev members : List Validator
members =
    record { validator_id = codes "v1"; voting_power = 1 }
    ∷ record { validator_id = codes "v2"; voting_power = 1 }
    ∷ record { validator_id = codes "v3"; voting_power = 1 }
    ∷ []

abbrev vote_of : Text → FinalityVote
vote_of id = record {
  chain_id = 5;
  height = 1;
  round = 0;
  block_hash = proposal.block_hash;
  validator_id = id;
  signature = 1 ∷ [];
}

abbrev verified : FinalityVote → Verdict
verified vote = returned true

abbrev machine : Machine
machine = fresh_machine 5 members (pos 0)

machine_made : make_machine 5 members (pos 0) ≡ ok machine
unfolding opened_machine
machine_made = refl

abbrev after_one : Machine
after_one = (add_vote codec verified (vote_of (codes "v2")) machine).1

abbrev after_two : Machine
after_two = (add_vote codec verified (vote_of (codes "v1")) after_one).1

abbrev last_vote : FinalityVote
last_vote = vote_of (codes "v3")

after_two-Sound : Sound after_two
after_two-Sound = add_vote-Sound codec verified (vote_of (codes "v1")) after_one (
    add_vote-Sound codec verified (vote_of (codes "v2")) machine
      (make_machine-Sound 5 members (pos 0) machine_made))

last_vote-Sound : Sound (with_vote after_two last_vote)
unfolding opened_machine
last_vote-Sound = with_vote-Sound after_two last_vote refl after_two-Sound

after_two-Named : Named after_two
unfolding opened_machine
after_two-Named = (refl, (refl, (refl, tt)))

abbrev issued : FinalityCertificate
issued =
    build_certificate codec (with_vote after_two last_vote) last_vote
      (matching (with_vote after_two last_vote) last_vote) 3

last_vote-Finalizes : Finalizes codec after_two last_vote issued
unfolding opened_machine
last_vote-Finalizes = record {
  signed = 3;
  counted = refl;
  quorum = omega arith;
  built = refl;
  contiguous = refl;
}

abbrev commit_call : Call
commit_call = commit_finalized_block codec (commit_of proposal issued) node.store

abbrev committed : StoredBlock × Store
committed = or_else (no_block, node.store) commit_call

commit_ran : commit_call ≡ ok committed
unfolding opened_commit
commit_ran = or_else-ok (no_block, node.store) commit_call refl

finalized_certificate_recovered_example :
    latest_finality_certificate codec codec_loads committed.1 ≡ ok (some issued)
unfolding opened
finalized_certificate_recovered_example =
    finalized_certificate_recovered codec codec_loads codec-Documented 5 fresh_made to_genesis
      (inl refl, tt) after_two last_vote last_vote-Sound after_two-Named (commit_of proposal issued)
      refl last_vote-Finalizes commit_ran

read_back : latest_finality_certificate codec codec_loads committed.1 ≡ ok (some issued)
unfolding opened
read_back =
    finalized_certificate_recovered codec codec_loads codec-Documented 5 fresh_made to_genesis
      (inl refl, tt) after_two last_vote last_vote-Sound after_two-Named (commit_of proposal issued)
      refl last_vote-Finalizes commit_ran

latest_finality_certificate-Readable_example : Readable codec issued × Binds committed.1 issued
latest_finality_certificate-Readable_example =
    latest_finality_certificate-Readable codec codec_loads committed.1 read_back
