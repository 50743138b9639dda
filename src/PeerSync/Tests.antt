-- ===== src/PeerSync/Tests.antt =====
-- Imports on a node with a genesis, in concrete runs.
use junca_social_ecosystem_c.Common.{
  ℕ, ◌≡◌, refl, inl, false, none, some, [], ◌∷◌, ok, err, codes, lower, starts_with, parses_hex,
  ◌&&◌, ◌==◌, ◌=?◌, nat_eq, list_eq, ◌+◌,
}
use junca_social_ecosystem_c.Samples.{or_else, or_else-ok}
use junca_social_ecosystem_c.StateStore.Types.{StoredBlock}
use junca_social_ecosystem_c.StateStore.Store.{last_row, head}
use junca_social_ecosystem_c.StateStore.Codec.{codec, codec_loads, codec-Documented}
use junca_social_ecosystem_c.NodePipeline.Pipeline.{ExecutedProposal}
use junca_social_ecosystem_c.NodePipeline.Sample.{
  config, node, proposal, certificate, no_block, to_genesis, fresh_made, certificate-Certified,
  pool-Synced, opened,
}
use junca_social_ecosystem_c.PeerSync.Registry.{
  not_reconciled, already_active, check_hash, PeerRecord, PeerRegistry, ranks_before, select_source,
}
use junca_social_ecosystem_c.PeerSync.Journal.{begin, recover, prepared_record}
use junca_social_ecosystem_c.PeerSync.Importer.{
  World, import_finalized, after_state_commit, check_source, is_other_block,
}
use junca_social_ecosystem_c.PeerSync.Importer as Importer
use junca_social_ecosystem_c.PeerSync.Recovery.{Readable}
use junca_social_ecosystem_c.PeerSync.Aftermath.{Aftermath}
use junca_social_ecosystem_c.PeerSync.Crash.{import_recovers}
use junca_social_ecosystem_c.PeerSync.Stuck.{import_sticks}

abbrev peer_at : ℕ → PeerRecord
peer_at height = record {
  advertisement = record {
    peer_id = codes "p1";
    chain_id = 5;
    genesis_hash = proposal.parent_hash;
    finalized_height = height;
    finalized_hash = proposal.block_hash;
    protocol_version = 1;
  };
  fault_score = 0;
}

abbrev registry_at : ℕ → PeerRegistry
registry_at height = record {
  chain_id = 5;
  genesis_hash = proposal.parent_hash;
  peers = (codes "p1", peer_at height) ∷ [];
}

abbrev world_at : ℕ → World
world_at height = record {
  registry = registry_at height;
  node = node;
  journal = record { chain_id = 5; file = none };
}

abbrev parent : StoredBlock
parent = or_else no_block (head node.store)

at_parent : head node.store ≡ ok parent
unfolding opened
at_parent = or_else-ok no_block (head node.store) refl

proposal_height : proposal.height ≡ parent.height + 1
unfolding opened
proposal_height = refl

proposal_parent : proposal.parent_hash ≡ parent.block_hash
unfolding opened
proposal_parent = refl

proposal_lowered : lower proposal.block_hash ≡ proposal.block_hash
unfolding opened
proposal_lowered = refl

readable : Readable 5 (prepared_record 5 (codes "p1") proposal)
unfolding opened check_hash starts_with parses_hex
readable = record {
  chain = refl;
  peer = refl;
  positive = refl;
  parent = refl;
  block = refl;
  root = refl;
}

import_recovers_example :
    Aftermath codec codec_loads node.store proposal
      (import_finalized codec config codec_loads
        (some after_state_commit)
        (codes "p1")
        proposal
        certificate
        (world_at 1)).1
import_recovers_example =
    import_recovers codec codec_loads codec-Documented config 5 (world_at 1) fresh_made to_genesis
      (inl refl, tt) pool-Synced refl (some after_state_commit) (codes "p1") proposal certificate
      parent at_parent proposal_height proposal_parent proposal_lowered certificate-Certified
      readable

abbrev late : ExecutedProposal
late = record proposal { height = 3 }

late-Readable : Readable 5 (prepared_record 5 (codes "p1") late)
unfolding opened check_hash starts_with parses_hex
late-Readable = record {
  chain = refl;
  peer = refl;
  positive = refl;
  parent = refl;
  block = refl;
  root = refl;
}

late_source :
    select_source (Importer.height_of (last_row node.store.blocks)) (registry_at 5) ≡ ok (peer_at 5)
unfolding opened select_source ranks_before
late_source = refl

late_allowed : check_source (codes "p1") late (peer_at 5) ≡ ok tt
late_allowed = refl

late_right : is_other_block late (peer_at 5) ≡ false
late_right = refl

not_head : (parent.height == late.height && parent.block_hash =? late.block_hash) ≡ false
unfolding opened
not_head = refl

not_next : (parent.height + 1 == late.height && parent.block_hash =? late.parent_hash) ≡ false
unfolding opened
not_next = refl

import_sticks_example :
    ((import_finalized codec config codec_loads none
        (codes "p1")
        late
        certificate
        (world_at 5)).1.node
      ≡ node)
    × (recover codec codec_loads node.store
          (import_finalized codec config codec_loads none
            (codes "p1")
            late
            certificate
            (world_at 5)).1.journal
        ≡ err not_reconciled)
    × (begin codec codec_loads
          (codes "p2")
          proposal
          (import_finalized codec config codec_loads none
            (codes "p1")
            late
            certificate
            (world_at 5)).1.journal
        ≡ err already_active)
import_sticks_example =
    import_sticks codec codec_loads codec-Documented config (world_at 5) (codes "p1") late
      certificate (peer_at 5) parent refl late-Readable late_source late_allowed late_right
      at_parent not_head not_next (codes "p2") proposal refl

near_source : select_source (some 0) (registry_at 5) ≡ ok (peer_at 5)
unfolding select_source ranks_before
near_source = refl
