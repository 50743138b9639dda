-- ===== src/PeerSync/Stuck.antt =====
-- peer_sync.py: an import of a block that does not follow the head.
use junca_social_ecosystem_c.Common.{
  ◌+◌, ◌≡◌, refl, sym, subst, inl, inr, arith, true, false, not, ◌&&◌, ◌||◌, none, ◌==◌, nat_eq,
  list_eq, ◌=?◌, text_iff, ok, err, Result-cases, Text, Platform,
}
use junca_social_ecosystem_c.Finality.Types.{FinalityCertificate}
use junca_social_ecosystem_c.ProtocolKernel.Types.{ProtocolConfig}
use junca_social_ecosystem_c.StateStore.Types.{StoredBlock, Loads}
use junca_social_ecosystem_c.StateStore.Store.{Store, last_row, head}
use junca_social_ecosystem_c.StateStore.Accounts.{Documented}
use junca_social_ecosystem_c.NodePipeline.Pipeline.{
  not_on_head, ExecutedProposal, Node, check_proposal, commit_finalized,
}
use junca_social_ecosystem_c.PeerSync.Registry.{
  PeerSyncError, not_reconciled, already_active, pipeline_error, PeerRecord, is_bad_peer,
  record_fault, select_source,
}
use junca_social_ecosystem_c.PeerSync.Journal.{Journal, write, prepared_record, begin, recover}
use junca_social_ecosystem_c.PeerSync.Importer.{
  World, height_of, blame, undo_import, after_pipeline, commit_import, begin_import, check_source,
  is_other_block, import_from, import_finalized,
}
use junca_social_ecosystem_c.PeerSync.Recovery.{Readable, recover_stuck, begin_active, begin_free}

blame-keeps :
    (peer_id : Text) (e : PeerSyncError) (w : World)
    → ((blame peer_id e w).1.node ≡ w.node) × ((blame peer_id e w).1.journal ≡ w.journal)
unfolding blame
blame-keeps peer_id e w = elim (Result-cases (record_fault peer_id w.registry)) [
  | inr (f, unknown) ↦ rw (blame, unknown) (refl, refl)
  | inl (updated, known) ↦ rw (blame, known) (refl, refl)
]

module _ (platform : Platform) (loads : Loads) (config : ProtocolConfig) where
  check_proposal-refused :
      (proposal : ExecutedProposal) (certificate : FinalityCertificate) (s : Store)
      {block : StoredBlock}
      → head s ≡ ok block
      → (block.height + 1 == proposal.height && block.block_hash =? proposal.parent_hash) ≡ false
      → check_proposal platform config proposal certificate s ≡ err not_on_head
  unfolding check_proposal
  check_proposal-refused proposal certificate s {block} at_head apart =
      let refused : (not (proposal.height == block.height + 1)
            || not (proposal.parent_hash =? block.block_hash))
          ≡ true =
        ground (
          arith,
          text_iff proposal.parent_hash block.block_hash,
          text_iff block.block_hash proposal.parent_hash,
        ) in
      rw at_head (rw refused refl)

  commit_finalized-refused :
      (proposal : ExecutedProposal) (certificate : FinalityCertificate) (node : Node)
      {block : StoredBlock}
      → head node.store ≡ ok block
      → (block.height + 1 == proposal.height && block.block_hash =? proposal.parent_hash) ≡ false
      → commit_finalized platform config proposal certificate node ≡ (err not_on_head, node)
  unfolding commit_finalized
  commit_finalized-refused proposal certificate node at_head apart =
      rw (commit_finalized, check_proposal-refused proposal certificate node.store at_head apart)
        refl

  commit_import-stuck :
      (peer_id : Text) (proposal : ExecutedProposal) (certificate : FinalityCertificate) (w : World)
      {block : StoredBlock}
      → head w.node.store ≡ ok block
      → (block.height + 1 == proposal.height && block.block_hash =? proposal.parent_hash) ≡ false
      → ((commit_import platform config loads none peer_id proposal certificate w).1.node ≡ w.node)
        × ((commit_import platform config loads none peer_id proposal certificate w).1.journal
            ≡ w.journal)
  unfolding commit_import after_pipeline undo_import
  commit_import-stuck peer_id proposal certificate w at_head apart =
      rw (commit_import, commit_finalized-refused proposal certificate w.node at_head apart)
        (rw (undo_import, at_head) (rw apart (blame-keeps peer_id (pipeline_error not_on_head) w)))

module _ (platform : Platform) (loads : Loads) (law : Documented platform loads)
    (config : ProtocolConfig) where
  -- Take an import from the selected peer, at whose height the peer names no other block, with
  -- a journal without a record and well-formed values. If the proposal is neither the head nor
  -- follows it, the node is as before, and the record stays: `recover` raises that the journal
  -- does not reconcile, and `begin` raises for every further peer and proposal that a record is
  -- active.
  pub import_sticks :
      (w : World) (peer_id : Text) (proposal : ExecutedProposal) (certificate : FinalityCertificate)
      (selected : PeerRecord) (block : StoredBlock)
      → w.journal.file ≡ none
      → Readable w.journal.chain_id (prepared_record w.journal.chain_id peer_id proposal)
      → select_source (height_of (last_row w.node.store.blocks)) w.registry ≡ ok selected
      → check_source peer_id proposal selected ≡ ok tt
      → is_other_block proposal selected ≡ false
      → head w.node.store ≡ ok block
      → (block.height == proposal.height && block.block_hash =? proposal.block_hash) ≡ false
      → (block.height + 1 == proposal.height && block.block_hash =? proposal.parent_hash) ≡ false
      → (next_peer : Text) (next : ExecutedProposal) → is_bad_peer next_peer ≡ false
      → ((import_finalized platform config loads none peer_id proposal certificate w).1.node
          ≡ w.node)
        × (recover platform loads w.node.store
              (import_finalized platform config loads none peer_id proposal certificate w).1.journal
            ≡ err not_reconciled)
        × (begin platform loads next_peer next
              (import_finalized platform config loads none peer_id proposal certificate w).1.journal
            ≡ err already_active)
  unfolding import_finalized import_from begin_import
  import_sticks w peer_id proposal certificate selected block free readable found allowed right
        at_head other apart next_peer next named =
      let r = prepared_record w.journal.chain_id peer_id proposal in
      let opened = write platform r w.journal in
      let (same_node, same_journal) =
        commit_import-stuck platform loads config peer_id proposal certificate
          (record w { journal = opened }) at_head apart in
      rw (import_finalized, found)
        (rw (import_from, allowed)
          (rw right (
            rw
              (
                begin_import,
                begin_free platform loads law w.journal peer_id proposal free readable.peer,
              )
              (
                same_node,
                subst (λ (j : Journal). recover platform loads w.node.store j ≡ err not_reconciled)
                    (sym same_journal)
                    (recover_stuck platform loads law w.node.store w.journal r readable at_head
                      other apart),
                subst (λ (j : Journal). begin platform loads next_peer next j ≡ err already_active)
                    (sym same_journal)
                    (begin_active platform loads law w.journal r next_peer next readable named),
              ))))
