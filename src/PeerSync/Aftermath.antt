-- ===== src/PeerSync/Aftermath.antt =====
-- peer_sync.py: what an import leaves, from its commit on, and what a restart makes of it.
use junca_social_ecosystem_c.Common.{
  ◌+◌, ◌≡◌, refl, ap, ◌∙◌, sym, subst, inl, inr, arith, ◌⊎◌, true, Option, none, ◌==◌, nat_eq,
  list_eq, text_iff, Result, ok, err, Result-cases, ◌>>=◌, Text, Platform, Bool-cases,
}
use junca_social_ecosystem_c.Finality.Types.{FinalityCertificate}
use junca_social_ecosystem_c.ProtocolKernel.Types.{ProtocolConfig}
use junca_social_ecosystem_c.StateStore.Types.{StoredBlock, Loads}
use junca_social_ecosystem_c.StateStore.Store.{Store, head}
use junca_social_ecosystem_c.StateStore.Accounts.{Documented}
use junca_social_ecosystem_c.NodePipeline.Pipeline.{
  NodePipelineError, ExecutedProposal, Node, commit_finalized,
}
use junca_social_ecosystem_c.PeerSync.Registry.{
  PeerSyncError, pipeline_error, PeerRegistry, record_fault,
}
use junca_social_ecosystem_c.PeerSync.Journal.{
  clean, retry_required, commit_confirmed, committed, Journal, write, read_file, prepared_record,
  mark_record, mark_committed, clear, recover, recover_record,
}
use junca_social_ecosystem_c.PeerSync.Importer.{
  FaultPoint, after_journal_prepare, after_state_commit, after_journal_commit, World, raises_at,
  is_caught, blame, finish_import, undo_import, after_pipeline, commit_import,
}
use junca_social_ecosystem_c.PeerSync.Recovery.{
  Readable, read-write, recover_prepared, recover_committed,
}
use junca_social_ecosystem_c.NodePipeline.Leaves.{Leaves}

-- What a restart finds: nothing to do on the old store, an import to repeat on the old store, or the
-- block at the head, with the record gone or confirmed.
pub data Aftermath (platform : Platform) (loads : Loads) (s : Store) (proposal : ExecutedProposal)
    (w : World) : Type 0 where
  untouched :
      w.node.store ≡ s
      → recover platform loads w.node.store w.journal ≡ ok (clean, w.journal)
      → Aftermath platform loads s proposal w
  interrupted :
      w.node.store ≡ s
      → recover platform loads w.node.store w.journal ≡ ok (retry_required, w.journal)
      → Aftermath platform loads s proposal w
  imported :
      (block : StoredBlock)
      → head w.node.store ≡ ok block
      → block.height ≡ proposal.height
      → block.block_hash ≡ proposal.block_hash
      → (recover platform loads w.node.store w.journal ≡ ok (clean, w.journal))
        ⊎ (recover platform loads w.node.store w.journal ≡ ok (commit_confirmed, clear w.journal))
      → Aftermath platform loads s proposal w

module _ (platform : Platform) (loads : Loads) (law : Documented platform loads)
    (config : ProtocolConfig) where
  pub recover_clear :
      (s : Store) (j : Journal) → j.file ≡ none → recover platform loads s j ≡ ok (clean, j)
  unfolding recover recover_record read_file
  recover_clear s j free =
      ap (λ (f : Option Text). (read_file platform loads j f >>= recover_record platform s j)) free

  pub Aftermath-blame :
      (s : Store) (proposal : ExecutedProposal) (peer_id : Text) (e : PeerSyncError) (w : World)
      → Aftermath platform loads s proposal w
      → Aftermath platform loads s proposal (blame peer_id e w).1
  unfolding blame
  Aftermath-blame s proposal peer_id e w a = elim (Result-cases (record_fault peer_id w.registry)) [
    | inr (f, unknown) ↦ rw (blame, unknown) a
    | inl (updated, known) ↦ rw (blame, known) (moved a)
  ]
    where
      moved :
          {registry : PeerRegistry}
          → Aftermath platform loads s proposal w
          → Aftermath platform loads s proposal (record w { registry = registry })
      moved (untouched same r) = untouched same r
      moved (interrupted same r) = interrupted same r
      moved (imported block at_head height hash r) = imported block at_head height hash r

  -- The rest of an import whose record is written. The head is the proposal's parent.
  module _ (fault : Option FaultPoint) (peer_id : Text) (proposal : ExecutedProposal) (j : Journal)
      (readable : Readable j.chain_id (prepared_record j.chain_id peer_id proposal)) where
    abbrev pub opened : Journal
    opened = write platform (prepared_record j.chain_id peer_id proposal) j

    abbrev confirmed : Journal
    confirmed =
        write platform (record (prepared_record j.chain_id peer_id proposal) { status = committed })
          opened

    committed-Readable :
        Readable opened.chain_id
          (record (prepared_record j.chain_id peer_id proposal) { status = committed })
    unfolding write
    committed-Readable = record {
      chain = refl;
      peer = readable.peer;
      positive = readable.positive;
      parent = readable.parent;
      block = readable.block;
      root = readable.root;
    }

    marked :
        (block : StoredBlock)
        → block.block_hash ≡ proposal.block_hash
        → mark_committed platform loads block opened ≡ ok confirmed
    unfolding mark_committed mark_record
    marked block hash =
        rw (read-write platform loads law j (prepared_record j.chain_id peer_id proposal) readable)
          (rw (mark_record, (text_iff proposal.block_hash block.block_hash).1 (sym hash)) refl)

    finish-Aftermath :
        (s : Store) (block : StoredBlock) (w : World)
        → w.journal ≡ opened
        → head w.node.store ≡ ok block
        → block.height ≡ proposal.height
        → block.block_hash ≡ proposal.block_hash
        → Aftermath platform loads s proposal (finish_import platform config loads fault block w).1
    unfolding finish_import
    finish-Aftermath s block w at_journal at_head height hash =
        elim (Bool-cases (raises_at after_state_commit fault)) [
          | inl cut ↦
              rw (finish_import, cut)
                (imported block at_head height hash (
                  inr (
                    subst
                      (λ (k : Journal).
                        recover platform loads w.node.store k ≡ ok (commit_confirmed, clear k))
                      (sym at_journal)
                      (recover_committed platform loads law w.node.store j
                        (prepared_record j.chain_id peer_id proposal) readable at_head (sym height)
                        (sym hash)))))
          | inr on ↦
              let marks =
                subst (λ (k : Journal). mark_committed platform loads block k ≡ ok confirmed)
                  (sym at_journal) (marked block hash) in
              rw (finish_import, on)
                (rw marks (elim (Bool-cases (raises_at after_journal_commit fault)) [
                  | inl cut ↦ rw cut (
                      imported block at_head height hash (
                        inr (
                          recover_committed platform loads law w.node.store opened
                            (record (prepared_record j.chain_id peer_id proposal) {
                              status = committed;
                            })
                            committed-Readable at_head (sym height) (sym hash))))
                  | inr through ↦ rw through (
                      imported block at_head height hash
                        (inl (recover_clear w.node.store (clear confirmed) refl)))
                ]))
        ]

    undo-Aftermath :
        (s : Store) (parent : StoredBlock) (e : NodePipelineError) (w : World)
        → w.journal ≡ opened
        → w.node.store ≡ s
        → head s ≡ ok parent
        → proposal.height ≡ parent.height + 1
        → proposal.parent_hash ≡ parent.block_hash
        → Aftermath platform loads s proposal
            (undo_import platform config loads fault peer_id proposal e w).1
    unfolding undo_import
    undo-Aftermath s parent e w at_journal same at_head next hash =
        let at_store : head w.node.store ≡ ok parent = ap head same ∙ at_head in
        elim (Bool-cases (is_caught e)) [
          | inr missed ↦ rw missed (
              interrupted same (
                subst
                  (λ (k : Journal). recover platform loads w.node.store k ≡ ok (retry_required, k))
                  (sym at_journal)
                  (recover_prepared platform loads law w.node.store j
                    (prepared_record j.chain_id peer_id proposal) readable at_store next hash)))
          | inl caught ↦
              let above : (parent.height + 1 == proposal.height) ≡ true = ground arith in
              rw caught (
                rw at_store (
                  Aftermath-blame s proposal peer_id (pipeline_error e) _ (
                    rw (above, (text_iff parent.block_hash proposal.parent_hash).1 (sym hash))
                      (untouched same (recover_clear w.node.store (clear w.journal) refl)))))
        ]

    pipeline-Aftermath :
        (s : Store) (parent : StoredBlock) (w : World)
        (outcome : Result NodePipelineError StoredBlock × Node)
        → w.journal ≡ opened
        → head s ≡ ok parent
        → proposal.height ≡ parent.height + 1
        → proposal.parent_hash ≡ parent.block_hash
        → Leaves proposal s outcome
        → Aftermath platform loads s proposal
            (after_pipeline platform config loads fault peer_id proposal w outcome).1
    unfolding after_pipeline
    pipeline-Aftermath s parent w (ok block, next) at_journal at_head height hash leaves =
        finish-Aftermath s block (record w { node = next }) at_journal leaves.0 leaves.1 leaves.2
    pipeline-Aftermath s parent w (err e, next) at_journal at_head height hash leaves =
        undo-Aftermath s parent e (record w { node = next }) at_journal leaves at_head height hash

    pub commit-Aftermath :
        (parent : StoredBlock) (certificate : FinalityCertificate) (w : World)
        → w.journal ≡ opened
        → head w.node.store ≡ ok parent
        → proposal.height ≡ parent.height + 1
        → proposal.parent_hash ≡ parent.block_hash
        → Leaves proposal w.node.store
            (commit_finalized platform config proposal certificate w.node)
        → Aftermath platform loads w.node.store proposal
            (commit_import platform config loads fault peer_id proposal certificate w).1
    unfolding commit_import
    commit-Aftermath parent certificate w at_journal at_head height hash leaves =
        elim (Bool-cases (raises_at after_journal_prepare fault)) [
          | inl cut ↦
              rw (commit_import, cut)
                (interrupted refl (
                  subst
                    (λ (k : Journal).
                      recover platform loads w.node.store k ≡ ok (retry_required, k))
                    (sym at_journal)
                    (recover_prepared platform loads law w.node.store j
                      (prepared_record j.chain_id peer_id proposal) readable at_head height hash)))
          | inr on ↦
              rw (commit_import, on)
                (pipeline-Aftermath w.node.store parent w
                  (commit_finalized platform config proposal certificate w.node) at_journal at_head
                  height hash leaves)
        ]
