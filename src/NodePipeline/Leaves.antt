-- ===== src/NodePipeline/Leaves.antt =====
-- node_pipeline.py: what `commit_finalized` leaves, whether it returns or raises.
use junca_social_ecosystem_c.Common.{
  ℕ, ◌≡◌, refl, ap, ◌∙◌, inl, inr, nat_eq, list_eq, Result, ok, err, Result-cases, lower, Platform,
}
use junca_social_ecosystem_c.Finality.Types.{FinalityCertificate}
use junca_social_ecosystem_c.ProtocolKernel.Types.{ProtocolConfig}
use junca_social_ecosystem_c.Mempool.Pool.Synced.{Synced, remove_included-Synced}
use junca_social_ecosystem_c.StateStore.Types.{StoredBlock, Loads}
use junca_social_ecosystem_c.StateStore.Store.{Store, make_store, head, commit_finalized_block}
use junca_social_ecosystem_c.StateStore.Accounts.{Documented}
use junca_social_ecosystem_c.StateStore.Rows.{Certified}
use junca_social_ecosystem_c.StateStore.Outcome.{commit-Committed}
use junca_social_ecosystem_c.StateStore.History.{Steps}
use junca_social_ecosystem_c.StateStore.Preserved.{AllProper}
use junca_social_ecosystem_c.StateStore.Heads.{commit-BecomesHead}
use junca_social_ecosystem_c.NodePipeline.Pipeline.{
  NodePipelineError, ExecutedProposal, Node, commit_of, check_proposal, remove_committed,
  after_commit, commit_finalized,
}
use junca_social_ecosystem_c.PeerSync.Journal.{read}

-- What a commit leaves: the old store, or the proposal's block at the head.
abbrev pub Leaves : ExecutedProposal → Store → Result NodePipelineError StoredBlock × Node → Type 0
Leaves proposal s (err e, next) = next.store ≡ s
Leaves proposal s (ok block, next) =
    (head next.store ≡ ok block)
    × (block.height ≡ proposal.height)
    × (block.block_hash ≡ proposal.block_hash)

module _ (platform : Platform) (loads : Loads) (law : Documented platform loads)
    (config : ProtocolConfig) where
  pub commit_finalized-Leaves :
      (chain_id : ℕ) {start : Store} (node : Node)
      → make_store chain_id ≡ ok start
      → (steps : Steps platform start node.store) → AllProper steps
      → Synced platform node.pool
      → (proposal : ExecutedProposal) (certificate : FinalityCertificate)
      → Certified (commit_of proposal certificate)
      → lower proposal.block_hash ≡ proposal.block_hash
      → Leaves proposal node.store (commit_finalized platform config proposal certificate node)
  unfolding commit_finalized after_commit remove_committed
  commit_finalized-Leaves chain_id node made steps proper synced proposal certificate certified
        lowered =
      elim (Result-cases (check_proposal platform config proposal certificate node.store)) [
        | inr (e, refused) ↦ rw (commit_finalized, refused) refl
        | inl (u, passed) ↦
            elim (Result-cases
              (commit_finalized_block platform (commit_of proposal certificate) node.store)) [
                | inr (e, refused) ↦ rw (commit_finalized, passed) (rw (after_commit, refused) refl)
                | inl ((block, s), stored) ↦
                    let (pool, removed, after_synced) =
                      remove_included-Synced platform proposal.candidate.transactions node.pool
                        synced in
                    let (
                      above, accounts, was, last, same, next, parent, normal, root, bound, quorum,
                      read,
                    ) =
                      commit-BecomesHead platform loads law chain_id made steps proper
                        (commit_of proposal certificate) certified stored in
                    rw (commit_finalized, passed)
                      (rw (after_commit, stored)
                        (rw (removed) (
                          (commit-Committed platform (commit_of proposal certificate) node.store
                              stored).returned,
                          ap (λ (b : StoredBlock). b.height) same,
                          ap (λ (b : StoredBlock). b.block_hash) same ∙ lowered,
                        )))
              ]
      ]
