-- ===== src/PeerSync/Crash.antt =====
-- peer_sync.py: an import that is cut off at any point, or that fails, and the restart after it.
use junca_social_ecosystem_c.Common.{
  ℕ, ◌+◌, ◌≡◌, refl, inl, inr, Option, none, nat_eq, list_eq, ok, Result-cases, Text, lower,
  Platform, Bool-cases,
}
use junca_social_ecosystem_c.Finality.Types.{FinalityCertificate}
use junca_social_ecosystem_c.ProtocolKernel.Types.{ProtocolConfig}
use junca_social_ecosystem_c.Mempool.Pool.Synced.{Synced}
use junca_social_ecosystem_c.StateStore.Types.{StoredBlock, Loads}
use junca_social_ecosystem_c.StateStore.Store.{Store, make_store, last_row, head}
use junca_social_ecosystem_c.StateStore.Accounts.{Documented}
use junca_social_ecosystem_c.StateStore.Rows.{Certified}
use junca_social_ecosystem_c.StateStore.History.{Steps}
use junca_social_ecosystem_c.StateStore.Preserved.{AllProper}
use junca_social_ecosystem_c.NodePipeline.Pipeline.{ExecutedProposal, commit_of}
use junca_social_ecosystem_c.PeerSync.Registry.{other_block, select_source}
use junca_social_ecosystem_c.PeerSync.Journal.{write, prepared_record}
use junca_social_ecosystem_c.PeerSync.Importer.{
  FaultPoint, World, height_of, begin_import, check_source, is_other_block, import_from,
  import_finalized,
}
use junca_social_ecosystem_c.PeerSync.Recovery.{Readable, begin_free}
use junca_social_ecosystem_c.NodePipeline.Leaves.{commit_finalized-Leaves}
use junca_social_ecosystem_c.PeerSync.Aftermath.{
  Aftermath, untouched, recover_clear, Aftermath-blame, commit-Aftermath,
}

module _ (platform : Platform) (loads : Loads) (law : Documented platform loads)
    (config : ProtocolConfig) where
  -- Take a node whose store is made by calls of `initialize_genesis`, `commit_finalized_block`
  -- and `restore_checkpoint` that returned (a genesis only on no blocks or on a chain from
  -- height 0, a commit with a positive base fee and a canonical certificate hash), with a pool
  -- in sync and a journal without a record, and an import of a proposal that follows the head,
  -- with well-formed hashes in lower case and a certificate hash in canonical form. Whether the
  -- import returns, raises, or is cut off at any of the three fault points, `recover` returns
  -- on what it leaves: on the old store it finds it clean or asks for a retry; otherwise the
  -- head has the proposal's height and hash, and it finds it clean or confirms the commit. All
  -- this where JSON and digests behave as documented.
  pub import_recovers :
      (chain_id : ℕ) {start : Store} (w : World)
      → make_store chain_id ≡ ok start
      → (steps : Steps platform start w.node.store) → AllProper steps
      → Synced platform w.node.pool
      → w.journal.file ≡ none
      → (fault : Option FaultPoint) (peer_id : Text) (proposal : ExecutedProposal)
        (certificate : FinalityCertificate) (parent : StoredBlock)
      → head w.node.store ≡ ok parent
      → proposal.height ≡ parent.height + 1
      → proposal.parent_hash ≡ parent.block_hash
      → lower proposal.block_hash ≡ proposal.block_hash
      → Certified (commit_of proposal certificate)
      → Readable w.journal.chain_id (prepared_record w.journal.chain_id peer_id proposal)
      → Aftermath platform loads w.node.store proposal
          (import_finalized platform config loads fault peer_id proposal certificate w).1
  unfolding import_finalized import_from begin_import
  import_recovers chain_id w made steps proper synced free fault peer_id proposal certificate parent
        at_head height hash lowered certified readable =
      let nothing : Aftermath platform loads w.node.store proposal w =
        untouched refl (recover_clear platform loads law config w.node.store w.journal free) in
      elim (Result-cases (select_source (height_of (last_row w.node.store.blocks)) w.registry)) [
        | inr (e, none_ahead) ↦ rw (import_finalized, none_ahead) nothing
        | inl (selected, found) ↦ elim (Result-cases (check_source peer_id proposal selected)) [
          | inr (e, refused) ↦ rw (import_finalized, found) (rw (import_from, refused) nothing)
          | inl (u, allowed) ↦ elim (Bool-cases (is_other_block proposal selected)) [
            | inl other ↦
                rw (import_finalized, found)
                  (rw (import_from, allowed)
                    (rw other (
                      Aftermath-blame platform loads law config w.node.store proposal peer_id
                        other_block w nothing)))
            | inr right ↦
                rw (import_finalized, found)
                  (rw (import_from, allowed)
                    (rw right (
                      rw
                        (
                          begin_import,
                          begin_free platform loads law w.journal peer_id proposal free
                              readable.peer,
                        )
                        (commit-Aftermath platform loads law config fault peer_id proposal w.journal
                          readable parent certificate
                          (record w {
                            journal =
                                write platform (prepared_record w.journal.chain_id peer_id proposal)
                                  w.journal;
                          })
                          refl at_head height hash
                          (commit_finalized-Leaves platform loads law config chain_id w.node made
                            steps proper synced proposal certificate certified lowered)))))
          ]
        ]
      ]
