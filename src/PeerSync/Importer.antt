-- ===== src/PeerSync/Importer.antt =====
-- peer_sync.py, `SynchronizedBlockImporter.import_finalized`: the outcome, and the registry, the node
-- and the journal after it. The fault injector raises at one point or at none.
use junca_social_ecosystem_c.Common.{
  ℕ, ◌+◌, Bool, true, false, not, ◌&&◌, Option, none, some, ltb, ◌==◌, nat_eq, list_eq, ◌=?◌,
  Result, ok, err, Check, ◌>>◌, raise_if, Text, lower, Platform, if◌then◌else◌,
}
use junca_social_ecosystem_c.Finality.Types.{FinalityCertificate}
use junca_social_ecosystem_c.ProtocolKernel.Types.{ProtocolConfig}
use junca_social_ecosystem_c.Mempool.Types.{key_error}
use junca_social_ecosystem_c.StateStore.Types.{integrity, StoredBlock, BlockRow, Loads, overflow}
use junca_social_ecosystem_c.StateStore.Store.{last_row, head}
use junca_social_ecosystem_c.NodePipeline.Pipeline.{
  NodePipelineError, ExecutedProposal, Node, commit_finalized,
}
use junca_social_ecosystem_c.NodePipeline.Pipeline as Pipeline
use junca_social_ecosystem_c.PeerSync.Registry.{
  PeerSyncError, not_selected, not_advertised, other_block, injected, store_error, pipeline_error,
  PeerRecord, PeerRegistry, record_fault, select_source,
}
use junca_social_ecosystem_c.PeerSync.Journal.{Journal, begin, mark_committed, clear}

pub data FaultPoint : Type 0 where
  after_journal_prepare after_state_commit after_journal_commit : FaultPoint

pub record World : Type 0 where
  pub registry : PeerRegistry
  pub node : Node
  pub journal : Journal

abbrev pub Outcome : Type 0
Outcome = Result PeerSyncError StoredBlock × World

abbrev pub raises_at : FaultPoint → Option FaultPoint → Bool
raises_at after_journal_prepare (some after_journal_prepare) = true
raises_at after_state_commit (some after_state_commit) = true
raises_at after_journal_commit (some after_journal_commit) = true
raises_at _ _ = false

-- `head_height`
abbrev pub height_of : Option BlockRow → Option ℕ
height_of none = none
height_of (some row) = some row.height

-- `except (NodePipelineError, ValueError)`: not SQLite's errors, and not a `KeyError`.
abbrev pub is_caught : NodePipelineError → Bool
is_caught (Pipeline.NodePipelineError.store_error integrity) = false
is_caught (Pipeline.NodePipelineError.store_error overflow) = false
is_caught (Pipeline.NodePipelineError.pool_error key_error) = false
is_caught e = true

-- A fault that is recorded before the call raises.
unfoldable pub blame : Text → PeerSyncError → World → Outcome
blame peer_id e w = elim (record_fault peer_id w.registry) [
  | err f ↦ (err f, w)
  | ok updated ↦ (err e, record w { registry = updated.1 })
]

-- The tests of the source.
abbrev pub check_source : Text → ExecutedProposal → PeerRecord → Check PeerSyncError
check_source peer_id proposal selected = do
  raise_if (not (selected.advertisement.peer_id =? peer_id)) not_selected
  raise_if (ltb selected.advertisement.finalized_height proposal.height) not_advertised

abbrev pub is_other_block : ExecutedProposal → PeerRecord → Bool
is_other_block proposal selected =
    selected.advertisement.finalized_height == proposal.height
    && not (lower selected.advertisement.finalized_hash =? proposal.block_hash)

module _ (platform : Platform) (config : ProtocolConfig) (loads : Loads)
    (fault : Option FaultPoint) where
  -- The steps after the commit.
  unfoldable pub finish_import : StoredBlock → World → Outcome
  finish_import block w =
      if raises_at after_state_commit fault
      then (err injected, w)
      else elim (mark_committed platform loads block w.journal) [
        | err e ↦ (err e, w)
        | ok j ↦
            if raises_at after_journal_commit fault
            then (err injected, record w { journal = j })
            else (ok block, record w { journal = clear j })
      ]

  -- The handler of a commit that raised: the journal is cleared where the head is the parent still.
  unfoldable pub undo_import : Text → ExecutedProposal → NodePipelineError → World → Outcome
  undo_import peer_id proposal e w =
      if is_caught e
      then elim (head w.node.store) [
        | err f ↦ (err (store_error f), w)
        | ok block ↦ blame peer_id (pipeline_error e) (
            if block.height + 1 == proposal.height && block.block_hash =? proposal.parent_hash
            then record w { journal = clear w.journal }
            else w)
      ]
      else (err (pipeline_error e), w)

  unfoldable pub after_pipeline :
      Text → ExecutedProposal → World → Result NodePipelineError StoredBlock × Node → Outcome
  after_pipeline peer_id proposal w (ok block, node) =
      finish_import block (record w { node = node })
  after_pipeline peer_id proposal w (err e, node) =
      undo_import peer_id proposal e (record w { node = node })

  -- The steps from the journal's record on.
  unfoldable pub commit_import : Text → ExecutedProposal → FinalityCertificate → World → Outcome
  commit_import peer_id proposal certificate w =
      if raises_at after_journal_prepare fault
      then (err injected, w)
      else after_pipeline peer_id proposal w
          (commit_finalized platform config proposal certificate w.node)

  unfoldable pub begin_import : Text → ExecutedProposal → FinalityCertificate → World → Outcome
  begin_import peer_id proposal certificate w =
      elim (begin platform loads peer_id proposal w.journal) [
        | err e ↦ (err e, w)
        | ok j ↦ commit_import peer_id proposal certificate (record w { journal = j })
      ]

  unfoldable pub import_from :
      Text → ExecutedProposal → FinalityCertificate → World → PeerRecord → Outcome
  import_from peer_id proposal certificate w selected =
      elim (check_source peer_id proposal selected) [
        | err e ↦ (err e, w)
        | ok u ↦
            if is_other_block proposal selected
            then blame peer_id other_block w
            else begin_import peer_id proposal certificate w
      ]

  -- `import_finalized`
  unfoldable pub import_finalized : Text → ExecutedProposal → FinalityCertificate → World → Outcome
  import_finalized peer_id proposal certificate w =
      elim (select_source (height_of (last_row w.node.store.blocks)) w.registry) [
        | err e ↦ (err e, w)
        | ok selected ↦ import_from peer_id proposal certificate w selected
      ]
