-- ===== src/NodePipeline/Pipeline.antt =====
-- node_pipeline.py: `NodeExecutionPipeline` over the pool and the store. Its configuration and the
-- signature verifier do not change.
use junca_social_ecosystem_c.Common.{
  ℕ, ◌+◌, Bool, not, ◌||◌, Option, none, some, ◌∷◌, [], ◌++◌, ◌==◌, nat_eq, list_eq, ◌=?◌, Result,
  ok, err, Check, ◌>>=◌, ◌>>◌, raise_if, Text, codes, Json, Fields, text, number, object, end,
  field, Platform, tagged_digest,
}
use junca_social_ecosystem_c.Finality.Types.{FinalityCertificate}
use junca_social_ecosystem_c.ProtocolKernel.Types.{
  ProtocolConfig, TransactionEnvelope, BlockTransition, KernelError,
}
use junca_social_ecosystem_c.ProtocolKernel.Execution.{execute_block}
use junca_social_ecosystem_c.Mempool.Types.{MempoolError, TransactionPool}
use junca_social_ecosystem_c.Mempool.Pool.{remove_included}
use junca_social_ecosystem_c.Mempool.Candidate.{BlockCandidate, build_candidate}
use junca_social_ecosystem_c.StateStore.Types.{StateStoreError, StoredBlock, Loads}
use junca_social_ecosystem_c.StateStore.Store.{
  Store, Call, Commit, head, accounts_at_head, commit_finalized_block, is_bad_timestamp,
}

pub data NodePipelineError : Type 0 where
  chain_mismatch bad_timestamp not_on_head unbound_certificate : NodePipelineError
  -- What the parts raise.
  store_error : StateStoreError → NodePipelineError
  pool_error : MempoolError → NodePipelineError
  kernel_error : KernelError → NodePipelineError

pub record ExecutedProposal : Type 0 where
  pub height : ℕ
  pub parent_hash : Text
  pub block_hash : Text
  pub block_timestamp : Option ℕ
  pub candidate : BlockCandidate
  pub transition : BlockTransition

pub record Node : Type 0 where
  pub pool : TransactionPool
  pub store : Store

abbrev pub within {ℓ} :
    {E : Type 0} {A : Type ℓ} → (E → NodePipelineError) → Result E A → Result NodePipelineError A
within wrap (ok a) = ok a
within wrap (err e) = err (wrap e)

-- The field that a header has where there is a timestamp.
abbrev pub timestamp_field : Option ℕ → Fields
timestamp_field none = end
timestamp_field (some t) = field (codes "timestamp") (number t) end

unfoldable pub header_json : Text → ℕ → ℕ → Text → Text → Option ℕ → Json
header_json candidate_digest chain_id height parent_hash state_root timestamp = object (
    field (codes "candidate_digest") (text candidate_digest) (
      field (codes "chain_id") (number chain_id) (
        field (codes "height") (number height) (
          field (codes "parent_hash") (text parent_hash)
            (field (codes "state_root") (text state_root) (timestamp_field timestamp))))))

-- The arguments with which a proposal is committed.
abbrev pub commit_of : ExecutedProposal → FinalityCertificate → Commit
commit_of proposal certificate = record {
  height = proposal.height;
  block_hash = proposal.block_hash;
  parent_hash = proposal.parent_hash;
  transition = proposal.transition;
  certificate = certificate;
  timestamp = proposal.block_timestamp;
}

-- `NodeExecutionPipeline.__init__`
unfoldable pub make_pipeline :
    ProtocolConfig → TransactionPool → Store → Result NodePipelineError Node
make_pipeline config pool store = do
  raise_if (not (store.chain_id == config.chain_id)) chain_mismatch
  ok (record { pool = pool; store = store })

module _ (platform : Platform) (config : ProtocolConfig) where
  unfoldable pub header_hash : Text → ℕ → Text → Text → Option ℕ → Text
  header_hash candidate_digest height parent_hash state_root timestamp =
      tagged_digest platform (codes "JUNCA_BLOCK_HEADER_V1" ++ 0 ∷ []) (
        platform.dumps
          (header_json candidate_digest config.chain_id height parent_hash state_root timestamp))

  abbrev pub proposal_on :
      StoredBlock → Option ℕ → BlockCandidate → BlockTransition → ExecutedProposal
  proposal_on current timestamp candidate transition = record {
    height = current.height + 1;
    parent_hash = current.block_hash;
    block_hash =
        header_hash candidate.candidate_digest (current.height + 1) current.block_hash
          transition.state_root timestamp;
    block_timestamp = timestamp;
    candidate = candidate;
    transition = transition;
  }

  -- `execute_candidate`
  unfoldable pub execute_candidate :
      Loads
      → (TransactionEnvelope → Bool)
      → Option ℕ
      → Node
      → Result NodePipelineError ExecutedProposal
  execute_candidate loads signature_verifier timestamp node = do
    raise_if (is_bad_timestamp timestamp) bad_timestamp
    current ← within store_error (head node.store)
    accounts ← within store_error (accounts_at_head platform loads node.store)
    candidate ←
        within pool_error
          (build_candidate platform config node.pool accounts current.base_fee_per_gas none)
    transition ← within kernel_error (
        execute_block platform config current.base_fee_per_gas current.gas_used accounts
          candidate.transactions signature_verifier)
    ok (proposal_on current timestamp candidate transition)

  -- The tests of `commit_finalized` before it calls the store.
  unfoldable pub check_proposal :
      ExecutedProposal → FinalityCertificate → Store → Check NodePipelineError
  check_proposal proposal certificate s = do
    current ← within store_error (head s)
    raise_if
        (not (proposal.height == current.height + 1)
          || not (proposal.parent_hash =? current.block_hash))
        not_on_head
    raise_if
        (not (certificate.height == proposal.height)
          || not (certificate.block_hash =? proposal.block_hash))
        unbound_certificate

  -- The removal of what the block includes; one that raises leaves the block committed. (A pool
  -- in sync does not raise; what is left of one that does is not modelled.)
  unfoldable pub remove_committed :
      Node
      → StoredBlock
      → Store
      → Result MempoolError TransactionPool
      → Result NodePipelineError StoredBlock × Node
  remove_committed node block s (ok pool) = (ok block, record { pool = pool; store = s })
  remove_committed node block s (err e) = (err (pool_error e), record node { store = s })

  -- What follows the store's answer.
  unfoldable pub after_commit :
      ExecutedProposal → Node → Call → Result NodePipelineError StoredBlock × Node
  after_commit proposal node (err e) = (err (store_error e), node)
  after_commit proposal node (ok (block, s)) =
      remove_committed node block s
        (remove_included platform proposal.candidate.transactions node.pool)

  -- `commit_finalized`: the outcome, and the node after it.
  unfoldable pub commit_finalized :
      ExecutedProposal → FinalityCertificate → Node → Result NodePipelineError StoredBlock × Node
  commit_finalized proposal certificate node =
      elim (check_proposal proposal certificate node.store) [
        | err e ↦ (err e, node)
        | ok u ↦
            after_commit proposal node
              (commit_finalized_block platform (commit_of proposal certificate) node.store)
      ]
