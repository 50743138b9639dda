-- ===== src/NodePipeline/Executed.antt =====
-- node_pipeline.py: what `execute_candidate` has read and executed.
use junca_social_ecosystem_c.Common.{
  ℕ, ◌≡◌, ap, ◌∙◌, sym, subst, Bool, false, Option, none, some, nat_eq, list_eq, Result, ok, err,
  raise_if, raise_if-eq-ok, >>=-eq-ok, >>-eq-ok, or_raise, or_raise-eq-ok, ok-injective, Platform,
}
use junca_social_ecosystem_c.ProtocolKernel.Types.{
  ProtocolConfig, TransactionEnvelope, BlockTransition, Accounts,
}
use junca_social_ecosystem_c.ProtocolKernel.Execution.{execute_block}
use junca_social_ecosystem_c.Mempool.Candidate.{BlockCandidate, build_candidate}
use junca_social_ecosystem_c.StateStore.Types.{
  StoredBlock, BlockRow, stored_block, Loads, not_initialized,
}
use junca_social_ecosystem_c.StateStore.Store.{
  Store, last_row, head, accounts_at_head, is_bad_timestamp,
}
use junca_social_ecosystem_c.NodePipeline.Pipeline.{
  NodePipelineError, bad_timestamp, store_error, pool_error, kernel_error, ExecutedProposal, Node,
  within, proposal_on, execute_candidate,
}

within-eq-ok {ℓ} :
    {E : Type 0} {A : Type ℓ} (wrap : E → NodePipelineError) (r : Result E A) {a : A}
    → within wrap r ≡ ok a
    → r ≡ ok a
within-eq-ok wrap (ok b) h = ap (λ x. ok x) (ok-injective h)
within-eq-ok wrap (err e) h = absurd (cc)

-- What `execute_candidate` has read and executed.
pub record Executed (platform : Platform) (config : ProtocolConfig)
    (verifier : TransactionEnvelope → Bool) (node : Node) (timestamp : Option ℕ)
    (proposal : ExecutedProposal) : Type 0 where
  pub current : BlockRow
  pub accounts : Accounts
  pub candidate : BlockCandidate
  pub transition : BlockTransition
  pub dated : is_bad_timestamp timestamp ≡ false
  pub is_head : last_row node.store.blocks ≡ some current
  pub executed :
      execute_block platform config current.base_fee_per_gas current.gas_used accounts
        candidate.transactions verifier
      ≡ ok transition
  pub proposed :
      proposal ≡ proposal_on platform config (stored_block current) timestamp candidate transition

head-eq-ok :
    (s : Store) {block : StoredBlock}
    → head s ≡ ok block
    → (row : BlockRow) × (last_row s.blocks ≡ some row) × (stored_block row ≡ block)
unfolding head
head-eq-ok s h =
    let (row, found, same) = >>=-eq-ok (or_raise (last_row s.blocks) not_initialized) _ h in
    (row, or_raise-eq-ok (last_row s.blocks) not_initialized found, ok-injective same)

module _ (platform : Platform) (config : ProtocolConfig) (loads : Loads)
    (verifier : TransactionEnvelope → Bool) where
  pub execute_candidate-Executed :
      (timestamp : Option ℕ) (node : Node) {proposal : ExecutedProposal}
      → execute_candidate platform config loads verifier timestamp node ≡ ok proposal
      → Executed platform config verifier node timestamp proposal
  unfolding execute_candidate
  execute_candidate-Executed timestamp node h0 =
      let (a1, h1) = >>-eq-ok (raise_if (is_bad_timestamp timestamp) bad_timestamp) _ h0 in
      let (current, a2, h2) = >>=-eq-ok (within store_error (head node.store)) _ h1 in
      let (accounts, a3, h3) =
        >>=-eq-ok (within store_error (accounts_at_head platform loads node.store)) _ h2 in
      let (candidate, a4, h4) =
        >>=-eq-ok
          (within pool_error
            (build_candidate platform config node.pool accounts current.base_fee_per_gas none))
          _ h3 in
      let (transition, a5, h5) =
        >>=-eq-ok
          (within kernel_error (
            execute_block platform config current.base_fee_per_gas current.gas_used accounts
              candidate.transactions verifier))
          _ h4 in
      let (row, found, same) =
        head-eq-ok node.store (within-eq-ok store_error (head node.store) a2) in
      record {
        current = row;
        accounts = accounts;
        candidate = candidate;
        transition = transition;
        dated = raise_if-eq-ok _ _ a1;
        is_head = found;
        executed =
            subst
              (λ (b : StoredBlock).
                execute_block platform config b.base_fee_per_gas b.gas_used accounts
                  candidate.transactions verifier
                ≡ ok transition)
              (sym same) (within-eq-ok kernel_error _ a5);
        proposed = sym (
            ap (λ (b : StoredBlock). proposal_on platform config b timestamp candidate transition)
              same
            ∙ ok-injective h5);
      }
