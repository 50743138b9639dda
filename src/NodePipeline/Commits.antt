-- ===== src/NodePipeline/Commits.antt =====
-- node_pipeline.py: a certificate for a proposal, and `commit_finalized` under it.
use junca_social_ecosystem_c.Common.{
  ℕ, ◌+◌, ◌*◌, ◌<◌, ◌≡◌, refl, ap, ◌∙◌, sym, subst, arith, Bool, false, not, ◌||◌, Option, ◌==◌,
  any_of, nat_eq, list_eq, ◌=?◌, text_iff, ok, raise_if, raise_if-ok, >>-ok, >>-eq-ok, Text, lower,
  Platform,
}
use junca_social_ecosystem_c.Finality.Types.{FinalityCertificate}
use junca_social_ecosystem_c.ProtocolKernel.Types.{
  ProtocolConfig, TransactionEnvelope, BlockTransition,
}
use junca_social_ecosystem_c.ProtocolKernel.Execution.{execute_block}
use junca_social_ecosystem_c.Mempool.Types.{TransactionPool}
use junca_social_ecosystem_c.Mempool.Pool.{remove_included}
use junca_social_ecosystem_c.Mempool.Pool.Synced.{Synced, remove_included-Synced}
use junca_social_ecosystem_c.StateStore.Types.{StoredBlock, stored_block, Loads, check_hash}
use junca_social_ecosystem_c.StateStore.Store.{
  Store, make_store, head, accounts_at_head, commit_finalized_block, is_bad_timestamp,
  committed_row,
}
use junca_social_ecosystem_c.StateStore.Accounts.{Documented}
use junca_social_ecosystem_c.StateStore.Chain.{Intact}
use junca_social_ecosystem_c.StateStore.Growth.{IsChain-last}
use junca_social_ecosystem_c.StateStore.Rows.{Certified}
use junca_social_ecosystem_c.StateStore.Outcome.{same_text, commit-Committed}
use junca_social_ecosystem_c.StateStore.Tables.{reached-Referenced}
use junca_social_ecosystem_c.StateStore.History.{Steps}
use junca_social_ecosystem_c.StateStore.Preserved.{AllProper, reached-Intact}
use junca_social_ecosystem_c.StateStore.Heads.{commit-BecomesHead}
use junca_social_ecosystem_c.StateStore.Conditions.{Extends, Storable}
use junca_social_ecosystem_c.StateStore.Accepts.{committed, commit_accepted}
use junca_social_ecosystem_c.NodePipeline.Kernel.{execute_block-Normal}
use junca_social_ecosystem_c.NodePipeline.Pipeline.{
  not_on_head, ExecutedProposal, Node, commit_of, header_hash, execute_candidate, check_proposal,
  remove_committed, after_commit, commit_finalized,
}
use junca_social_ecosystem_c.NodePipeline.Executed.{Executed, execute_candidate-Executed}

-- A certificate for a proposal: of the chain, bound to its height and hash, with a quorum.
pub record Certifies (config : ProtocolConfig) (proposal : ExecutedProposal)
    (certificate : FinalityCertificate) : Type 0 where
  pub chain : certificate.chain_id ≡ config.chain_id
  pub height : certificate.height ≡ proposal.height
  pub hash : certificate.block_hash ≡ proposal.block_hash
  pub quorum : certificate.total_power * 2 < certificate.signed_power * 3

-- The commit returns the proposal's block, which is the head then, with the executed accounts; what
-- it includes has left the pool.
abbrev pub Commits :
    Platform → ProtocolConfig → Loads → ExecutedProposal → FinalityCertificate → Node → Type 0
Commits platform config loads proposal certificate node =
    (block : StoredBlock) × (next : Node) × (commit_finalized platform config proposal certificate
        node
      ≡ (ok block, next))
    × (block.height ≡ proposal.height)
    × (block.block_hash ≡ proposal.block_hash)
    × (block.state_root ≡ proposal.transition.state_root)
    × (head next.store ≡ ok block)
    × (accounts_at_head platform loads next.store ≡ ok proposal.transition.accounts)
    × (remove_included platform proposal.candidate.transactions node.pool ≡ ok next.pool)
    × Synced platform next.pool

module _ (platform : Platform) (loads : Loads) (law : Documented platform loads)
    (config : ProtocolConfig) (verifier : TransactionEnvelope → Bool) where
  header_hash-canonical :
      (digest : Text) (height : ℕ) (parent root : Text) (timestamp : Option ℕ)
      → (check_hash (header_hash platform config digest height parent root timestamp) ≡ ok tt)
        × (lower (header_hash platform config digest height parent root timestamp)
            ≡ header_hash platform config digest height parent root timestamp)
  unfolding header_hash
  header_hash-canonical digest height parent root timestamp = (law.formed _, law.lowered _)

  -- The conditions of a commit, met by what the node has executed.
  Executed-Extends :
      (node : Node) (timestamp : Option ℕ) (proposal : ExecutedProposal)
      (certificate : FinalityCertificate)
      → Intact platform loads node.store
      → node.store.chain_id ≡ config.chain_id
      → (x : Executed platform config verifier node timestamp proposal)
      → Certifies config proposal certificate
      → Storable (commit_of proposal certificate)
      → any_of (λ row. row.block_hash =? proposal.block_hash) node.store.blocks ≡ false
      → Extends platform node.store x.current
          (commit_of proposal certificate)
          proposal.transition.accounts
  Executed-Extends node timestamp proposal certificate intact chain x certifies storable unused =
      let e = x.proposed in
      let (formed, lowered) =
        subst
          (λ (p : ExecutedProposal).
            (check_hash p.block_hash ≡ ok tt) × (lower p.block_hash ≡ p.block_hash))
          (sym e)
          (header_hash-canonical x.candidate.candidate_digest (x.current.height + 1)
            x.current.block_hash x.transition.state_root timestamp) in
      let sound =
        IsChain-last platform loads node.store.base_height node.store.blocks intact x.is_head in
      let (parent_formed, parent_lowered) =
        >>-eq-ok (check_hash x.current.block_hash) _ sound.hash in
      let parent : proposal.parent_hash ≡ x.current.block_hash =
        ap (λ (p : ExecutedProposal). p.parent_hash) e in
      let transition = ap (λ (p : ExecutedProposal). p.transition) e in
      let (normal, root, of_chain) =
        execute_block-Normal platform config x.current.base_fee_per_gas x.current.gas_used
          x.accounts x.candidate.transactions verifier
          (subst
            (λ (t : BlockTransition).
              execute_block platform config x.current.base_fee_per_gas x.current.gas_used x.accounts
                x.candidate.transactions verifier
              ≡ ok t)
            (sym transition) x.executed) in
      record {
        is_head = x.is_head;
        next = ap (λ (p : ExecutedProposal). p.height) e ∙ omega arith;
        hash = formed;
        parent_formed = subst (λ (h : Text). check_hash h ≡ ok tt) (sym parent) parent_formed;
        parent =
            ap lower parent
            ∙ sym (same_text x.current.block_hash (lower x.current.block_hash) _ parent_lowered);
        chain = of_chain ∙ sym chain;
        certified_chain = certifies.chain ∙ sym chain;
        bound_height = certifies.height;
        bound_hash = certifies.hash ∙ sym lowered;
        dated = ap (λ (p : ExecutedProposal). is_bad_timestamp p.block_timestamp) e ∙ x.dated;
        quorum = certifies.quorum;
        normal = normal;
        root = root;
        storable = storable;
        unused =
            subst (λ (h : Text). any_of (λ row. row.block_hash =? h) node.store.blocks ≡ false)
              (sym lowered) unused;
      }

  check_proposal-Executed :
      (node : Node) (timestamp : Option ℕ) (proposal : ExecutedProposal)
      (certificate : FinalityCertificate)
      → (x : Executed platform config verifier node timestamp proposal)
      → Certifies config proposal certificate
      → check_proposal platform config proposal certificate node.store ≡ ok tt
  unfolding check_proposal head
  check_proposal-Executed node timestamp proposal certificate x certifies =
      let height = ap (λ (p : ExecutedProposal). p.height) x.proposed in
      let parent = ap (λ (p : ExecutedProposal). p.parent_hash) x.proposed in
      rw (x.is_head) (
        >>-ok
          (raise_if
            (not (proposal.height == x.current.height + 1)
              || not (proposal.parent_hash =? x.current.block_hash))
            not_on_head)
          (raise_if-ok _ _ (both_same height parent))
          (raise_if-ok _ _ (both_same certifies.height certifies.hash)))
    where
      both_same : {m n : ℕ} {s t : Text} → m ≡ n → s ≡ t → (not (m == n) || not (s =? t)) ≡ false
      both_same e f = let g = (text_iff _ _).1 f in ground arith

  -- The outcome of `commit_finalized` where the store accepts.
  committed_outcome :
      (proposal : ExecutedProposal) (certificate : FinalityCertificate) (node : Node)
      (block : StoredBlock) (s : Store) (pool : TransactionPool)
      → check_proposal platform config proposal certificate node.store ≡ ok tt
      → commit_finalized_block platform (commit_of proposal certificate) node.store ≡ ok (block, s)
      → remove_included platform proposal.candidate.transactions node.pool ≡ ok pool
      → commit_finalized platform config proposal certificate node
        ≡ (ok block, record { pool = pool; store = s })
  unfolding commit_finalized after_commit remove_committed
  committed_outcome proposal certificate node block s pool checked stored removed =
      rw (commit_finalized, checked) (rw (after_commit, stored) (rw (removed) refl))

  -- Take a node whose store is made by calls of `initialize_genesis`, `commit_finalized_block`
  -- and `restore_checkpoint` that returned (a genesis only on no blocks or on a chain from
  -- height 0, a commit with a positive base fee and a canonical certificate hash), whose chain
  -- is the configuration's and whose pool is in sync, and a proposal that `execute_candidate`
  -- returns on it. A certificate for the proposal's height and hash, of the chain, signed by
  -- more than two thirds of the power and with a hash in canonical form, makes
  -- `commit_finalized` return, provided that the base fee is positive, that the height, the
  -- base fee, the gas used and the timestamp are below 2^63, as SQLite's columns need, and that
  -- no stored block has the proposal's hash. The block is the proposal's and the head then,
  -- `accounts_at()` gives the accounts that the kernel left, and the pool is the one without
  -- the block's transactions, in sync. All this where JSON writes every number, and JSON and
  -- digests behave as documented.
  pub proposal-Commits :
      (chain_id : ℕ) {start : Store} (node : Node)
      → make_store chain_id ≡ ok start
      → (steps : Steps platform start node.store) → AllProper steps
      → node.store.chain_id ≡ config.chain_id
      → Synced platform node.pool
      → (timestamp : Option ℕ) {proposal : ExecutedProposal}
      → execute_candidate platform config loads verifier timestamp node ≡ ok proposal
      → (certificate : FinalityCertificate) → Certifies config proposal certificate
      → Certified (commit_of proposal certificate)
      → Storable (commit_of proposal certificate)
      → any_of (λ row. row.block_hash =? proposal.block_hash) node.store.blocks ≡ false
      → Commits platform config loads proposal certificate node
  proposal-Commits chain_id node made steps proper chain synced timestamp {proposal} h certificate
        certifies certified storable unused =
      let intact = reached-Intact platform loads law chain_id made steps proper in
      let referenced = reached-Referenced platform chain_id made steps in
      let x = execute_candidate-Executed platform config loads verifier timestamp node h in
      let e =
        Executed-Extends node timestamp proposal certificate intact chain x certifies storable
          unused in
      let c = commit_of proposal certificate in
      let stored =
        commit_accepted platform loads node.store x.current c proposal.transition.accounts intact
          referenced e in
      let (pool, removed, after_synced) =
        remove_included-Synced platform proposal.candidate.transactions node.pool synced in
      let (above, accounts, was, last, same, next, parent, normal, root, bound, quorum, read) =
        commit-BecomesHead platform loads law chain_id made steps proper c certified stored in
      (
        stored_block (committed_row platform c proposal.transition.accounts),
        record {
          pool = pool;
          store = committed platform loads node.store c proposal.transition.accounts;
        },
        committed_outcome proposal certificate node _ _ pool
            (check_proposal-Executed node timestamp proposal certificate x certifies) stored
            removed,
        refl,
        sym e.bound_hash ∙ certifies.hash,
        refl,
        (commit-Committed platform c node.store stored).returned,
        read ∙ sym normal ∙ e.normal,
        removed,
        after_synced,
      )
