-- ===== src/ProtocolKernel/Execution/Step.antt =====
-- What a transaction that the loop accepts has passed, and the loop taken apart.
use junca_social_ecosystem_c.Common.{
  ℕ, ◌+◌, ◌≤◌, ◌≡◌, Bool, true, false, List, [], ◌∷◌, arith, mem, subst, ok, >>=-eq-ok, nat_eq,
  list_eq, lookup_or, lower, Platform, All,
}
use junca_social_ecosystem_c.ProtocolKernel.Types.{
  ProtocolConfig, empty_account, TransactionEnvelope, transaction_hash, validate_transaction,
  BlockTransition, Accounts,
}
use junca_social_ecosystem_c.ProtocolKernel.BaseFee.{next_base_fee}
use junca_social_ecosystem_c.ProtocolKernel.Execution.{
  Progress, total_debit, settle, apply_transaction, apply_all, normalize_accounts, start,
  transition_of, execute_block,
}

module _ (platform : Platform) (config : ProtocolConfig) (base_fee : ℕ)
    (verifier : TransactionEnvelope → Bool) where
  -- Everything that the round tested, and the state that it leaves.
  pub record Applied (index : ℕ) (tx : TransactionEnvelope) (p p' : Progress) : Type 0 where
    pub valid : validate_transaction config tx base_fee ≡ ok tt
    pub fresh : mem (transaction_hash platform tx) p.seen_hashes ≡ false
    pub signed : verifier tx ≡ true
    pub room : p.block_gas_used + config.intrinsic_gas ≤ config.block_gas_limit
    pub in_order : tx.nonce ≡ (lookup_or empty_account (lower tx.sender) p.state).nonce
    pub funded :
        total_debit platform config base_fee tx
        ≤ (lookup_or empty_account (lower tx.sender) p.state).balance
    pub settled : p' ≡ settle platform config base_fee index tx p

  pub apply_transaction-Applied :
      (index : ℕ) (tx : TransactionEnvelope) (p : Progress) {p' : Progress}
      → apply_transaction platform config base_fee verifier index tx p ≡ ok p'
      → Applied index tx p p'
  unfolding apply_transaction
  apply_transaction-Applied index tx p h = record {
    valid = ground arith;
    fresh = ground arith;
    signed = ground arith;
    room = ground arith;
    in_order = ground arith;
    funded = ground arith;
    settled = ground arith;
  }

  -- A statement about the loop's variables that each accepted transaction keeps holds at its end.
  pub apply_all_inv {ℓ κ} :
      (P : Progress → Type ℓ) (Q : TransactionEnvelope → Type κ)
      → ((index : ℕ) (tx : TransactionEnvelope) (p p' : Progress)
          → Q tx
          → Applied index tx p p'
          → P p
          → P p')
      → (index : ℕ) (txs : List TransactionEnvelope) (p : Progress) {p' : Progress} → All Q txs
      → apply_all platform config base_fee verifier index txs p ≡ ok p'
      → P p
      → P p'
  unfolding apply_all
  apply_all_inv P Q keep index [] p q h i = subst P (cc) i
  apply_all_inv P Q keep index (tx ∷ txs) p q h i =
      let (p1, first, rest) = >>=-eq-ok _ _ h in
      apply_all_inv P Q keep (index + 1) txs p1 q.1 rest
        (keep index tx p p1 q.0 (apply_transaction-Applied index tx p first) i)

-- The fee rules among the admission rules.
pub validate-fee :
    (config : ProtocolConfig) (tx : TransactionEnvelope) (base_fee : ℕ)
    → validate_transaction config tx base_fee ≡ ok tt
    → (base_fee ≤ tx.max_fee_per_gas) × (tx.max_priority_fee_per_gas ≤ tx.max_fee_per_gas)
unfolding validate_transaction
validate-fee config tx base_fee h = (ground arith, ground arith)

-- A block that is accepted: its accounts normalise, its base fee is defined, its loop ends.
pub execute_block-eq-ok :
    (platform : Platform) (config : ProtocolConfig) (parent gas : ℕ) (accounts : Accounts)
    (txs : List TransactionEnvelope) (verifier : TransactionEnvelope → Bool) {t : BlockTransition}
    → execute_block platform config parent gas accounts txs verifier ≡ ok t
    → (state : Accounts) × (base_fee : ℕ) × (p : Progress) × (normalize_accounts accounts
        ≡ ok state)
      × (next_base_fee config parent gas ≡ ok base_fee)
      × (apply_all platform config base_fee verifier 0 txs (start state) ≡ ok p)
      × (t ≡ transition_of platform config base_fee p)
unfolding execute_block
execute_block-eq-ok platform config parent gas accounts txs verifier h =
    let (state, e1, h1) = >>=-eq-ok _ _ h in
    let (base_fee, e2, h2) = >>=-eq-ok _ _ h1 in
    let (p, e3, h3) = >>=-eq-ok _ _ h2 in (state, base_fee, p, e1, e2, e3, cc)
