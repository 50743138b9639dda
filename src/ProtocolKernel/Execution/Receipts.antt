-- ===== src/ProtocolKernel/Execution/Receipts.antt =====
-- The receipts, the gas and the fees of an accepted block.
use junca_social_ecosystem_c.Common.{
  ℕ, ◌+◌, ◌*◌, ◌≤◌, ◌≡◌, refl, sym, ap, append-nil, append_assoc, ◌∙◌, Bool, List, [], ◌∷◌, ◌++◌,
  arith, ok, ok-injective, >>=-eq-ok, Platform, length, sum_by, length-append, sum_by-append,
}
use junca_social_ecosystem_c.ProtocolKernel.Types.{
  ProtocolConfig, TransactionEnvelope, TransactionReceipt, BlockTransition, Accounts,
}
use junca_social_ecosystem_c.ProtocolKernel.Execution.{
  Progress, priority_fee, receipt_of, settle, apply_transaction, apply_all, start, transition_of,
  execute_block,
}
use junca_social_ecosystem_c.ProtocolKernel.Execution.Step.{
  Applied, apply_transaction-Applied, execute_block-eq-ok, validate-fee,
}

-- One receipt for each transaction, in order, numbered from `index`.
abbrev pub receipts_of :
    Platform → ProtocolConfig → ℕ → ℕ → List TransactionEnvelope → List TransactionReceipt
receipts_of platform config base_fee index [] = []
receipts_of platform config base_fee index (tx ∷ txs) =
    receipt_of platform config base_fee index tx
    ∷ receipts_of platform config base_fee (index + 1) txs

module _ (platform : Platform) (config : ProtocolConfig) (base_fee : ℕ)
    (verifier : TransactionEnvelope → Bool) where
  -- The loop's counters against its receipts.
  record Tallied (p : Progress) : Type 0 where
    gas : p.block_gas_used ≡ config.intrinsic_gas * length p.receipts
    burned : p.total_burned ≡ base_fee * p.block_gas_used
    tips : p.total_tips ≡ sum_by (λ r. r.validator_tip) p.receipts
    within : p.block_gas_used ≤ config.block_gas_limit

  Applied-Tallied :
      (index : ℕ) (tx : TransactionEnvelope) (p p' : Progress)
      → Applied platform config base_fee verifier index tx p p'
      → Tallied p
      → Tallied p'
  unfolding settle receipt_of
  Applied-Tallied index tx p p' a t = rw a.settled (record {
    gas = omega (
      arith,
      ap (λ (n : ℕ). config.intrinsic_gas * n)
          (length-append p.receipts (receipt_of platform config base_fee index tx ∷ [])),
      t.gas,
    );
    burned = grind (arith, t.burned);
    tips = omega (
      arith,
      sum_by-append (λ (r : TransactionReceipt). r.validator_tip) p.receipts
          (receipt_of platform config base_fee index tx ∷ []),
      t.tips,
    );
    within = omega (arith, a.room);
  })

  apply_all-Tallied :
      (index : ℕ) (txs : List TransactionEnvelope) (p : Progress) {p' : Progress}
      → apply_all platform config base_fee verifier index txs p ≡ ok p'
      → Tallied p
      → Tallied p' × (p'.receipts ≡ p.receipts ++ receipts_of platform config base_fee index txs)
  unfolding apply_all settle
  apply_all-Tallied index [] p h t = rw (← ok-injective h) (t, sym (append-nil p.receipts))
  apply_all-Tallied index (tx ∷ txs) p h t =
      let (p1, first, rest) = >>=-eq-ok _ _ h in
      let a = apply_transaction-Applied platform config base_fee verifier index tx p first in
      let (t', e) = apply_all-Tallied (index + 1) txs p1 rest (Applied-Tallied index tx p p1 a t) in
      (t', e ∙ rw a.settled (append_assoc p.receipts _ _))

-- An accepted block has one receipt for each transaction, in order, made by `receipt_of` at the
-- block's base fee. Its gas is the intrinsic gas of each, within the block gas limit; the burned
-- total is the base fee times the gas, and the tips are those of the receipts.
pub execute_block_receipts :
    (platform : Platform) (config : ProtocolConfig) (parent gas : ℕ) (accounts : Accounts)
    (txs : List TransactionEnvelope) (verifier : TransactionEnvelope → Bool) {t : BlockTransition}
    → execute_block platform config parent gas accounts txs verifier ≡ ok t
    → (t.receipts ≡ receipts_of platform config t.base_fee_per_gas 0 txs)
      × (t.gas_used ≡ config.intrinsic_gas * length t.receipts)
      × (t.gas_used ≤ config.block_gas_limit)
      × (t.total_base_fee_burned ≡ t.base_fee_per_gas * t.gas_used)
      × (t.total_validator_tips ≡ sum_by (λ r. r.validator_tip) t.receipts)
unfolding transition_of
execute_block_receipts platform config parent gas accounts txs verifier h =
    let (state, base_fee, p, _, _, e3, e4) =
      execute_block-eq-ok platform config parent gas accounts txs verifier h in
    let (t, e) =
      apply_all-Tallied platform config base_fee verifier 0 txs (start state) e3
        (record { gas = omega arith; burned = omega arith; tips = refl; within = omega arith }) in
    rw (e4, transition_of) (e, t.gas, t.within, t.burned, t.tips)

-- An accepted transaction pays at least the base fee and at most its fee cap for each unit of gas,
-- and its tip for each unit is at most its priority cap.
pub apply_transaction_price :
    (platform : Platform) (config : ProtocolConfig) (base_fee : ℕ)
    (verifier : TransactionEnvelope → Bool) (index : ℕ) (tx : TransactionEnvelope) (p : Progress)
    {p' : Progress}
    → apply_transaction platform config base_fee verifier index tx p ≡ ok p'
    → let r = receipt_of platform config base_fee index tx in
      (p'.receipts ≡ p.receipts ++ r ∷ [])
      × (base_fee ≤ r.effective_gas_price)
      × (r.effective_gas_price ≤ tx.max_fee_per_gas)
      × (r.validator_tip ≤ config.intrinsic_gas * tx.max_priority_fee_per_gas)
unfolding settle receipt_of priority_fee
apply_transaction_price platform config base_fee verifier index tx p h =
    let a = apply_transaction-Applied platform config base_fee verifier index tx p h in
    (rw a.settled, omega arith, omega (arith, validate-fee config tx base_fee a.valid), grind arith)
