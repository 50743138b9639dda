-- ===== src/ProtocolKernel/Execution/Conservation.antt =====
-- The money of a block: what leaves the accounts is burned or paid as tips.
use junca_social_ecosystem_c.Common.{
  ℕ, ◌+◌, ◌-◌, ◌≤◌, ◌≡◌, ◌≢◌, Bool, List, arith, ok, nat_eq, list_eq, insert, lookup_or,
  lookup_or-insert_ne, lookup-contains-false, sum_values, sum_values-insert_new, sum_by-sort_by,
  text_leb, refl, ap, ◌∙◌, [], ◌∷◌, >>=-eq-ok, >>-eq-ok, ok-injective, raise_if-eq-ok, raise_if,
  contains, ◌>>◌, sum_values-insert_or, lower, Text, Platform, All,
}
use junca_social_ecosystem_c.ProtocolKernel.Types.{
  ProtocolConfig, AccountState, empty_account, Accounts, TransactionEnvelope, BlockTransition,
  duplicate_account, address,
}
use junca_social_ecosystem_c.ProtocolKernel.Execution.{
  apply_all, normalize_from, start, transition_of, execute_block, Progress, total_debit, transfer,
  settle,
}
use junca_social_ecosystem_c.ProtocolKernel.Execution.Step.{
  Applied, apply_all_inv, execute_block-eq-ok,
}

abbrev pub total_balance : Accounts → ℕ
total_balance = sum_values λ account. account.balance

module _ (platform : Platform) (config : ProtocolConfig) (base_fee : ℕ)
    (verifier : TransactionEnvelope → Bool) where
  transfer-total :
      (tx : TransactionEnvelope) (state : Accounts)
      → lower tx.sender ≢ lower tx.recipient
      → total_debit platform config base_fee tx
        ≤ (lookup_or empty_account (lower tx.sender) state).balance
      → total_balance (transfer platform config base_fee tx state)
          + total_debit platform config base_fee tx
        ≡ total_balance state + tx.value
  unfolding transfer
  transfer-total tx state ne funded = omega (
    arith,
    sum_values-insert_or (λ (a : AccountState). a.balance) (lower tx.sender) (debited) empty_account
        state refl,
    sum_values-insert_or (λ (a : AccountState). a.balance) (lower tx.recipient) (credited)
        empty_account (insert (lower tx.sender) debited state) refl,
    ap (λ (a : AccountState). a.balance)
        (lookup_or-insert_ne empty_account (lower tx.sender) (lower tx.recipient) debited state ne),
  )
    where
      sender : AccountState
      sender = lookup_or empty_account (lower tx.sender) state

      recipient : AccountState
      recipient = lookup_or empty_account (lower tx.recipient) state

      debited : AccountState
      debited = record {
        balance = sender.balance - total_debit platform config base_fee tx;
        nonce = sender.nonce + 1;
      }

      credited : AccountState
      credited = record recipient { balance = recipient.balance + tx.value }

  -- The balances with what was burned and tipped so far.
  abbrev money : Progress → ℕ
  money p = total_balance p.state + p.total_burned + p.total_tips

  Applied-money :
      (index : ℕ) (tx : TransactionEnvelope) (p p' : Progress)
      → lower tx.sender ≢ lower tx.recipient
      → Applied platform config base_fee verifier index tx p p'
      → money p' ≡ money p
  unfolding settle total_debit
  Applied-money index tx p p' ne a =
      rw a.settled (omega (arith, transfer-total tx p.state ne a.funded))

  pub apply_all-money :
      (index : ℕ) (txs : List TransactionEnvelope) (p : Progress) {p' : Progress}
      → All (λ tx. lower tx.sender ≢ lower tx.recipient) txs
      → apply_all platform config base_fee verifier index txs p ≡ ok p'
      → money p' ≡ money p
  apply_all-money index txs p q h =
      apply_all_inv platform config base_fee verifier (λ s. money s ≡ money p)
        (λ tx. lower tx.sender ≢ lower tx.recipient)
        (λ i tx s s' ne a e. Applied-money i tx s s' ne a ∙ e) index txs p q h refl

pub normalize_from-total :
    (done rest : Accounts) {state : Accounts}
    → normalize_from done rest ≡ ok state
    → total_balance state ≡ total_balance done + total_balance rest
unfolding normalize_from
normalize_from-total done [] h = rw (← ok-injective h) (omega arith)
normalize_from-total done ((name, account) ∷ rest) h =
    let (key, _, h1) =
      >>=-eq-ok (address name)
        (λ k.
          raise_if (contains k done) duplicate_account
          >> normalize_from (insert k account done) rest)
        h in
    let (fresh, h2) =
      >>-eq-ok (raise_if (contains key done) duplicate_account)
        (normalize_from (insert key account done) rest) h1 in
    omega (
      arith,
      normalize_from-total (insert key account done) rest h2,
      sum_values-insert_new (λ (a : AccountState). a.balance) key account done
          (lookup-contains-false key done (raise_if-eq-ok _ duplicate_account fresh)),
    )

-- In an accepted block without transfers from an account to itself, the balances after it, what
-- was burned and the tips add up to the balances before it.
pub execute_block_conserves :
    (platform : Platform) (config : ProtocolConfig) (parent gas : ℕ) (accounts : Accounts)
    (txs : List TransactionEnvelope) (verifier : TransactionEnvelope → Bool) {t : BlockTransition}
    → All (λ tx. lower tx.sender ≢ lower tx.recipient) txs
    → execute_block platform config parent gas accounts txs verifier ≡ ok t
    → total_balance t.accounts + t.total_base_fee_burned + t.total_validator_tips
      ≡ total_balance accounts
unfolding transition_of
execute_block_conserves platform config parent gas accounts txs verifier q h =
    let (state, base_fee, p, e1, _, e3, e4) =
      execute_block-eq-ok platform config parent gas accounts txs verifier h in
    rw (e4, transition_of)
      (omega (
        arith,
        sum_by-sort_by (λ (a b : Text × AccountState). text_leb a.0 b.0)
            (λ (entry : Text × AccountState). entry.1.balance) p.state,
        apply_all-money platform config base_fee verifier 0 txs (start state) q e3,
        normalize_from-total [] accounts e1,
      ))
