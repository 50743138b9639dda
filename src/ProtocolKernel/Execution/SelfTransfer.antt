-- ===== src/ProtocolKernel/Execution/SelfTransfer.antt =====
-- Transfers from an account to itself: `execute_block` reads the recipient before it writes the
-- sender, so the second write undoes the first.
use junca_social_ecosystem_c.Common.{
  ℕ, ◌+◌, ◌-◌, ◌≡◌, refl, sym, ap, ◌∙◌, some, Bool, [], ◌∷◌, arith, ok, ok-injective, >>=-eq-ok,
  nat_eq, list_eq, insert, lookup, lookup_or, lookup-insert_self, sum_values-insert_or,
  sum_by-sort_by, text_leb, lower, Text, Platform, lookup_or-insert_self,
}
use junca_social_ecosystem_c.ProtocolKernel.Types.{
  ProtocolConfig, AccountState, empty_account, Accounts, TransactionEnvelope, BlockTransition,
}
use junca_social_ecosystem_c.ProtocolKernel.Execution.{
  Progress, total_debit, transfer, settle, apply_all, start, transition_of, execute_block,
}
use junca_social_ecosystem_c.ProtocolKernel.Execution.Step.{
  apply_transaction-Applied, execute_block-eq-ok,
}
use junca_social_ecosystem_c.ProtocolKernel.Execution.Conservation.{
  total_balance, normalize_from-total,
}

module _ (platform : Platform) (config : ProtocolConfig) (base_fee : ℕ) where
  -- A transfer from an account to itself adds its value to the balance, takes no fee, and leaves
  -- the nonce as it was.
  pub transfer_self :
      (tx : TransactionEnvelope) (state : Accounts)
      → lower tx.recipient ≡ lower tx.sender
      → let account = lookup_or empty_account (lower tx.sender) state in
        lookup (lower tx.sender) (transfer platform config base_fee tx state)
        ≡ some (record account { balance = account.balance + tx.value })
  unfolding transfer
  transfer_self tx state same = rw same (lookup-insert_self (lower tx.sender) _ _)

  transfer_self-total :
      (tx : TransactionEnvelope) (state : Accounts)
      → lower tx.recipient ≡ lower tx.sender
      → total_balance (transfer platform config base_fee tx state) ≡ total_balance state + tx.value
  unfolding transfer
  transfer_self-total tx state same = rw same (
      omega (
        arith,
        sum_values-insert_or (λ (a : AccountState). a.balance) (lower tx.sender) debited
            empty_account state refl,
        sum_values-insert_or (λ (a : AccountState). a.balance) (lower tx.sender) credited
            empty_account (insert (lower tx.sender) debited state) refl,
        ap (λ (a : AccountState). a.balance)
            (lookup_or-insert_self empty_account (lower tx.sender) debited state),
      ))
    where
      debited : AccountState
      debited = record {
        balance =
            (lookup_or empty_account (lower tx.sender) state).balance
            - total_debit platform config base_fee tx;
        nonce = (lookup_or empty_account (lower tx.sender) state).nonce + 1;
      }

      credited : AccountState
      credited = record (lookup_or empty_account (lower tx.sender) state) {
        balance = (lookup_or empty_account (lower tx.sender) state).balance + tx.value;
      }

-- A block whose one transaction goes from an account to itself, and which is accepted, raises the
-- sum of the balances by the transaction's value.
pub self_transfer_mints :
    (platform : Platform) (config : ProtocolConfig) (parent gas : ℕ) (accounts : Accounts)
    (tx : TransactionEnvelope) (verifier : TransactionEnvelope → Bool) {t : BlockTransition}
    → lower tx.recipient ≡ lower tx.sender
    → execute_block platform config parent gas accounts (tx ∷ []) verifier ≡ ok t
    → total_balance t.accounts ≡ total_balance accounts + tx.value
unfolding transition_of apply_all settle
self_transfer_mints platform config parent gas accounts tx verifier same h =
    let (state, base_fee, p, e1, _, e3, e4) =
      execute_block-eq-ok platform config parent gas accounts (tx ∷ []) verifier h in
    let (p1, first, rest) = >>=-eq-ok _ _ e3 in
    let applied =
      apply_transaction-Applied platform config base_fee verifier 0 tx (start state) first in
    rw (e4, transition_of)
      (omega (
        arith,
        sum_by-sort_by (λ (a b : Text × AccountState). text_leb a.0 b.0)
            (λ (entry : Text × AccountState). entry.1.balance) p.state,
        ap (λ (q : Progress). total_balance q.state) (sym (ok-injective rest) ∙ applied.settled),
        transfer_self-total platform config base_fee tx state same,
        normalize_from-total [] accounts e1,
      ))
