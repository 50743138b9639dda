-- ===== src/ProtocolKernel/Execution/Nonces.antt =====
-- The loop of `execute_block`: its nonces, and the hashes of its transactions.
use junca_social_ecosystem_c.Common.{
  ℕ, ◌+◌, ◌≤◌, ◌<◌, ◌≡◌, sym, refl, ap, ◌≢◌, Bool, false, List, [], ◌∷◌, map, arith, if◌then◌else◌,
  insert, ◌-◌, subst, beq_refl, text_iff, ok, ok-injective, >>=-eq-ok, nat_eq, list_eq, ◌=?◌, mem,
  Distinct, lookup_or, lookup_or-insert, lower, Text, Platform, All,
}
use mathlib.Core.List.{Memᴰ}
use junca_social_ecosystem_c.ProtocolKernel.Types.{
  ProtocolConfig, AccountState, empty_account, Accounts, TransactionEnvelope, transaction_hash,
  BlockTransition,
}
use junca_social_ecosystem_c.ProtocolKernel.Execution.{
  Progress, total_debit, transfer, settle, apply_transaction, apply_all, start, execute_block,
}
use junca_social_ecosystem_c.ProtocolKernel.Execution.Step.{
  apply_transaction-Applied, execute_block-eq-ok,
}

abbrev pub nonce_of : Text → Accounts → ℕ
nonce_of a state = (lookup_or empty_account a state).nonce

module _ (platform : Platform) (config : ProtocolConfig) (base_fee : ℕ)
    (verifier : TransactionEnvelope → Bool) where
  transfer-nonce :
      (a : Text) (tx : TransactionEnvelope) (state : Accounts)
      → lower tx.sender ≢ lower tx.recipient
      → nonce_of a (transfer platform config base_fee tx state)
        ≡ nonce_of a state + (if lower tx.sender =? a then 1 else 0)
  unfolding transfer
  transfer-nonce a tx state ne = ground (
    arith,
    text_iff (lower tx.sender) a,
    text_iff (lower tx.recipient) a,
    lookup_or-insert empty_account (lower tx.recipient) a
        (record (lookup_or empty_account (lower tx.recipient) state) {
          balance = (lookup_or empty_account (lower tx.recipient) state).balance + tx.value;
        })
        (insert (lower tx.sender) debited state),
    lookup_or-insert empty_account (lower tx.sender) a debited state,
  )
    where
      debited : AccountState
      debited = record {
        balance =
            (lookup_or empty_account (lower tx.sender) state).balance
            - total_debit platform config base_fee tx;
        nonce = nonce_of (lower tx.sender) state + 1;
      }

  -- No transaction lowers a nonce.
  transfer-nonce_le :
      (a : Text) (tx : TransactionEnvelope) (state : Accounts)
      → nonce_of a state ≤ nonce_of a (transfer platform config base_fee tx state)
  unfolding transfer
  transfer-nonce_le a tx state = ground (
    arith,
    text_iff (lower tx.sender) a,
    text_iff (lower tx.recipient) a,
    lookup_or-insert empty_account (lower tx.recipient) a
        (record (lookup_or empty_account (lower tx.recipient) state) {
          balance = (lookup_or empty_account (lower tx.recipient) state).balance + tx.value;
        })
        (insert (lower tx.sender) debited state),
    lookup_or-insert empty_account (lower tx.sender) a debited state,
  )
    where
      debited : AccountState
      debited = record {
        balance =
            (lookup_or empty_account (lower tx.sender) state).balance
            - total_debit platform config base_fee tx;
        nonce = nonce_of (lower tx.sender) state + 1;
      }

  pub apply_all_nonce_le :
      (a : Text) (index : ℕ) (txs : List TransactionEnvelope) (p : Progress) {p' : Progress}
      → apply_all platform config base_fee verifier index txs p ≡ ok p'
      → nonce_of a p.state ≤ nonce_of a p'.state
  unfolding apply_all settle
  apply_all_nonce_le a index [] p h = rw (← ok-injective h) (omega arith)
  apply_all_nonce_le a index (tx ∷ txs) p h =
      let (p1, first, rest) = >>=-eq-ok _ _ h in
      let applied = apply_transaction-Applied platform config base_fee verifier index tx p first in
      omega (
        arith,
        apply_all_nonce_le a (index + 1) txs p1 rest,
        ap (λ (s : Progress). nonce_of a s.state) applied.settled,
        transfer-nonce_le a tx p.state,
      )

  -- What the loop accepts has a nonce that its sender had not used before.
  pub apply_all-unused :
      (index : ℕ) (txs : List TransactionEnvelope) (p : Progress) {p' : Progress}
      (tx : TransactionEnvelope)
      → Memᴰ tx txs
      → apply_all platform config base_fee verifier index txs p ≡ ok p'
      → nonce_of (lower tx.sender) p.state ≤ tx.nonce
  unfolding apply_all settle
  apply_all-unused index [] p tx held h = elim held [ ]
  apply_all-unused index (first ∷ txs) p tx (Memᴰ.head e) h =
      let (p1, h1, rest) = >>=-eq-ok _ _ h in
      let applied = apply_transaction-Applied platform config base_fee verifier index first p h1 in
      subst (λ (t : TransactionEnvelope). nonce_of (lower t.sender) p.state ≤ t.nonce) (sym e)
        (omega (arith, applied.in_order))
  apply_all-unused index (first ∷ txs) p tx (Memᴰ.tail at_later) h =
      let (p1, h1, rest) = >>=-eq-ok _ _ h in
      let applied = apply_transaction-Applied platform config base_fee verifier index first p h1 in
      omega (
        arith,
        apply_all-unused (index + 1) txs p1 tx at_later rest,
        ap (λ (s : Progress). nonce_of (lower tx.sender) s.state) applied.settled,
        transfer-nonce_le (lower tx.sender) first p.state,
      )

  -- What the loop accepts uses up its nonce, unless it goes from an account to itself.
  pub apply_all-used :
      (index : ℕ) (txs : List TransactionEnvelope) (p : Progress) {p' : Progress}
      (tx : TransactionEnvelope)
      → Memᴰ tx txs
      → lower tx.sender ≢ lower tx.recipient
      → apply_all platform config base_fee verifier index txs p ≡ ok p'
      → tx.nonce < nonce_of (lower tx.sender) p'.state
  unfolding apply_all settle
  apply_all-used index [] p tx held apart h = elim held [ ]
  apply_all-used index (first ∷ txs) p {p'} tx (Memᴰ.head e) apart h =
      let (p1, h1, rest) = >>=-eq-ok _ _ h in
      let applied = apply_transaction-Applied platform config base_fee verifier index first p h1 in
      let differ : lower first.sender ≢ lower first.recipient =
        subst (λ (t : TransactionEnvelope). lower t.sender ≢ lower t.recipient) e apart in
      subst (λ (t : TransactionEnvelope). t.nonce < nonce_of (lower t.sender) p'.state) (sym e)
        (omega (
          arith,
          applied.in_order,
          transfer-sender first p.state differ,
          ap (λ (s : Progress). nonce_of (lower first.sender) s.state) applied.settled,
          apply_all_nonce_le (lower first.sender) (index + 1) txs p1 rest,
        ))
    where
      transfer-sender :
          (t : TransactionEnvelope) (state : Accounts)
          → lower t.sender ≢ lower t.recipient
          → nonce_of (lower t.sender) (transfer platform config base_fee t state)
            ≡ nonce_of (lower t.sender) state + 1
      transfer-sender t state differ =
          rw (transfer-nonce (lower t.sender) t state differ, beq_refl (lower t.sender)) refl
  apply_all-used index (first ∷ txs) p tx (Memᴰ.tail at_later) apart h =
      let (p1, h1, rest) =
        >>=-eq-ok (apply_transaction platform config base_fee verifier index first p) _ h in
      apply_all-used (index + 1) txs p1 tx at_later apart rest

  unseen_cons :
      (x : Text) (seen : List Text) (txs : List TransactionEnvelope)
      → All (λ t. mem (transaction_hash platform t) (x ∷ seen) ≡ false) txs
      → All (λ t. mem (transaction_hash platform t) seen ≡ false) txs
        × (mem x (map (transaction_hash platform) txs) ≡ false)
  unseen_cons x seen [] h = (tt, refl)
  unseen_cons x seen (tx ∷ txs) h =
      let rest = unseen_cons x seen txs h.1 in
      ground (
        arith,
        text_iff (transaction_hash platform tx) x,
        text_iff x (transaction_hash platform tx),
      )

  unseen :
      (index : ℕ) (txs : List TransactionEnvelope) (p : Progress) {p' : Progress}
      → apply_all platform config base_fee verifier index txs p ≡ ok p'
      → All (λ tx. mem (transaction_hash platform tx) p.seen_hashes ≡ false) txs
        × Distinct (map (transaction_hash platform) txs)
  unfolding apply_all settle
  unseen index [] p h = (tt, tt)
  unseen index (tx ∷ txs) p h =
      let (p1, first, rest) = >>=-eq-ok _ _ h in
      let a = apply_transaction-Applied platform config base_fee verifier index tx p first in
      let (others, distinct) = unseen (index + 1) txs p1 rest in
      let (old, new) = unseen_cons (transaction_hash platform tx) p.seen_hashes txs (
        subst
          (λ (s : Progress). All (λ t. mem (transaction_hash platform t) s.seen_hashes ≡ false) txs)
          a.settled others) in
      ((a.fresh, old), (new, distinct))

-- The transactions of an accepted block have pairwise different hashes.
pub execute_block-Distinct :
    (platform : Platform) (config : ProtocolConfig) (parent gas : ℕ) (accounts : Accounts)
    (txs : List TransactionEnvelope) (verifier : TransactionEnvelope → Bool) {t : BlockTransition}
    → execute_block platform config parent gas accounts txs verifier ≡ ok t
    → Distinct (map (transaction_hash platform) txs)
execute_block-Distinct platform config parent gas accounts txs verifier h =
    let (state, base_fee, p, _, _, e3, _) =
      execute_block-eq-ok platform config parent gas accounts txs verifier h in
    (unseen platform config base_fee verifier 0 txs (start state) e3).1
