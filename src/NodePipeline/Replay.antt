-- ===== src/NodePipeline/Replay.antt =====
-- protocol_kernel.py and node_pipeline.py: nonces from block to block, each block executed on the
-- accounts that the one before it left.
use junca_social_ecosystem_c.Common.{
  ℕ, ◌≤◌, ◌<◌, ◌≡◌, ◌≢◌, refl, ap, ◌∙◌, sym, subst, inl, inr, arith, false, Bool, none, some, List,
  [], ◌∷◌, nat_eq, list_eq, ◌=?◌, text_iff, ok, raise_if, >>=-eq-ok, >>-eq-ok, raise_if-eq-ok,
  ok-injective, ◌>>◌, contains, insert, lookup, lookup-insert_self, lookup-insert_new,
  lookup-sort_by, Entries, All-sort_by, Text, lower, Platform, Bool-cases, Option-cases,
}
use mathlib.Core.List.{Memᴰ}
use junca_social_ecosystem_c.ProtocolKernel.Types.{
  ProtocolConfig, AccountState, Accounts, TransactionEnvelope, BlockTransition, address,
  duplicate_account,
}
use junca_social_ecosystem_c.ProtocolKernel.Execution.{
  Progress, normalize_from, transition_of, execute_block,
}
use junca_social_ecosystem_c.ProtocolKernel.Execution.Step.{execute_block-eq-ok}
use junca_social_ecosystem_c.ProtocolKernel.Execution.Nonces.{
  nonce_of, apply_all_nonce_le, apply_all-unused, apply_all-used,
}
use junca_social_ecosystem_c.StateStore.Accounts.{IsAddress, by_address}
use junca_social_ecosystem_c.NodePipeline.Kernel.{address-IsAddress, Addressed, loop-Addressed}

-- The names of accounts are in the form in which a block leaves them.
abbrev pub AllAddresses : Accounts → Type 0
AllAddresses accounts = Entries IsAddress accounts

lookup-absent :
    (key a : Text) (onto : Accounts) {found : AccountState}
    → contains key onto ≡ false
    → lookup a onto ≡ some found
    → lookup key onto ≡ none
lookup-absent key a onto fresh h = elim (Option-cases (lookup key onto)) [
  | inl absent ↦ absent
  | inr (other, there) ↦ absurd (ground (arith, there, fresh))
]

-- What is there stays while more accounts are normalised onto it.
normalize_from-keeps :
    (a : Text) (onto rest : Accounts) {state : Accounts} {found : AccountState}
    → normalize_from onto rest ≡ ok state
    → lookup a onto ≡ some found
    → lookup a state ≡ some found
unfolding normalize_from
normalize_from-keeps a onto [] {state} {found} h there =
    subst (λ (s : Accounts). lookup a s ≡ some found) (ok-injective h) there
normalize_from-keeps a onto ((name, account) ∷ rest) h there =
    let (key, found, h1) =
      >>=-eq-ok (address name)
        (λ k.
          raise_if (contains k onto) duplicate_account
          >> normalize_from (insert k account onto) rest)
        h in
    let (fresh, h2) = >>-eq-ok (raise_if (contains key onto) duplicate_account) _ h1 in
    let absent = lookup-absent key a onto (raise_if-eq-ok _ _ fresh) there in
    normalize_from-keeps a (insert key account onto) rest h2
      (lookup-insert_new key a account onto absent there)

-- Normalising keeps an account whose name is in lower case already.
normalize_from-lookup :
    (a : Text) (onto rest : Accounts) {state : Accounts} {found : AccountState}
    → normalize_from onto rest ≡ ok state
    → AllAddresses rest
    → lookup a rest ≡ some found
    → lookup a state ≡ some found
unfolding normalize_from
normalize_from-lookup a onto [] h named there = absurd (cc)
normalize_from-lookup a onto ((name, account) ∷ rest) {state} {found} h named there =
    let (key, formed, h1) =
      >>=-eq-ok (address name)
        (λ k.
          raise_if (contains k onto) duplicate_account
          >> normalize_from (insert k account onto) rest)
        h in
    let (fresh, h2) = >>-eq-ok (raise_if (contains key onto) duplicate_account) _ h1 in
    let same : name ≡ key = sym named.0.1 ∙ (address-IsAddress name account formed).0 in
    elim (Bool-cases (name =? a)) [
      | inl this ↦
          let is : some account ≡ some found = rw this at there in
          let key_is : key ≡ a = sym same ∙ (text_iff name a).0 this in
          normalize_from-keeps a (insert key account onto) rest h2 (
            subst (λ (k : Text). lookup k (insert key account onto) ≡ some found) key_is
              (lookup-insert_self key account onto ∙ is))
      | inr other ↦
          normalize_from-lookup a (insert key account onto) rest h2 named.1 (rw other at there)
    ]

normalize_from-nonce_le :
    (a : Text) (accounts : Accounts) {state : Accounts}
    → normalize_from [] accounts ≡ ok state
    → AllAddresses accounts
    → nonce_of a accounts ≤ nonce_of a state
normalize_from-nonce_le a accounts {state} h named = elim (Option-cases (lookup a accounts)) [
  | inl absent ↦ rw (nonce_of, absent) (omega arith)
  | inr (found, there) ↦
      rw (nonce_of, there, normalize_from-lookup a [] accounts h named there) (omega arith)
]

-- Blocks that are accepted one on the accounts of another.
pub data Blocks (platform : Platform) (config : ProtocolConfig) : Accounts → Accounts → Type 0 where
  no_more : {accounts : Accounts} → Blocks platform config accounts accounts
  then_block :
      {accounts last : Accounts} (parent gas : ℕ) (txs : List TransactionEnvelope)
      (verifier : TransactionEnvelope → Bool) (t : BlockTransition)
      → execute_block platform config parent gas accounts txs verifier ≡ ok t
      → Blocks platform config t.accounts last
      → Blocks platform config accounts last

module _ (platform : Platform) (config : ProtocolConfig) where
  -- What a block leaves of the accounts at the end of its loop.
  left_by :
      (p : Progress) (base_fee : ℕ) (a : Text) {t : BlockTransition}
      → Addressed p.state
      → t ≡ transition_of platform config base_fee p
      → (nonce_of a t.accounts ≡ nonce_of a p.state) × AllAddresses t.accounts
  unfolding transition_of
  left_by p base_fee a ended e =
      subst
        (λ (u : BlockTransition).
          (nonce_of a u.accounts ≡ nonce_of a p.state) × AllAddresses u.accounts)
        (sym e)
        (
          rw (nonce_of, lookup-sort_by by_address a p.state ended.keyed) refl,
          All-sort_by by_address (λ (entry : Text × AccountState). IsAddress entry.0 entry.1)
              p.state ended.addresses,
        )

  block_nonce_le :
      (a : Text) (parent gas : ℕ) (accounts : Accounts) (txs : List TransactionEnvelope)
      (verifier : TransactionEnvelope → Bool) {t : BlockTransition}
      → execute_block platform config parent gas accounts txs verifier ≡ ok t
      → AllAddresses accounts
      → (nonce_of a accounts ≤ nonce_of a t.accounts) × AllAddresses t.accounts
  block_nonce_le a parent gas accounts txs verifier h named =
      let (state, base_fee, p, e1, e2, e3, e4) =
        execute_block-eq-ok platform config parent gas accounts txs verifier h in
      let ended = loop-Addressed platform config base_fee accounts txs verifier e1 e3 in
      let (left, names) = left_by p base_fee a ended e4 in
      (
        omega (
          arith,
          left,
          normalize_from-nonce_le a accounts e1 named,
          apply_all_nonce_le platform config base_fee verifier a 0 txs _ e3,
        ),
        names,
      )

  Blocks-nonce_le :
      (a : Text) {accounts last : Accounts}
      → Blocks platform config accounts last
      → AllAddresses accounts
      → (nonce_of a accounts ≤ nonce_of a last) × AllAddresses last
  Blocks-nonce_le a no_more named = (omega arith, named)
  Blocks-nonce_le a {accounts} (then_block parent gas txs verifier t h more) named =
      let (first, names) = block_nonce_le a parent gas accounts txs verifier h named in
      let (rest, last_names) = Blocks-nonce_le a more names in
      (omega (arith, first, rest), last_names)

  -- Take a block that `execute_block` accepts, a transaction in it that does not go from an
  -- account to itself, and any blocks accepted after it, each on the accounts that the one
  -- before it left. Every transaction of the same sender in a block accepted on the accounts at
  -- the end has a greater nonce, whatever the blocks' gas, base fees and verifiers; so the
  -- first transaction is in none.
  pub no_replay :
      (parent gas : ℕ) (accounts : Accounts) (txs : List TransactionEnvelope)
      (verifier : TransactionEnvelope → Bool) {t : BlockTransition}
      → execute_block platform config parent gas accounts txs verifier ≡ ok t
      → (tx : TransactionEnvelope) → Memᴰ tx txs
      → lower tx.sender ≢ lower tx.recipient
      → {last : Accounts} → Blocks platform config t.accounts last
      → (later_parent later_gas : ℕ) (later_txs : List TransactionEnvelope)
        (later_verifier : TransactionEnvelope → Bool) {later : BlockTransition}
      → execute_block platform config later_parent later_gas last later_txs later_verifier
        ≡ ok later
      → (other : TransactionEnvelope) → Memᴰ other later_txs
      → lower other.sender ≡ lower tx.sender
      → tx.nonce < other.nonce
  no_replay parent gas accounts txs verifier h tx held apart {last} blocks later_parent later_gas
        later_txs later_verifier again other other_held same =
      let (state, base_fee, p, e1, e2, e3, e4) =
        execute_block-eq-ok platform config parent gas accounts txs verifier h in
      let (later_state, later_fee, q, f1, f2, f3, f4) =
        execute_block-eq-ok platform config later_parent later_gas last later_txs later_verifier
          again in
      let ended = loop-Addressed platform config base_fee accounts txs verifier e1 e3 in
      let (left, names) = left_by p base_fee (lower tx.sender) ended e4 in
      let (onward, last_names) = Blocks-nonce_le (lower tx.sender) blocks names in
      omega (
        arith,
        left,
        onward,
        normalize_from-nonce_le (lower tx.sender) last f1 last_names,
        apply_all-used platform config base_fee verifier 0 txs _ tx held apart e3,
        apply_all-unused platform config later_fee later_verifier 0 later_txs _ other other_held f3,
        ap (λ (s : Text). nonce_of s later_state) same,
      )
