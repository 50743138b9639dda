-- ===== src/ProtocolKernel/Execution.antt =====
-- protocol_kernel.py, `execute_block`: a block of transfers over the accounts.
pub mod Step
pub mod Conservation
pub mod Receipts
pub mod Nonces
pub mod SelfTransfer
use junca_social_ecosystem_c.Common.{
  ℕ, ◌+◌, ◌-◌, ◌*◌, min, Bool, not, List, [], ◌∷◌, ◌++◌, ltb, ◌==◌, mem, Result, ok, ◌>>=◌, ◌>>◌,
  raise_if, nat_eq, list_eq, insert, lookup_or, contains, Text, codes, lower, text_leb, sort_by,
  Json, object, array, text, number, end, field, to_items, Platform,
}
use junca_social_ecosystem_c.ProtocolKernel.Types.{
  ProtocolConfig, AccountState, empty_account, Accounts, TransactionEnvelope, transaction_hash,
  TransactionReceipt, BlockTransition, KernelError, address, validate_transaction,
  duplicate_account, duplicate_transaction, signature_rejected, block_gas_exceeded, nonce_mismatch,
  insufficient_balance,
}
use junca_social_ecosystem_c.ProtocolKernel.BaseFee.{next_base_fee}

-- `_normalize_accounts`, from the accounts read so far.
unfoldable pub normalize_from : Accounts → Accounts → Result KernelError Accounts
normalize_from normalized [] = ok normalized
normalize_from normalized ((name, account) ∷ rest) = do
  key ← address name
  raise_if (contains key normalized) duplicate_account
  normalize_from (insert key account normalized) rest

abbrev pub normalize_accounts : Accounts → Result KernelError Accounts
normalize_accounts = normalize_from []

account_json : Text × AccountState → Json
account_json (name, account) = object (
    field (codes "address") (text (lower name)) (
      field (codes "balance") (number account.balance)
        (field (codes "nonce") (number account.nonce) end)))

-- `sorted(accounts.items())`: the keys differ, so they decide.
abbrev pub sorted_accounts : Accounts → Accounts
sorted_accounts = sort_by λ a b. text_leb a.0 b.0

unfoldable pub compute_state_root : Platform → Accounts → Text
unfolding account_json
compute_state_root platform accounts =
    codes "0x"
    ++ platform.sha256 (platform.dumps (array (to_items account_json (sorted_accounts accounts))))

-- The variables of the loop in `execute_block`.
pub record Progress : Type 0 where
  pub state : Accounts
  pub receipts : List TransactionReceipt
  pub seen_hashes : List Text
  pub block_gas_used : ℕ
  pub total_burned : ℕ
  pub total_tips : ℕ

unfoldable pub priority_fee : TransactionEnvelope → ℕ → ℕ
priority_fee tx base_fee = min tx.max_priority_fee_per_gas (tx.max_fee_per_gas - base_fee)

module _ (platform : Platform) (config : ProtocolConfig) (base_fee : ℕ) where
  unfoldable pub total_debit : TransactionEnvelope → ℕ
  total_debit tx = tx.value + config.intrinsic_gas * (base_fee + priority_fee tx base_fee)

  unfoldable pub receipt_of : ℕ → TransactionEnvelope → TransactionReceipt
  receipt_of index tx = record {
    transaction_hash = transaction_hash platform tx;
    transaction_index = index;
    sender = lower tx.sender;
    recipient = lower tx.recipient;
    gas_used = config.intrinsic_gas;
    effective_gas_price = base_fee + priority_fee tx base_fee;
    base_fee_burned = config.intrinsic_gas * base_fee;
    validator_tip = config.intrinsic_gas * priority_fee tx base_fee;
  }

  -- The two writes: both accounts are read before the first of them.
  unfoldable pub transfer : TransactionEnvelope → Accounts → Accounts
  transfer tx state =
      let sender = lookup_or empty_account (lower tx.sender) state in
      let recipient = lookup_or empty_account (lower tx.recipient) state in
      insert (lower tx.recipient) (record recipient { balance = recipient.balance + tx.value })
        (insert (lower tx.sender)
          (record { balance = sender.balance - total_debit tx; nonce = sender.nonce + 1 }) state)

  -- What an accepted transaction changes.
  unfoldable pub settle : ℕ → TransactionEnvelope → Progress → Progress
  settle index tx p = record {
    state = transfer tx p.state;
    receipts = p.receipts ++ receipt_of index tx ∷ [];
    seen_hashes = transaction_hash platform tx ∷ p.seen_hashes;
    block_gas_used = p.block_gas_used + config.intrinsic_gas;
    total_burned = p.total_burned + config.intrinsic_gas * base_fee;
    total_tips = p.total_tips + config.intrinsic_gas * priority_fee tx base_fee;
  }

  -- One round of the loop.
  unfoldable pub apply_transaction :
      (TransactionEnvelope → Bool)
      → ℕ
      → TransactionEnvelope
      → Progress
      → Result KernelError Progress
  apply_transaction signature_verifier index tx p = do
    validate_transaction config tx base_fee
    raise_if (mem (transaction_hash platform tx) p.seen_hashes) duplicate_transaction
    raise_if (not (signature_verifier tx)) signature_rejected
    raise_if (ltb config.block_gas_limit (p.block_gas_used + config.intrinsic_gas))
        block_gas_exceeded
    let sender = lookup_or empty_account (lower tx.sender) p.state
    raise_if (not (tx.nonce == sender.nonce)) nonce_mismatch
    raise_if (ltb sender.balance (total_debit tx)) insufficient_balance
    ok (settle index tx p)

  unfoldable pub apply_all :
      (TransactionEnvelope → Bool)
      → ℕ
      → List TransactionEnvelope
      → Progress
      → Result KernelError Progress
  apply_all signature_verifier index [] p = ok p
  apply_all signature_verifier index (tx ∷ txs) p = do
    p' ← apply_transaction signature_verifier index tx p
    apply_all signature_verifier (index + 1) txs p'

abbrev pub start : Accounts → Progress
start accounts = record {
  state = accounts;
  receipts = [];
  seen_hashes = [];
  block_gas_used = 0;
  total_burned = 0;
  total_tips = 0;
}

unfoldable pub transition_of : Platform → ProtocolConfig → ℕ → Progress → BlockTransition
transition_of platform config base_fee p = record {
  chain_id = config.chain_id;
  base_fee_per_gas = base_fee;
  gas_used = p.block_gas_used;
  total_base_fee_burned = p.total_burned;
  total_validator_tips = p.total_tips;
  state_root = compute_state_root platform p.state;
  accounts = sorted_accounts p.state;
  receipts = p.receipts;
}

unfoldable pub execute_block :
    Platform
    → ProtocolConfig
    → ℕ
    → ℕ
    → Accounts
    → List TransactionEnvelope
    → (TransactionEnvelope → Bool)
    → Result KernelError BlockTransition
execute_block platform config parent_base_fee parent_gas_used accounts transactions verifier = do
  state ← normalize_accounts accounts
  base_fee ← next_base_fee config parent_base_fee parent_gas_used
  p ← apply_all platform config base_fee verifier 0 transactions (start state)
  ok (transition_of platform config base_fee p)
