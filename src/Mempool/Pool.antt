-- ===== src/Mempool/Pool.antt =====
-- mempool.py, `TransactionPool`: admission, removal of included transactions, pruning.
pub mod Synced
pub mod Pruned
pub mod History
pub mod Capacity
use junca_social_ecosystem_c.Common.{
  ℕ, ◌+◌, ◌*◌, ◌-◌, Bool, true, false, not, ◌||◌, Option, none, some, List, [], ◌∷◌, ◌++◌, ltb, leb,
  ◌==◌, length, if◌then◌else◌, keep_if, Eq, nat_eq, list_eq, pair_eq, ◌=?◌, mem, Result, ok, err,
  Check, ◌>>=◌, ◌>>◌, raise_if, Dict, lookup, lookup_or, insert, erase, Text, lower, is_empty,
  text_leb, sort_by, Platform,
}
use junca_social_ecosystem_c.ProtocolKernel.Types.{
  ProtocolConfig, AccountState, empty_account, Accounts, TransactionEnvelope, transaction_hash,
}
use junca_social_ecosystem_c.Mempool.Types.{
  MempoolError, wrong_chain, signature_rejected, nonce_consumed, nonce_gap, gas_out_of_bounds,
  fee_below_base, priority_above_cap, cannot_cover, signature_missing, duplicate_hash, pool_full,
  sender_full, MempoolPolicy, admitted, replaced, AdmissionResult, TransactionPool, key_of, PoolKey,
  remove_hash, add_hash, validate_replacement,
}

abbrev pub sender_count : Text → Dict PoolKey TransactionEnvelope → ℕ
sender_count sender d = length (keep_if (λ entry. entry.0.0 =? sender) d)

module _ (platform : Platform) where
  -- The two writes that end an admission, after the hashes were updated.
  unfoldable pub store : TransactionEnvelope → List Text → TransactionPool → TransactionPool
  store tx hashes pool = record {
    transactions = insert (key_of tx) tx pool.transactions;
    hashes = add_hash (transaction_hash platform tx) hashes;
  }

  -- `del self._transactions[key]` and the removal of the hash.
  unfoldable pub drop_entry :
      PoolKey → TransactionEnvelope → TransactionPool → Result MempoolError TransactionPool
  drop_entry key tx pool = do
    hashes ← remove_hash (transaction_hash platform tx) pool.hashes
    ok (record { transactions = erase key pool.transactions; hashes = hashes })

  unfoldable pub remove_one :
      Option TransactionEnvelope
      → TransactionEnvelope
      → TransactionPool
      → Result MempoolError TransactionPool
  remove_one none tx pool = ok pool
  remove_one (some current) tx pool =
      if transaction_hash platform current =? transaction_hash platform tx
      then drop_entry (key_of tx) current pool
      else ok pool

  unfoldable pub remove_included :
      List TransactionEnvelope → TransactionPool → Result MempoolError TransactionPool
  remove_included [] pool = ok pool
  remove_included (tx ∷ txs) pool = do
    pool' ← remove_one (lookup (key_of tx) pool.transactions) tx pool
    remove_included txs pool'

module _ (platform : Platform) (config : ProtocolConfig) (policy : MempoolPolicy) where
  -- `_validate_admission_boundary`
  unfoldable pub validate_admission_boundary :
      TransactionEnvelope → AccountState → ℕ → (TransactionEnvelope → Bool) → Check MempoolError
  validate_admission_boundary tx account current_base_fee signature_verifier = do
    raise_if (not (tx.chain_id == config.chain_id)) wrong_chain
    raise_if (not (signature_verifier tx)) signature_rejected
    raise_if (ltb tx.nonce account.nonce) nonce_consumed
    raise_if (ltb policy.max_nonce_gap (tx.nonce - account.nonce)) nonce_gap
    raise_if (ltb tx.gas_limit config.intrinsic_gas || ltb config.block_gas_limit tx.gas_limit)
        gas_out_of_bounds
    raise_if (ltb tx.max_fee_per_gas current_base_fee) fee_below_base
    raise_if (ltb tx.max_fee_per_gas tx.max_priority_fee_per_gas) priority_above_cap
    raise_if (ltb account.balance (tx.value + tx.gas_limit * tx.max_fee_per_gas)) cannot_cover
    raise_if (is_empty tx.signature) signature_missing

  unfoldable pub place_new :
      TransactionEnvelope → TransactionPool → Result MempoolError TransactionPool
  place_new tx pool = do
    raise_if (leb policy.max_transactions (length pool.transactions)) pool_full
    raise_if (leb policy.max_per_sender (sender_count (lower tx.sender) pool.transactions))
        sender_full
    ok (store platform tx pool.hashes pool)

  unfoldable pub replace :
      TransactionEnvelope
      → TransactionEnvelope
      → TransactionPool
      → Result MempoolError TransactionPool
  replace current tx pool = do
    validate_replacement policy current tx
    hashes ← remove_hash (transaction_hash platform current) pool.hashes
    ok (store platform tx hashes pool)

  -- The branch of `admit` on the transaction that holds the key.
  unfoldable pub admit_over :
      Option TransactionEnvelope
      → TransactionEnvelope
      → TransactionPool
      → Result MempoolError TransactionPool
  admit_over none tx pool = place_new tx pool
  admit_over (some current) tx pool = replace current tx pool

  -- `admit`: the pool afterwards, if nothing is raised.
  unfoldable pub admit :
      TransactionEnvelope
      → AccountState
      → ℕ
      → (TransactionEnvelope → Bool)
      → TransactionPool
      → Result MempoolError TransactionPool
  admit tx account current_base_fee signature_verifier pool = do
    validate_admission_boundary tx account current_base_fee signature_verifier
    raise_if (mem (transaction_hash platform tx) pool.hashes) duplicate_hash
    admit_over (lookup (key_of tx) pool.transactions) tx pool

  -- What `admit` returns, from the pools before and after it.
  unfoldable pub admission_result :
      TransactionEnvelope → TransactionPool → TransactionPool → AdmissionResult
  admission_result tx before after = record {
    transaction_hash = transaction_hash platform tx;
    status = elim (lookup (key_of tx) before.transactions) [ none ↦ admitted | some _ ↦ replaced ];
    pool_size = length after.transactions;
  }

  -- The test of `prune`.
  unfoldable pub is_stale : Accounts → ℕ → PoolKey → TransactionEnvelope → Bool
  is_stale accounts current_base_fee key tx =
      let account = lookup_or empty_account key.0 accounts in
      ltb tx.nonce account.nonce
      || ltb tx.max_fee_per_gas current_base_fee
      || ltb policy.max_nonce_gap (tx.nonce - account.nonce)

  -- The loop of `prune` over the items that the pool had at its start.
  unfoldable pub prune_items :
      Accounts
      → ℕ
      → Dict PoolKey TransactionEnvelope
      → TransactionPool
      → List Text
      → Result MempoolError (TransactionPool × List Text)
  prune_items accounts current_base_fee [] pool removed = ok (pool, removed)
  prune_items accounts current_base_fee ((key, tx) ∷ items) pool removed =
      elim (is_stale accounts current_base_fee key tx) [
        | true ↦ do
          pool' ← drop_entry platform key tx pool
          prune_items accounts current_base_fee items pool'
              (removed ++ transaction_hash platform tx ∷ [])
        | false ↦ prune_items accounts current_base_fee items pool removed
      ]

  -- `prune`: the pool afterwards, and the sorted hashes removed.
  unfoldable pub prune :
      Accounts → ℕ → TransactionPool → Result MempoolError (TransactionPool × List Text)
  prune accounts current_base_fee pool = do
    (pool', removed) ← prune_items accounts current_base_fee pool.transactions pool []
    ok (pool', sort_by text_leb removed)
