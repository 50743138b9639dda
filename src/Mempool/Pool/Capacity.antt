-- ===== src/Mempool/Pool/Capacity.antt =====
-- mempool.py, `TransactionPool`: the bounds of the policy, the fee bump of a replacement, and
-- what a call of `admit` leaves in the pool.
use junca_social_ecosystem_c.Common.{
  ℕ, ◌+◌, ◌*◌, ◌≤◌, ◌≡◌, inl, inr, Bool, none, some, [], ◌∷◌, arith, if◌then◌else◌, Option-cases,
  length, length-insert_new, length-insert_old, length-erase-le, nat_eq, list_eq, pair_eq, ◌=?◌,
  text_iff, ok, Dict, lookup, insert, erase, Text, lower, Platform, lookup-insert,
}
use junca_social_ecosystem_c.ProtocolKernel.Types.{
  ProtocolConfig, AccountState, TransactionEnvelope,
}
use junca_social_ecosystem_c.Mempool.Types.{
  MempoolPolicy, TransactionPool, key_of, PoolKey, validate_replacement, required_fee,
}
use junca_social_ecosystem_c.Mempool.Pool.{
  sender_count, store, place_new, replace, admit_over, admit, drop_entry,
}

pub sender_count-insert_new :
    (s : Text) (key : PoolKey) (tx : TransactionEnvelope) (d : Dict PoolKey TransactionEnvelope)
    → lookup key d ≡ none
    → sender_count s (insert key tx d) ≡ sender_count s d + (if key.0 =? s then 1 else 0)
sender_count-insert_new s key tx [] h = ground arith
sender_count-insert_new s key tx ((j, w) ∷ d) h = ground (arith, sender_count-insert_new s key tx d)

sender_count-insert_old :
    (s : Text) (key : PoolKey) (tx old : TransactionEnvelope) (d : Dict PoolKey TransactionEnvelope)
    → lookup key d ≡ some old
    → sender_count s (insert key tx d) ≡ sender_count s d
sender_count-insert_old s key tx old [] h = cc
sender_count-insert_old s key tx old ((j, w) ∷ d) h =
    ground (arith, sender_count-insert_old s key tx old d)

sender_count-erase-le :
    (s : Text) (key : PoolKey) (d : Dict PoolKey TransactionEnvelope)
    → sender_count s (erase key d) ≤ sender_count s d
sender_count-erase-le s key [] = omega arith
sender_count-erase-le s key ((j, w) ∷ d) = ground (arith, sender_count-erase-le s key d)

module _ (policy : MempoolPolicy) where
  pub record Within (pool : TransactionPool) : Type 0 where
    pub total : length pool.transactions ≤ policy.max_transactions
    pub per_sender : (s : Text) → sender_count s pool.transactions ≤ policy.max_per_sender

  module _ (platform : Platform) (config : ProtocolConfig) where
    admit_over-Within :
        (tx : TransactionEnvelope) (pool : TransactionPool) {pool' : TransactionPool}
        → admit_over platform config policy (lookup (key_of tx) pool.transactions) tx pool
          ≡ ok pool'
        → Within pool
        → Within pool'
    unfolding admit_over place_new replace store
    admit_over-Within tx pool h w = elim (Option-cases (lookup (key_of tx) pool.transactions)) [
      | inl free ↦ record {
        total = ground (arith, length-insert_new (key_of tx) tx pool.transactions);
        per_sender = λ s. ground (
          arith,
          sender_count-insert_new s (key_of tx) tx pool.transactions free,
          w.per_sender s,
          text_iff (lower tx.sender) s,
        );
      }
      | inr (current, found) ↦ record {
        total = ground (arith, length-insert_old (key_of tx) tx current pool.transactions);
        per_sender = λ s. ground (
          arith,
          sender_count-insert_old s (key_of tx) tx current pool.transactions found,
          w.per_sender s,
        );
      }
    ]

    admit_through :
        (tx : TransactionEnvelope) (account : AccountState) (base_fee : ℕ)
        (verifier : TransactionEnvelope → Bool) (pool : TransactionPool) {pool' : TransactionPool}
        → admit platform config policy tx account base_fee verifier pool ≡ ok pool'
        → admit_over platform config policy (lookup (key_of tx) pool.transactions) tx pool
          ≡ ok pool'
    unfolding admit
    admit_through tx account base_fee verifier pool h = ground arith

    pub admit-Within :
        (tx : TransactionEnvelope) (account : AccountState) (base_fee : ℕ)
        (verifier : TransactionEnvelope → Bool) (pool : TransactionPool) {pool' : TransactionPool}
        → admit platform config policy tx account base_fee verifier pool ≡ ok pool'
        → Within pool
        → Within pool'
    admit-Within tx account base_fee verifier pool h =
        admit_over-Within tx pool (admit_through tx account base_fee verifier pool h)

    admit_over-transactions :
        (tx : TransactionEnvelope) (pool : TransactionPool) {pool' : TransactionPool}
        → admit_over platform config policy (lookup (key_of tx) pool.transactions) tx pool
          ≡ ok pool'
        → pool'.transactions ≡ insert (key_of tx) tx pool.transactions
    unfolding admit_over place_new replace store
    admit_over-transactions tx pool h = ground arith

    -- An accepted transaction is filed under its sender and nonce, and nothing else changes.
    pub admit_effect :
        (tx : TransactionEnvelope) (account : AccountState) (base_fee : ℕ)
        (verifier : TransactionEnvelope → Bool) (pool : TransactionPool) {pool' : TransactionPool}
        → admit platform config policy tx account base_fee verifier pool ≡ ok pool'
        → (key : PoolKey)
        → lookup key pool'.transactions
          ≡ (if key_of tx =? key then some tx else lookup key pool.transactions)
    admit_effect tx account base_fee verifier pool h key =
        rw (admit_over-transactions tx pool (admit_through tx account base_fee verifier pool h))
          (lookup-insert (key_of tx) key tx pool.transactions)

    -- A transaction that `admit` lets replace another has a fee cap and a tip cap that are higher
    -- than the other's by the percentage of the policy at least.
    pub admit_bump :
        (tx current : TransactionEnvelope) (account : AccountState) (base_fee : ℕ)
        (verifier : TransactionEnvelope → Bool) (pool : TransactionPool) {pool' : TransactionPool}
        → lookup (key_of tx) pool.transactions ≡ some current
        → admit platform config policy tx account base_fee verifier pool ≡ ok pool'
        → (current.max_fee_per_gas * (100 + policy.replacement_bump_percent)
            ≤ tx.max_fee_per_gas * 100)
          × (current.max_priority_fee_per_gas * (100 + policy.replacement_bump_percent)
              ≤ tx.max_priority_fee_per_gas * 100)
    unfolding admit_over replace validate_replacement required_fee
    admit_bump tx current account base_fee verifier pool found h =
        let accepted = admit_through tx account base_fee verifier pool h in
        (ground arith, ground arith)

    pub drop_entry-Within :
        (key : PoolKey) (tx : TransactionEnvelope) (pool : TransactionPool)
        {pool' : TransactionPool}
        → drop_entry platform key tx pool ≡ ok pool'
        → Within pool
        → Within pool'
    unfolding drop_entry
    drop_entry-Within key tx pool h w = record {
      total = ground (arith, length-erase-le key pool.transactions);
      per_sender =
          λ s. ground (arith, sender_count-erase-le s key pool.transactions, w.per_sender s);
    }
