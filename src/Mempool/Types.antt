-- ===== src/Mempool/Types.antt =====
-- mempool.py: policy, results and the pool; `_transactions` is a dict by sender and nonce, and
-- the set `_hashes` a list without repetitions.
use junca_social_ecosystem_c.Common.{
  ℕ, ◌+◌, ◌*◌, ◌-◌, ◌/◌, min, ◌||◌, List, [], ◌∷◌, ltb, ◌==◌, any_of, mem, remove, list_eq, nat_eq,
  if◌then◌else◌, Result, ok, err, Check, ◌>>◌, raise_if, Dict, Text, lower,
}
use junca_social_ecosystem_c.ProtocolKernel.Types.{TransactionEnvelope}

pub data MempoolError : Type 0 where
  policy_not_positive bump_over_100 : MempoolError
  wrong_chain signature_rejected nonce_consumed nonce_gap gas_out_of_bounds fee_below_base :
      MempoolError
  priority_above_cap cannot_cover signature_missing : MempoolError
  duplicate_hash pool_full sender_full bump_insufficient limit_out_of_bounds : MempoolError
  not_empty not_a_mapping bad_fields bad_schema chain_mismatch digest_mismatch : MempoolError
  policy_mismatch not_a_list bad_encoding hash_mismatch : MempoolError
  -- A `KeyError` of `set.remove`.
  key_error : MempoolError

pub record MempoolPolicy : Type 0 where
  pub max_transactions : ℕ
  pub max_per_sender : ℕ
  pub max_nonce_gap : ℕ
  pub replacement_bump_percent : ℕ

-- `MempoolPolicy.__post_init__`
unfoldable pub check_policy : MempoolPolicy → Check MempoolError
check_policy p = do
  raise_if
      (any_of (λ v. v == 0)
        (p.max_transactions ∷ p.max_per_sender ∷ p.max_nonce_gap ∷ p.replacement_bump_percent ∷ []))
      policy_not_positive
  raise_if (ltb 100 p.replacement_bump_percent) bump_over_100

pub data Status : Type 0 where
  admitted replaced : Status

pub record AdmissionResult : Type 0 where
  pub transaction_hash : Text
  pub status : Status
  pub pool_size : ℕ

abbrev pub PoolKey : Type 0
PoolKey = Text × ℕ

pub record TransactionPool : Type 0 where
  pub transactions : Dict PoolKey TransactionEnvelope
  pub hashes : List Text

abbrev pub key_of : TransactionEnvelope → PoolKey
key_of tx = (lower tx.sender, tx.nonce)

-- `self._hashes.remove(h)` and `self._hashes.add(h)`
unfoldable pub remove_hash : Text → List Text → Result MempoolError (List Text)
remove_hash h hashes = if mem h hashes then ok (remove h hashes) else err key_error

abbrev pub add_hash : Text → List Text → List Text
add_hash h hashes = if mem h hashes then hashes else h ∷ hashes

-- `_validate_replacement`: the fees that a replacement needs are rounded up.
unfoldable pub required_fee : MempoolPolicy → ℕ → ℕ
required_fee policy fee = (fee * (100 + policy.replacement_bump_percent) + 100 - 1) / 100

unfoldable pub validate_replacement :
    MempoolPolicy → TransactionEnvelope → TransactionEnvelope → Check MempoolError
validate_replacement policy current replacement =
    raise_if
      (ltb replacement.max_fee_per_gas (required_fee policy current.max_fee_per_gas)
        || ltb replacement.max_priority_fee_per_gas
            (required_fee policy current.max_priority_fee_per_gas))
      bump_insufficient

-- `_validator_reward_per_gas`
unfoldable pub validator_reward_per_gas : TransactionEnvelope → ℕ → Result MempoolError ℕ
validator_reward_per_gas tx base_fee = do
  raise_if (ltb tx.max_fee_per_gas base_fee) fee_below_base
  ok (min tx.max_priority_fee_per_gas (tx.max_fee_per_gas - base_fee))
