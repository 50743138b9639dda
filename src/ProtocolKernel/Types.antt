-- ===== src/ProtocolKernel/Types.antt =====
-- protocol_kernel.py: the data of the kernel, addresses, transaction hashes and the admission
-- rules of a block. Integers that the code requires to be non-negative are of type ℕ.
use junca_social_ecosystem_c.Common.{
  ℕ, not, ◌||◌, List, [], ◌∷◌, ◌++◌, ltb, ◌==◌, length, drop, any_of, Result, Check, ok, ◌>>=◌,
  ◌>>◌, raise_if, Dict, Text, Bytes, codes, is_empty, lower, starts_with, parses_hex, hex, Json,
  Fields, object, text, number, end, field, Platform,
}

pub data KernelError : Type 0 where
  config_not_positive target_exceeds_limit : KernelError
  parent_base_fee_not_positive parent_gas_outside_limit : KernelError
  bad_address duplicate_account : KernelError
  chain_id_mismatch gas_below_intrinsic gas_above_limit fee_below_base priority_above_max :
      KernelError
  payload_too_long signature_missing : KernelError
  duplicate_transaction signature_rejected block_gas_exceeded nonce_mismatch : KernelError
  insufficient_balance : KernelError

pub record ProtocolConfig : Type 0 where
  pub chain_id : ℕ
  pub block_gas_limit : ℕ
  pub target_gas : ℕ
  pub initial_base_fee : ℕ
  pub base_fee_change_denominator : ℕ
  pub intrinsic_gas : ℕ
  pub max_transaction_data_bytes : ℕ

-- `ProtocolConfig.__post_init__`
unfoldable pub check_config : ProtocolConfig → Check KernelError
check_config c = do
  raise_if
      (any_of (λ v. v == 0)
        (c.chain_id ∷ c.block_gas_limit ∷ c.target_gas ∷ c.initial_base_fee
          ∷ c.base_fee_change_denominator ∷ c.intrinsic_gas ∷ c.max_transaction_data_bytes ∷ []))
      config_not_positive
  raise_if (ltb c.block_gas_limit c.target_gas) target_exceeds_limit

pub record AccountState : Type 0 where
  pub balance : ℕ
  pub nonce : ℕ

-- `AccountState(balance=0)`
abbrev pub empty_account : AccountState
empty_account = record { balance = 0; nonce = 0 }

abbrev pub Accounts : Type 0
Accounts = Dict Text AccountState

-- The field `data` is called `payload`.
pub record TransactionEnvelope : Type 0 where
  pub chain_id : ℕ
  pub sender : Text
  pub recipient : Text
  pub nonce : ℕ
  pub value : ℕ
  pub gas_limit : ℕ
  pub max_fee_per_gas : ℕ
  pub max_priority_fee_per_gas : ℕ
  pub payload : Bytes
  pub signature : Bytes

pub signing_payload : TransactionEnvelope → Json
signing_payload tx = object (fields)
  where
    fields : Fields
    fields = field (codes "chain_id") (number tx.chain_id) (
        field (codes "data") (text (hex tx.payload)) (
          field (codes "gas_limit") (number tx.gas_limit) (
            field (codes "max_fee_per_gas") (number tx.max_fee_per_gas) (
              field (codes "max_priority_fee_per_gas") (number tx.max_priority_fee_per_gas) (
                field (codes "nonce") (number tx.nonce) (
                  field (codes "recipient") (text (lower tx.recipient)) (
                    field (codes "sender") (text (lower tx.sender))
                      (field (codes "value") (number tx.value) end))))))))

unfoldable pub transaction_hash : Platform → TransactionEnvelope → Text
unfolding signing_payload
transaction_hash platform tx =
    codes "0x" ++ platform.sha256 (platform.dumps (signing_payload tx) ++ tx.signature)

pub record TransactionReceipt : Type 0 where
  pub transaction_hash : Text
  pub transaction_index : ℕ
  pub sender : Text
  pub recipient : Text
  pub gas_used : ℕ
  pub effective_gas_price : ℕ
  pub base_fee_burned : ℕ
  pub validator_tip : ℕ

pub record BlockTransition : Type 0 where
  pub chain_id : ℕ
  pub base_fee_per_gas : ℕ
  pub gas_used : ℕ
  pub total_base_fee_burned : ℕ
  pub total_validator_tips : ℕ
  pub state_root : Text
  pub accounts : Accounts
  pub receipts : List TransactionReceipt

-- `_address`: the normalised address.
unfoldable pub address : Text → Result KernelError Text
address value = do
  raise_if (not (length value == 42) || not (starts_with value (codes "0x"))) bad_address
  raise_if (not (parses_hex (drop 2 value))) bad_address
  ok (lower value)

-- `_validate_transaction`
unfoldable pub validate_transaction : ProtocolConfig → TransactionEnvelope → ℕ → Check KernelError
unfolding address
validate_transaction config tx base_fee = do
  raise_if (not (tx.chain_id == config.chain_id)) chain_id_mismatch
  sender ← address tx.sender
  recipient ← address tx.recipient
  raise_if (ltb tx.gas_limit config.intrinsic_gas) gas_below_intrinsic
  raise_if (ltb config.block_gas_limit tx.gas_limit) gas_above_limit
  raise_if (ltb tx.max_fee_per_gas base_fee) fee_below_base
  raise_if (ltb tx.max_fee_per_gas tx.max_priority_fee_per_gas) priority_above_max
  raise_if (ltb config.max_transaction_data_bytes (length tx.payload)) payload_too_long
  raise_if (is_empty tx.signature) signature_missing
