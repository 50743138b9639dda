-- ===== src/StateStore/Types.antt =====
-- state_store.py: rows, account snapshots and their JSON text. `json.loads` is a parameter; a text
-- that it refuses gives `none`. A snapshot's text is what `dumps` writes.
use junca_social_ecosystem_c.Common.{
  ℕ, Bool, not, ◌&&◌, ◌||◌, Option, List, [], ◌∷◌, ◌==◌, length, drop, nat_eq, list_eq, ◌=?◌,
  Result, ok, err, Check, ◌>>=◌, ◌>>◌, raise_if, or_raise, contains, insert, sort_by, text_leb,
  Text, codes, lower, starts_with, parses_hex, Json, Fields, text, number, array, object, end,
  field, to_items, Platform, if◌then◌else◌, ◌^◌, ltb,
}
use junca_social_ecosystem_c.ProtocolKernel.Types.{AccountState, Accounts, TransactionReceipt}

pub data StateStoreError : Type 0 where
  bad_chain_id bad_hash bad_base_fee other_genesis not_initialized : StateStoreError
  not_next parent_mismatch chain_id_mismatch unbound_certificate bad_timestamp : StateStoreError
  below_quorum root_mismatch head_moved unknown_height rollback_prohibited : StateStoreError
  bad_address bad_snapshot not_canonical not_empty bad_fields bad_schema : StateStoreError
  digest_mismatch bad_value not_finalized bad_parent no_evidence : StateStoreError
  untrusted_digest untrusted_block bad_metadata not_contiguous broken_link bad_accounts :
      StateStoreError
  bad_certificate : StateStoreError
  -- An `IntegrityError` of SQLite.
  integrity : StateStoreError
  -- The `OverflowError` that a number too large for an INTEGER column raises.
  overflow : StateStoreError

pub record StoredBlock : Type 0 where
  pub height : ℕ
  pub block_hash : Text
  pub parent_hash : Text
  pub state_root : Text
  pub base_fee_per_gas : ℕ
  pub gas_used : ℕ
  pub finalized : Bool
  pub certificate_hash : Option Text

-- A row of `blocks`.
pub record BlockRow : Type 0 where
  pub height : ℕ
  pub block_hash : Text
  pub parent_hash : Text
  pub state_root : Text
  pub base_fee_per_gas : ℕ
  pub gas_used : ℕ
  pub finalized : Bool
  pub certificate_hash : Option Text
  pub accounts_json : Text
  pub receipts_json : Text

-- An INTEGER column holds signed words of 64 bits.
abbrev pub fits_column : ℕ → Bool
fits_column n = ltb n (2 ^ 63)

-- The numbers of a row that are bound to its columns.
unfoldable pub fits_row : BlockRow → Bool
fits_row row =
    fits_column row.height && fits_column row.base_fee_per_gas && fits_column row.gas_used

-- `_stored_block`
abbrev pub stored_block : BlockRow → StoredBlock
stored_block row = record {
  height = row.height;
  block_hash = row.block_hash;
  parent_hash = row.parent_hash;
  state_root = row.state_root;
  base_fee_per_gas = row.base_fee_per_gas;
  gas_used = row.gas_used;
  finalized = row.finalized;
  certificate_hash = row.certificate_hash;
}

-- `_hash`
unfoldable pub check_hash : Text → Check StateStoreError
check_hash value = do
  raise_if (not (length value == 66) || not (starts_with value (codes "0x"))) bad_hash
  raise_if (not (parses_hex (drop 2 value))) bad_hash

-- `"0x" + "0" * 64`
abbrev pub zero_hash : Text
zero_hash = codes "0x0000000000000000000000000000000000000000000000000000000000000000"

unfoldable pub check_address : Text → Check StateStoreError
check_address key = do
  raise_if (not (length key == 42) || not (starts_with key (codes "0x"))) bad_address
  raise_if (not (parses_hex (drop 2 key))) bad_address

-- The loop of `_normalize_accounts`, onto what is there.
unfoldable pub normalize_onto : Accounts → Accounts → Result StateStoreError Accounts
normalize_onto normalized [] = ok normalized
normalize_onto normalized ((name, account) ∷ rest) = do
  check_address (lower name)
  raise_if (contains (lower name) normalized) bad_snapshot
  normalize_onto (insert (lower name) account normalized) rest

-- `sorted(accounts.items())`: the keys differ, so they decide.
abbrev pub sorted_items : Accounts → Accounts
sorted_items = sort_by λ a b. text_leb a.0 b.0

-- `_normalize_accounts`
unfoldable pub normalize : Accounts → Result StateStoreError Accounts
normalize accounts = do normalized ← normalize_onto [] accounts; ok (sorted_items normalized)

abbrev pub account_object : AccountState → Json
account_object account = object (
    field (codes "balance") (number account.balance)
      (field (codes "nonce") (number account.nonce) end))

unfoldable pub account_fields : Accounts → Fields
account_fields [] = end
account_fields ((name, account) ∷ rest) = field name (account_object account) (account_fields rest)

-- The object that `_accounts_json` writes.
abbrev pub accounts_object : Accounts → Json
accounts_object accounts = object (account_fields (sorted_items accounts))

-- `{"balance": …, "nonce": …}` in either order, with values that `AccountState` accepts.
unfoldable pub decode_account : Json → Result StateStoreError AccountState
decode_account (object (field k (number v) (field l (number w) end))) =
    if k =? codes "balance" && l =? codes "nonce"
    then ok (record { balance = v; nonce = w })
    else if k =? codes "nonce" && l =? codes "balance"
    then ok (record { balance = w; nonce = v })
    else err bad_snapshot
decode_account j = err bad_snapshot

-- The loop of `_decode_accounts`.
unfoldable pub decode_onto : Accounts → Fields → Result StateStoreError Accounts
decode_onto accounts end = ok accounts
decode_onto accounts (field name value rest) = do
  account ← decode_account value
  decode_onto (insert name account accounts) rest

-- `_decode_accounts`
unfoldable pub decode_accounts : Fields → Result StateStoreError Accounts
decode_accounts raw = decode_onto [] raw >>= normalize

unfoldable pub receipt_json : TransactionReceipt → Json
receipt_json r = object (
    field (codes "base_fee_burned") (number r.base_fee_burned) (
      field (codes "effective_gas_price") (number r.effective_gas_price) (
        field (codes "gas_used") (number r.gas_used) (
          field (codes "recipient") (text r.recipient) (
            field (codes "sender") (text r.sender) (
              field (codes "status") (text (codes "SUCCESS")) (
                field (codes "transaction_hash") (text r.transaction_hash) (
                  field (codes "transaction_index") (number r.transaction_index)
                    (field (codes "validator_tip") (number r.validator_tip) end)))))))))

abbrev pub Loads : Type 0
Loads = Text → Option Json

module _ (platform : Platform) where
  -- `_accounts_json`
  abbrev pub accounts_json : Accounts → Text
  accounts_json accounts = platform.dumps (accounts_object accounts)

  unfoldable pub receipts_json : List TransactionReceipt → Text
  receipts_json receipts = platform.dumps (array (to_items receipt_json receipts))

  unfoldable pub decode_value : Text → Json → Result StateStoreError Accounts
  decode_value payload (object raw) = do
    accounts ← decode_accounts raw
    raise_if (not (accounts_json accounts =? payload)) not_canonical
    ok accounts
  decode_value payload j = err bad_snapshot

  -- `_decode_accounts_json`
  unfoldable pub decode_accounts_json : Loads → Text → Result StateStoreError Accounts
  decode_accounts_json loads payload =
      or_raise (loads payload) bad_snapshot >>= decode_value payload
