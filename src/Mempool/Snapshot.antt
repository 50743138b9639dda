-- ===== src/Mempool/Snapshot.antt =====
-- mempool.py, `export_snapshot` and `restore_snapshot`: the pending transactions of a pool as a
-- document, and a pool restored from one through the gates of admission.
pub mod Records
pub mod Pending
pub mod Exported
pub mod RoundTrip
use junca_social_ecosystem_c.Common.{
  ℕ, Bool, true, false, not, ◌&&◌, Option, none, some, List, [], ◌∷◌, ◌++◌, leb, nat_eq, list_eq,
  ◌=?◌, if◌then◌else◌, Result, ok, err, ◌>>=◌, ◌>>◌, raise_if, or_raise, Dict, lookup_or, values,
  sort_by, text_leb, Text, codes, lower, is_empty, hex, from_hex, Json, Items, Fields, text, number,
  array, object, nil, cons, end, field, to_items, find_field, field_names, without_field,
  has_exactly, is_text, is_number, as_number, as_text, as_items, Platform, tagged_digest,
}
use junca_social_ecosystem_c.ProtocolKernel.Types.{
  ProtocolConfig, empty_account, Accounts, TransactionEnvelope, transaction_hash,
}
use junca_social_ecosystem_c.Mempool.Types.{
  MempoolError, MempoolPolicy, PoolKey, TransactionPool, not_empty, not_a_mapping, bad_fields,
  bad_schema, chain_mismatch, digest_mismatch, policy_mismatch, not_a_list, bad_encoding,
  hash_mismatch,
}
use junca_social_ecosystem_c.Mempool.Pool.{admit}
use junca_social_ecosystem_c.Mempool.Candidate.{lower_keys}

abbrev pub snapshot_schema : Text
snapshot_schema = codes "junca-mempool-snapshot/v1"

-- The order of `sorted(self._transactions.items())`; the keys differ, so they decide.
abbrev pub entry_leb : PoolKey × TransactionEnvelope → PoolKey × TransactionEnvelope → Bool
entry_leb a b = if a.0.0 =? b.0.0 then leb a.0.1 b.0.1 else text_leb a.0.0 b.0.0

abbrev pub sorted_entries : Dict PoolKey TransactionEnvelope → Dict PoolKey TransactionEnvelope
sorted_entries = sort_by entry_leb

abbrev pub policy_json : MempoolPolicy → Json
policy_json policy = object (
    field (codes "max_nonce_gap") (number policy.max_nonce_gap) (
      field (codes "max_per_sender") (number policy.max_per_sender) (
        field (codes "max_transactions") (number policy.max_transactions)
          (field (codes "replacement_bump_percent") (number policy.replacement_bump_percent) end))))

abbrev pub policy_names : List Text
policy_names =
    codes "max_transactions"
    ∷ codes "max_per_sender"
    ∷ codes "max_nonce_gap"
    ∷ codes "replacement_bump_percent"
    ∷ []

-- `snapshot["policy"] == expected_policy`
unfoldable pub is_policy : MempoolPolicy → Option Json → Bool
is_policy policy (some (object raw)) =
    has_exactly policy_names raw
    && is_number policy.max_transactions (find_field (codes "max_transactions") raw)
    && is_number policy.max_per_sender (find_field (codes "max_per_sender") raw)
    && is_number policy.max_nonce_gap (find_field (codes "max_nonce_gap") raw)
    && is_number policy.replacement_bump_percent (find_field (codes "replacement_bump_percent") raw)
is_policy policy other = false

abbrev pub record_names : List Text
record_names =
    codes "chain_id"
    ∷ codes "sender"
    ∷ codes "recipient"
    ∷ codes "nonce"
    ∷ codes "value"
    ∷ codes "gas_limit"
    ∷ codes "max_fee_per_gas"
    ∷ codes "max_priority_fee_per_gas"
    ∷ codes "data"
    ∷ codes "signature"
    ∷ codes "transaction_hash"
    ∷ []

abbrev pub snapshot_names : List Text
snapshot_names =
    codes "schema_version"
    ∷ codes "chain_id"
    ∷ codes "policy"
    ∷ codes "transactions"
    ∷ codes "snapshot_digest"
    ∷ []

abbrev pub number_of : Text → Fields → Result MempoolError ℕ
number_of name raw = or_raise (as_number (find_field name raw)) bad_encoding

abbrev pub text_of : Text → Fields → Result MempoolError Text
text_of name raw = or_raise (as_text (find_field name raw)) bad_encoding

module _ (platform : Platform) where
  -- `_transaction_record`, its fields in the order in which they are written.
  unfoldable pub transaction_record : TransactionEnvelope → Json
  transaction_record tx = object (
      field (codes "chain_id") (number tx.chain_id) (
        field (codes "data") (text (hex tx.payload)) (
          field (codes "gas_limit") (number tx.gas_limit) (
            field (codes "max_fee_per_gas") (number tx.max_fee_per_gas) (
              field (codes "max_priority_fee_per_gas") (number tx.max_priority_fee_per_gas) (
                field (codes "nonce") (number tx.nonce) (
                  field (codes "recipient") (text (lower tx.recipient)) (
                    field (codes "sender") (text (lower tx.sender)) (
                      field (codes "signature") (text (hex tx.signature)) (
                        field (codes "transaction_hash") (text (transaction_hash platform tx))
                          (field (codes "value") (number tx.value) end)))))))))))

  -- The fields of a record. The constructor takes values of any type; one of another type than its
  -- field's, a Boolean for a number included, is refused here, where the code leaves it to the calls
  -- that use it.
  unfoldable pub decode_record : Fields → Result MempoolError TransactionEnvelope
  decode_record raw = do
    raise_if (not (has_exactly record_names raw)) bad_fields
    data_text ← text_of (codes "data") raw
    payload ← or_raise (from_hex data_text) bad_encoding
    signature_text ← text_of (codes "signature") raw
    signature ← or_raise (from_hex signature_text) bad_encoding
    chain_id ← number_of (codes "chain_id") raw
    sender ← text_of (codes "sender") raw
    recipient ← text_of (codes "recipient") raw
    nonce ← number_of (codes "nonce") raw
    value ← number_of (codes "value") raw
    gas_limit ← number_of (codes "gas_limit") raw
    max_fee ← number_of (codes "max_fee_per_gas") raw
    max_priority_fee ← number_of (codes "max_priority_fee_per_gas") raw
    ok (record {
      chain_id = chain_id;
      sender = sender;
      recipient = recipient;
      nonce = nonce;
      value = value;
      gas_limit = gas_limit;
      max_fee_per_gas = max_fee;
      max_priority_fee_per_gas = max_priority_fee;
      payload = payload;
      signature = signature;
    })

  -- `_transaction_from_record`
  unfoldable pub transaction_from_record : Json → Result MempoolError TransactionEnvelope
  transaction_from_record (object raw) = do
    tx ← decode_record raw
    raise_if
        (not (is_text (transaction_hash platform tx) (find_field (codes "transaction_hash") raw)))
        hash_mismatch
    ok tx
  transaction_from_record other = err bad_fields

  -- `_snapshot_digest`
  unfoldable pub snapshot_digest : Fields → Text
  snapshot_digest body =
      tagged_digest platform (codes "JUNCA_MEMPOOL_SNAPSHOT_V1" ++ 0 ∷ [])
        (platform.dumps (object body))

module _ (platform : Platform) (config : ProtocolConfig) (policy : MempoolPolicy) where
  abbrev pub header_fields : Fields → Fields
  header_fields rest = field (codes "chain_id") (number config.chain_id) (
      field (codes "policy") (policy_json policy)
        (field (codes "schema_version") (text snapshot_schema) rest))

  abbrev pub transactions_field : TransactionPool → Fields
  transactions_field pool =
      field (codes "transactions")
        (array (to_items (transaction_record platform) (values (sorted_entries pool.transactions))))
        end

  unfoldable pub export_snapshot : TransactionPool → Json
  export_snapshot pool = object (
      header_fields (
        field (codes "snapshot_digest")
          (text (snapshot_digest platform (header_fields (transactions_field pool))))
          (transactions_field pool)))

  -- The loop over the records, on the pool that is restored and the hashes so far.
  unfoldable pub restore_items :
      Accounts
      → ℕ
      → (TransactionEnvelope → Bool)
      → Items
      → TransactionPool
      → List Text
      → Result MempoolError (TransactionPool × List Text)
  restore_items accounts base_fee verifier nil pool hashes = ok (pool, hashes)
  restore_items accounts base_fee verifier (cons j items) pool hashes = do
    tx ← transaction_from_record platform j
    pool' ←
        admit platform config policy tx (lookup_or empty_account (lower tx.sender) accounts)
          base_fee verifier pool
    restore_items accounts base_fee verifier items pool'
        (hashes ++ transaction_hash platform tx ∷ [])

  unfoldable pub check_snapshot : Fields → Result MempoolError Items
  check_snapshot raw = do
    raise_if (not (has_exactly snapshot_names raw)) bad_fields
    raise_if (not (is_text snapshot_schema (find_field (codes "schema_version") raw))) bad_schema
    raise_if (not (is_number config.chain_id (find_field (codes "chain_id") raw))) chain_mismatch
    raise_if
        (not (
          is_text (snapshot_digest platform (without_field (codes "snapshot_digest") raw))
            (find_field (codes "snapshot_digest") raw)))
        digest_mismatch
    raise_if (not (is_policy policy (find_field (codes "policy") raw))) policy_mismatch
    or_raise (as_items (find_field (codes "transactions") raw)) not_a_list

  unfoldable pub restore_document :
      Json
      → Accounts
      → ℕ
      → (TransactionEnvelope → Bool)
      → Result MempoolError (TransactionPool × List Text)
  restore_document (object raw) accounts base_fee verifier = do
    items ← check_snapshot raw
    restore_items (lower_keys [] accounts) base_fee verifier items
        (record { transactions = []; hashes = [] }) []
  restore_document other accounts base_fee verifier = err not_a_mapping

  -- `restore_snapshot`: the pool afterwards and the hashes; a call that raises has changed nothing.
  unfoldable pub restore_snapshot :
      Json
      → Accounts
      → ℕ
      → (TransactionEnvelope → Bool)
      → TransactionPool
      → Result MempoolError (TransactionPool × List Text)
  restore_snapshot snapshot accounts base_fee verifier pool = do
    raise_if (not (is_empty pool.transactions)) not_empty
    restore_document snapshot accounts base_fee verifier
