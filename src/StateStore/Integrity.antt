-- ===== src/StateStore/Integrity.antt =====
-- state_store.py, `integrity_check`.
use junca_social_ecosystem_c.Common.{
  ℕ, suc, Bool, true, false, not, ◌&&◌, ◌||◌, Option, none, some, List, [], ◌∷◌, ◌==◌, length,
  nat_eq, list_eq, ◌=?◌, Result, ok, err, Check, ◌>>=◌, ◌>>◌, raise_if, or_raise, Text, is_empty,
  lower, Json, array, Platform, if◌then◌else◌,
}
use junca_social_ecosystem_c.ProtocolKernel.Execution.{compute_state_root}
use junca_social_ecosystem_c.StateStore.Types.{
  StateStoreError, not_initialized, not_canonical, root_mismatch, bad_parent, no_evidence,
  bad_metadata, not_contiguous, broken_link, bad_value, bad_snapshot, bad_certificate, BlockRow,
  check_hash, zero_hash, accounts_json, Loads, decode_accounts_json,
}
use junca_social_ecosystem_c.StateStore.Store.{Store, last_row}

pub record IntegrityReport : Type 0 where
  pub base_height : ℕ
  pub head_height : ℕ
  pub head_hash : Text
  pub state_root : Text
  pub block_count : ℕ

-- `_hash` and the test for lower case.
abbrev pub check_canonical : Text → Check StateStoreError
check_canonical value = do check_hash value; raise_if (not (value =? lower value)) not_canonical

abbrev pub is_some {ℓ} : {A : Type ℓ} → Option A → Bool
is_some none = false
is_some (some a) = true

-- `not row["certificate_hash"]`
abbrev pub lacks : Option Text → Bool
lacks none = true
lacks (some value) = is_empty value

abbrev pub check_optional : (Text → Check StateStoreError) → Option Text → Check StateStoreError
check_optional check none = ok tt
check_optional check (some value) = check value

-- The tests of `_validate_stored_block_identity` that depend on the height.
unfoldable pub check_evidence : BlockRow → Check StateStoreError
check_evidence row =
    if row.height == 0
    then (do
      raise_if (not (row.parent_hash =? zero_hash)) bad_parent
      raise_if (is_some row.certificate_hash) bad_certificate)
    else raise_if (not row.finalized || lacks row.certificate_hash) no_evidence

-- `_validate_stored_block_identity`
unfoldable pub check_identity : BlockRow → Check StateStoreError
check_identity row = do
  check_canonical row.block_hash
  check_canonical row.parent_hash
  check_canonical row.state_root
  check_evidence row
  check_optional check_canonical row.certificate_hash

abbrev pub check_list : Json → Check StateStoreError
check_list (array items) = ok tt
check_list j = err bad_snapshot

module _ (platform : Platform) (loads : Loads) where
  -- The receipts are a list, written as `dumps` writes it.
  unfoldable pub check_receipts : Text → Check StateStoreError
  check_receipts payload = do
    receipts ← or_raise (loads payload) bad_snapshot
    check_list receipts
    raise_if (not (platform.dumps receipts =? payload)) not_canonical

  -- The tests of one row; a snapshot that is decoded is canonical already.
  unfoldable pub check_row : ℕ → Text → BlockRow → Check StateStoreError
  check_row expected previous row = do
    raise_if (not (row.height == expected)) not_contiguous
    check_identity row
    raise_if (not (row.parent_hash =? previous)) broken_link
    raise_if (row.base_fee_per_gas == 0) bad_value
    accounts ← decode_accounts_json platform loads row.accounts_json
    raise_if (not (accounts_json platform accounts =? row.accounts_json)) not_canonical
    check_receipts row.receipts_json
    raise_if (not (compute_state_root platform accounts =? row.state_root)) root_mismatch
    raise_if (not (row.height == 0) && (not row.finalized || lacks row.certificate_hash))
        no_evidence
    check_optional check_hash row.certificate_hash

  -- The loop over the rows, from the height and the hash that the next one must continue.
  unfoldable pub check_rows : ℕ → Text → List BlockRow → Check StateStoreError
  check_rows expected previous [] = ok tt
  check_rows expected previous (row ∷ rows) = do
    check_row expected previous row
    check_rows (suc expected) row.block_hash rows

  -- `metadata` holds the height of the first row.
  abbrev pub is_base : Option ℕ → ℕ → Bool
  is_base none height = false
  is_base (some base) height = base == height

  unfoldable pub check_blocks : Option ℕ → List BlockRow → Check StateStoreError
  check_blocks base [] = err not_initialized
  check_blocks base (row ∷ rows) = do
    raise_if (not (is_base base row.height)) bad_metadata
    check_hash row.parent_hash
    check_rows row.height row.parent_hash (row ∷ rows)

  -- `integrity_check`
  unfoldable pub integrity_check : Store → Result StateStoreError IntegrityReport
  integrity_check s = do
    check_blocks s.base_height s.blocks
    base ← or_raise s.base_height bad_metadata
    last ← or_raise (last_row s.blocks) not_initialized
    ok (record {
      base_height = base;
      head_height = last.height;
      head_hash = last.block_hash;
      state_root = last.state_root;
      block_count = length s.blocks;
    })
