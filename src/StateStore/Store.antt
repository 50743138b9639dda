-- ===== src/StateStore/Store.antt =====
-- state_store.py, `PersistentStateStore`: genesis, commits and readings. The table `blocks` is the
-- list of its rows in the order of its primary key, the height. A call that raises is rolled back.
use junca_social_ecosystem_c.Common.{
  ℕ, ◌+◌, ◌*◌, Bool, true, false, not, ◌||◌, Option, none, some, List, [], ◌∷◌, ltb, leb, ◌==◌,
  any_of, nat_eq, list_eq, ◌=?◌, Result, ok, err, Check, ◌>>=◌, ◌>>◌, raise_if, or_raise, Dict,
  lookup, contains, insert, Text, codes, lower, Json, boolean, text, number, array, object, end,
  field, to_items, Platform, if◌then◌else◌,
}
use junca_social_ecosystem_c.Finality.Types.{FinalityCertificate}
use junca_social_ecosystem_c.ProtocolKernel.Types.{Accounts, BlockTransition}
use junca_social_ecosystem_c.ProtocolKernel.Execution.{compute_state_root}
use junca_social_ecosystem_c.StateStore.Types.{
  StateStoreError, bad_chain_id, bad_base_fee, other_genesis, not_initialized, not_next,
  parent_mismatch, chain_id_mismatch, unbound_certificate, bad_timestamp, below_quorum,
  root_mismatch, head_moved, unknown_height, rollback_prohibited, integrity, StoredBlock, BlockRow,
  stored_block, check_hash, zero_hash, normalize, accounts_json, receipts_json, Loads,
  decode_accounts_json, overflow, fits_column, fits_row,
}

-- `base_height` is the row of that name in `metadata`.
pub record Store : Type 0 where
  pub chain_id : ℕ
  pub base_height : Option ℕ
  pub blocks : List BlockRow
  pub certificates : Dict ℕ Text
  pub timestamps : Dict ℕ ℕ

-- `PersistentStateStore.__init__` on a new file.
unfoldable pub make_store : ℕ → Result StateStoreError Store
make_store chain_id = do
  raise_if (chain_id == 0) bad_chain_id
  ok (record {
    chain_id = chain_id;
    base_height = none;
    blocks = [];
    certificates = [];
    timestamps = [];
  })

-- `SELECT * FROM blocks WHERE height=?`
unfoldable pub row_at : ℕ → List BlockRow → Option BlockRow
row_at height [] = none
row_at height (row ∷ rows) = if row.height == height then some row else row_at height rows

-- The row under a height that is asked for; a height that is no INTEGER raises.
unfoldable pub find_row : ℕ → List BlockRow → Result StateStoreError BlockRow
find_row height rows = do
  raise_if (not (fits_column height)) overflow
  or_raise (row_at height rows) unknown_height

-- `SELECT * FROM blocks ORDER BY height DESC LIMIT 1`
unfoldable pub last_row : List BlockRow → Option BlockRow
last_row [] = none
last_row (row ∷ rows) = elim (last_row rows) [ none ↦ some row | some last ↦ some last ]

-- A row takes its place in the order of the key.
unfoldable pub place_row : BlockRow → List BlockRow → List BlockRow
place_row new [] = new ∷ []
place_row new (row ∷ rows) =
    if ltb new.height row.height then new ∷ row ∷ rows else row ∷ place_row new rows

-- `INSERT INTO blocks`: the numbers fit their columns, the height and the block hash are unique.
unfoldable pub insert_row : BlockRow → List BlockRow → Result StateStoreError (List BlockRow)
insert_row new rows = do
  raise_if (not (fits_row new)) overflow
  raise_if (any_of (λ row. row.height == new.height || row.block_hash =? new.block_hash) rows)
      integrity
  ok (place_row new rows)

-- `head`
unfoldable pub head : Store → Result StateStoreError StoredBlock
head s = do row ← or_raise (last_row s.blocks) not_initialized; ok (stored_block row)

unfoldable pub get_block : ℕ → Store → Result StateStoreError StoredBlock
get_block height s = do row ← find_row height s.blocks; ok (stored_block row)

unfoldable pub block_timestamp : ℕ → Store → Result StateStoreError (Option ℕ)
block_timestamp height s = do
  raise_if (not (fits_column height)) overflow
  ok (lookup height s.timestamps)

-- `rollback_to`; on an empty store no height is the head's, -1.
unfoldable pub rollback_to : ℕ → Store → Check StateStoreError
rollback_to height s = elim (last_row s.blocks) [
  | none ↦ err rollback_prohibited
  | some row ↦ raise_if (not (height == row.height)) rollback_prohibited
]

abbrev pub Call : Type 0
Call = Result StateStoreError (StoredBlock × Store)

-- What a call returns at its end.
abbrev pub return_head : Store → Call
return_head s = do block ← head s; ok (block, s)

-- The tests of a block's timestamp; one that is not positive is refused.
abbrev pub is_bad_timestamp : Option ℕ → Bool
is_bad_timestamp none = false
is_bad_timestamp (some t) = t == 0

abbrev pub with_timestamp : ℕ → Option ℕ → Dict ℕ ℕ → Dict ℕ ℕ
with_timestamp height none timestamps = timestamps
with_timestamp height (some t) timestamps = insert height t timestamps

-- A timestamp that its column does not hold.
abbrev pub is_wide_timestamp : Option ℕ → Bool
is_wide_timestamp none = false
is_wide_timestamp (some t) = not (fits_column t)

-- The key of a new row of `block_timestamps` is in use.
abbrev pub timestamp_taken : ℕ → Option ℕ → Dict ℕ ℕ → Bool
timestamp_taken height none timestamps = false
timestamp_taken height (some t) timestamps = contains height timestamps

-- `FinalityCertificate.as_evidence`
unfoldable pub certificate_json : FinalityCertificate → Json
certificate_json c = object (
    field (codes "assets_moved") (boolean false) (
      field (codes "block_hash") (text c.block_hash) (
        field (codes "bridge_activated") (boolean false) (
          field (codes "certificate_hash") (text c.certificate_hash) (
            field (codes "chain_id") (number c.chain_id) (
              field (codes "finality_status") (text (codes "FINALIZED")) (
                field (codes "height") (number c.height) (
                  field (codes "mainnet_changed") (boolean false) (
                    field (codes "round") (number c.round) (
                      field (codes "schema_version") (text (codes "junca-finality-certificate/v1"))
                        (field (codes "signed_power") (number c.signed_power) (
                          field (codes "total_power") (number c.total_power) (
                            field (codes "validator_ids") (array (to_items text c.validator_ids)) (
                              field (codes "vote_hashes") (array (to_items text c.vote_hashes))
                                end))))))))))))))

-- The arguments of `commit_finalized_block`.
pub record Commit : Type 0 where
  pub height : ℕ
  pub block_hash : Text
  pub parent_hash : Text
  pub transition : BlockTransition
  pub certificate : FinalityCertificate
  pub timestamp : Option ℕ

module _ (platform : Platform) where
  abbrev pub genesis_row : Text → ℕ → Accounts → BlockRow
  genesis_row block_hash base_fee accounts = record {
    height = 0;
    block_hash = lower block_hash;
    parent_hash = zero_hash;
    state_root = compute_state_root platform accounts;
    base_fee_per_gas = base_fee;
    gas_used = 0;
    finalized = true;
    certificate_hash = none;
    accounts_json = accounts_json platform accounts;
    receipts_json = codes "[]";
  }

  -- What `initialize_genesis` does where the store has a block of height 0, and where it has none.
  unfoldable pub place_genesis : BlockRow → Store → Option BlockRow → Call
  place_genesis row s (some existing) = do
    raise_if
        (not (existing.block_hash =? row.block_hash) || not (existing.state_root =? row.state_root))
        other_genesis
    ok (stored_block existing, s)
  place_genesis row s none = do
    rows ← insert_row row s.blocks
    return_head (record s { blocks = rows; base_height = some 0 })

  unfoldable pub initialize_genesis : Text → Accounts → ℕ → Store → Call
  initialize_genesis block_hash accounts base_fee s = do
    check_hash block_hash
    raise_if (base_fee == 0) bad_base_fee
    normalized ← normalize accounts
    place_genesis (genesis_row block_hash base_fee normalized) s (row_at 0 s.blocks)

  -- The row that a commit writes.
  abbrev pub committed_row : Commit → Accounts → BlockRow
  committed_row c accounts = record {
    height = c.height;
    block_hash = lower c.block_hash;
    parent_hash = lower c.parent_hash;
    state_root = c.transition.state_root;
    base_fee_per_gas = c.transition.base_fee_per_gas;
    gas_used = c.transition.gas_used;
    finalized = true;
    certificate_hash = some c.certificate.certificate_hash;
    accounts_json = accounts_json platform accounts;
    receipts_json = receipts_json platform c.transition.receipts;
  }

  -- The tests against the head and the certificate.
  unfoldable pub check_commit : Store → BlockRow → Commit → Check StateStoreError
  check_commit s current c = do
    raise_if (not (c.height == current.height + 1)) not_next
    check_hash c.block_hash
    check_hash c.parent_hash
    raise_if (not (lower c.parent_hash =? current.block_hash)) parent_mismatch
    raise_if
        (not (c.transition.chain_id == s.chain_id) || not (c.certificate.chain_id == s.chain_id))
        chain_id_mismatch
    raise_if
        (not (c.certificate.height == c.height)
          || not (c.certificate.block_hash =? lower c.block_hash))
        unbound_certificate
    raise_if (is_bad_timestamp c.timestamp) bad_timestamp
    raise_if (leb (c.certificate.signed_power * 3) (c.certificate.total_power * 2)) below_quorum

  -- The transaction: the head is read again under the lock, and the rows are written together.
  unfoldable pub write_block : Store → Commit → Accounts → Call
  write_block s c accounts = do
    locked ← or_raise (last_row s.blocks) head_moved
    raise_if (not (locked.height + 1 == c.height) || not (locked.block_hash =? lower c.parent_hash))
        head_moved
    rows ← insert_row (committed_row c accounts) s.blocks
    raise_if (is_wide_timestamp c.timestamp) overflow
    raise_if (timestamp_taken c.height c.timestamp s.timestamps || contains c.height s.certificates)
        integrity
    return_head (record s {
      blocks = rows;
      timestamps = with_timestamp c.height c.timestamp s.timestamps;
      certificates =
          insert c.height (platform.dumps (certificate_json c.certificate)) s.certificates;
    })

  unfoldable pub commit_finalized_block : Commit → Store → Call
  commit_finalized_block c s = do
    current ← or_raise (last_row s.blocks) not_initialized
    check_commit s current c
    normalized ← normalize c.transition.accounts
    raise_if (not (c.transition.state_root =? compute_state_root platform normalized)) root_mismatch
    write_block s c normalized

  -- `accounts_at`, with the height written out.
  unfoldable pub accounts_at : Loads → ℕ → Store → Result StateStoreError Accounts
  accounts_at loads height s = do
    row ← find_row height s.blocks
    decode_accounts_json platform loads row.accounts_json

  -- `accounts_at()`
  unfoldable pub accounts_at_head : Loads → Store → Result StateStoreError Accounts
  accounts_at_head loads s = do
    row ← or_raise (last_row s.blocks) unknown_height
    accounts_at loads row.height s
