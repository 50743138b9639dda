-- ===== src/StateStore/Checkpoint.antt =====
-- state_store.py, `export_checkpoint`, `verify_checkpoint` and `restore_checkpoint`. A checkpoint
-- is a mapping with exactly these keys, its accounts a JSON object.
use junca_social_ecosystem_c.Common.{
  ℕ, Bool, true, not, ◌||◌, Option, none, some, [], ◌∷◌, ◌++◌, ◌==◌, nat_eq, list_eq, ◌=?◌, Result,
  ok, Check, ◌>>=◌, ◌>>◌, raise_if, Text, codes, is_empty, lower, Json, Fields, null, boolean, text,
  number, object, end, field, Platform, tagged_digest, if◌then◌else◌,
}
use junca_social_ecosystem_c.ProtocolKernel.Types.{Accounts}
use junca_social_ecosystem_c.ProtocolKernel.Execution.{compute_state_root}
use junca_social_ecosystem_c.StateStore.Types.{
  StateStoreError, chain_id_mismatch, root_mismatch, not_canonical, not_empty, bad_schema,
  digest_mismatch, bad_value, not_finalized, bad_parent, no_evidence, untrusted_digest,
  untrusted_block, bad_certificate, BlockRow, check_hash, zero_hash, decode_accounts, accounts_json,
  account_fields, sorted_items, Loads, decode_accounts_json,
}
use junca_social_ecosystem_c.StateStore.Store.{Store, Call, find_row, insert_row, return_head}
use junca_social_ecosystem_c.StateStore.Integrity.{
  check_identity, check_canonical, check_optional, is_some, lacks,
}

pub record Checkpoint : Type 0 where
  pub schema_version : Text
  pub chain_id : ℕ
  pub height : ℕ
  pub block_hash : Text
  pub parent_hash : Text
  pub state_root : Text
  pub base_fee_per_gas : ℕ
  pub gas_used : ℕ
  pub finalized : Bool
  pub certificate_hash : Option Text
  pub accounts : Fields
  pub checkpoint_digest : Text

abbrev pub schema : Text
schema = codes "junca-state-checkpoint/v1"

abbrev pub optional_text : Option Text → Json
optional_text none = null
optional_text (some t) = text t

-- The body under the digest.
unfoldable pub checkpoint_json : Checkpoint → Json
checkpoint_json c = object (
    field (codes "accounts") (object c.accounts) (
      field (codes "base_fee_per_gas") (number c.base_fee_per_gas) (
        field (codes "block_hash") (text c.block_hash) (
          field (codes "certificate_hash") (optional_text c.certificate_hash) (
            field (codes "chain_id") (number c.chain_id) (
              field (codes "finalized") (boolean c.finalized) (
                field (codes "gas_used") (number c.gas_used) (
                  field (codes "height") (number c.height) (
                    field (codes "parent_hash") (text c.parent_hash) (
                      field (codes "schema_version") (text c.schema_version)
                        (field (codes "state_root") (text c.state_root) end)))))))))))

module _ (platform : Platform) where
  -- `_checkpoint_digest`
  unfoldable pub digest_of : Checkpoint → Text
  digest_of c =
      tagged_digest platform (codes "JUNCA_STATE_CHECKPOINT_V1" ++ 0 ∷ [])
        (platform.dumps (checkpoint_json c))

  abbrev pub checkpoint_body : ℕ → BlockRow → Accounts → Checkpoint
  checkpoint_body chain_id row accounts = record {
    schema_version = schema;
    chain_id = chain_id;
    height = row.height;
    block_hash = row.block_hash;
    parent_hash = row.parent_hash;
    state_root = row.state_root;
    base_fee_per_gas = row.base_fee_per_gas;
    gas_used = row.gas_used;
    finalized = row.finalized;
    certificate_hash = row.certificate_hash;
    accounts = account_fields (sorted_items accounts);
    checkpoint_digest = [];
  }

  -- `export_checkpoint`, with the height written out.
  unfoldable pub export_checkpoint : Loads → ℕ → Store → Result StateStoreError Checkpoint
  export_checkpoint loads height s = do
    row ← find_row height s.blocks
    accounts ← decode_accounts_json platform loads row.accounts_json
    raise_if (not (compute_state_root platform accounts =? row.state_root)) root_mismatch
    check_identity row
    let body = checkpoint_body s.chain_id row accounts
    ok (record body { checkpoint_digest = digest_of body })

  -- The tests of a checkpoint's parent and certificate that depend on its height.
  unfoldable pub check_finality : Checkpoint → Check StateStoreError
  check_finality c =
      if c.height == 0
      then (do
        raise_if (not (c.parent_hash =? zero_hash)) bad_parent
        raise_if (is_some c.certificate_hash) bad_certificate)
      else raise_if (lacks c.certificate_hash) no_evidence

  -- `verify_checkpoint`: its accounts, where it returns; they are normal already when they are decoded.
  -- Two mappings are equal where `dumps` writes them alike.
  unfoldable pub verify_checkpoint : Checkpoint → Result StateStoreError Accounts
  verify_checkpoint c = do
    raise_if (not (c.schema_version =? schema)) bad_schema
    check_canonical c.checkpoint_digest
    raise_if (not (c.checkpoint_digest =? digest_of c)) digest_mismatch
    raise_if (c.chain_id == 0 || c.base_fee_per_gas == 0) bad_value
    raise_if (not c.finalized) not_finalized
    accounts ← decode_accounts c.accounts
    raise_if (not (platform.dumps (object c.accounts) =? accounts_json platform accounts))
        not_canonical
    raise_if (not (c.state_root =? compute_state_root platform accounts)) root_mismatch
    check_hash c.block_hash
    check_hash c.parent_hash
    check_hash c.state_root
    raise_if (not (c.block_hash =? lower c.block_hash)) not_canonical
    raise_if (not (c.parent_hash =? lower c.parent_hash)) not_canonical
    raise_if (not (c.state_root =? lower c.state_root)) not_canonical
    check_finality c
    check_optional check_canonical c.certificate_hash
    ok accounts

  -- The row that a restore writes.
  abbrev pub restored_row : Checkpoint → Accounts → BlockRow
  restored_row c accounts = record {
    height = c.height;
    block_hash = c.block_hash;
    parent_hash = c.parent_hash;
    state_root = c.state_root;
    base_fee_per_gas = c.base_fee_per_gas;
    gas_used = c.gas_used;
    finalized = true;
    certificate_hash = c.certificate_hash;
    accounts_json = accounts_json platform accounts;
    receipts_json = codes "[]";
  }

  -- The tests against the store's chain and the two trusted anchors.
  unfoldable pub check_anchors : Store → Checkpoint → Text → Text → Check StateStoreError
  check_anchors s c trusted_digest trusted_block = do
    raise_if (not (c.chain_id == s.chain_id)) chain_id_mismatch
    check_hash trusted_digest
    check_hash trusted_block
    raise_if (not (c.checkpoint_digest =? lower trusted_digest)) untrusted_digest
    raise_if (not (c.block_hash =? lower trusted_block)) untrusted_block

  -- `restore_checkpoint`. The accounts and the parent of a genesis were tested by the call before.
  unfoldable pub restore_checkpoint : Checkpoint → Text → Text → Store → Call
  restore_checkpoint c trusted_digest trusted_block s = do
    raise_if (not (is_empty s.blocks)) not_empty
    accounts ← verify_checkpoint c
    check_anchors s c trusted_digest trusted_block
    rows ← insert_row (restored_row c accounts) s.blocks
    return_head (record s { blocks = rows; base_height = some c.height })
