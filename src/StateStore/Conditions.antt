-- ===== src/StateStore/Conditions.antt =====
-- state_store.py: the conditions under which `commit_finalized_block` returns.
use junca_social_ecosystem_c.Common.{
  suc, ◌*◌, ◌<◌, ◌≡◌, false, some, any_of, nat_eq, list_eq, ◌=?◌, ok, lower, Platform, ◌^◌,
}
use junca_social_ecosystem_c.ProtocolKernel.Types.{Accounts}
use junca_social_ecosystem_c.ProtocolKernel.Execution.{compute_state_root}
use junca_social_ecosystem_c.StateStore.Types.{BlockRow, check_hash, normalize}
use junca_social_ecosystem_c.StateStore.Store.{
  Store, Commit, last_row, is_bad_timestamp, is_wide_timestamp,
}

-- The numbers that a commit writes fit columns of 64 bits with a sign.
pub record Storable (c : Commit) : Type 0 where
  pub height : c.height < 2 ^ 63
  pub base_fee : c.transition.base_fee_per_gas < 2 ^ 63
  pub gas_used : c.transition.gas_used < 2 ^ 63
  pub timestamp : is_wide_timestamp c.timestamp ≡ false

-- The conditions on a commit: it extends the head, its certificate is for it and has a quorum, its
-- root is that of its accounts, its numbers fit their columns, and no stored block has its hash.
pub record Extends (platform : Platform) (s : Store) (current : BlockRow) (c : Commit)
    (accounts : Accounts) : Type 0 where
  pub is_head : last_row s.blocks ≡ some current
  pub next : c.height ≡ suc current.height
  pub hash : check_hash c.block_hash ≡ ok tt
  pub parent_formed : check_hash c.parent_hash ≡ ok tt
  pub parent : lower c.parent_hash ≡ current.block_hash
  pub chain : c.transition.chain_id ≡ s.chain_id
  pub certified_chain : c.certificate.chain_id ≡ s.chain_id
  pub bound_height : c.certificate.height ≡ c.height
  pub bound_hash : c.certificate.block_hash ≡ lower c.block_hash
  pub dated : is_bad_timestamp c.timestamp ≡ false
  pub quorum : c.certificate.total_power * 2 < c.certificate.signed_power * 3
  pub normal : normalize c.transition.accounts ≡ ok accounts
  pub root : c.transition.state_root ≡ compute_state_root platform accounts
  pub storable : Storable c
  pub unused : any_of (λ row. row.block_hash =? lower c.block_hash) s.blocks ≡ false
