-- ===== src/StateStore/History.antt =====
-- state_store.py: the calls that change a store, one after another.
use junca_social_ecosystem_c.Common.{
  ℕ, ◌≡◌, refl, ap, ◌∙◌, subst, inl, inr, some, List, nat_eq, list_eq, ok, Text, Platform,
}
use junca_social_ecosystem_c.ProtocolKernel.Types.{Accounts}
use junca_social_ecosystem_c.StateStore.Types.{StoredBlock, BlockRow}
use junca_social_ecosystem_c.StateStore.Store.{
  Store, Commit, row_at, insert_row, initialize_genesis, commit_finalized_block,
}
use junca_social_ecosystem_c.StateStore.Checkpoint.{Checkpoint, restore_checkpoint}
use junca_social_ecosystem_c.StateStore.Inserted.{insert_row-eq-ok, row_at-place}
use junca_social_ecosystem_c.StateStore.Outcome.{commit-Committed}
use junca_social_ecosystem_c.StateStore.Opening.{
  initialize_genesis-Began, restore_checkpoint-Opened,
}

module _ (platform : Platform) where
  -- A call that returned.
  pub data Step (s t : Store) : Type 0 where
    genesis :
        (block_hash : Text) (given : Accounts) (base_fee : ℕ) (block : StoredBlock)
        → initialize_genesis platform block_hash given base_fee s ≡ ok (block, t)
        → Step s t
    commit :
        (c : Commit) (block : StoredBlock)
        → commit_finalized_block platform c s ≡ ok (block, t)
        → Step s t
    restore :
        (c : Checkpoint) (trusted_digest trusted_block : Text) (block : StoredBlock)
        → restore_checkpoint platform c trusted_digest trusted_block s ≡ ok (block, t)
        → Step s t

  pub data Steps : Store → Store → Type 0 where
    done : {s : Store} → Steps s s
    after : {s t u : Store} → Step s t → Steps t u → Steps s u

  inserted-keeps :
      (height : ℕ) (new : BlockRow) (rows result : List BlockRow) {row : BlockRow}
      → insert_row new rows ≡ ok result
      → row_at height rows ≡ some row
      → row_at height result ≡ some row
  inserted-keeps height new rows result {row} h found =
      let (free, placed) = insert_row-eq-ok new rows h in
      subst (λ (l : List BlockRow). row_at height l ≡ some row) placed
        (row_at-place height new rows free found)

  step-keeps :
      (height : ℕ) {s t : Store} {row : BlockRow}
      → Step s t
      → row_at height s.blocks ≡ some row
      → row_at height t.blocks ≡ some row
  step-keeps height {s} {t} (genesis block_hash given base_fee block h) found =
      let began = initialize_genesis-Began platform block_hash given base_fee s h in
      elim (began.outcome) [
        | inl (fresh, opened) ↦ inserted-keeps height _ s.blocks t.blocks opened.written found
        | inr (existing, there, same) ↦ ap (λ (v : Store). row_at height v.blocks) same ∙ found
      ]
  step-keeps height {s} {t} (commit c block h) found =
      inserted-keeps height _ s.blocks t.blocks (commit-Committed platform c s h).written found
  step-keeps height {s} {t} (restore c trusted_digest trusted_block block h) found =
      let (accounts, nothing, verified, anchored, opened) =
        restore_checkpoint-Opened platform c trusted_digest trusted_block s h in
      inserted-keeps height _ s.blocks t.blocks opened.written found

  -- Whatever calls of `initialize_genesis`, `commit_finalized_block` and `restore_checkpoint`
  -- return on a store, the row that it has for a height stays as it is.
  pub stored_forever :
      (height : ℕ) {s t : Store} (row : BlockRow)
      → Steps s t
      → row_at height s.blocks ≡ some row
      → row_at height t.blocks ≡ some row
  stored_forever height row done found = found
  stored_forever height row (after first rest) found =
      stored_forever height row rest (step-keeps height first found)

  step-chain : {s t : Store} → Step s t → t.chain_id ≡ s.chain_id
  step-chain {s} {t} (genesis block_hash given base_fee block h) =
      elim ((initialize_genesis-Began platform block_hash given base_fee s h).outcome) [
        | inl (fresh, opened) ↦ opened.chain
        | inr (existing, there, same) ↦ ap (λ (v : Store). v.chain_id) same
      ]
  step-chain {s} {t} (commit c block h) = (commit-Committed platform c s h).chain
  step-chain {s} {t} (restore c trusted_digest trusted_block block h) =
      let (accounts, nothing, verified, anchored, opened) =
        restore_checkpoint-Opened platform c trusted_digest trusted_block s h in
      opened.chain

  pub steps-chain : {s t : Store} → Steps s t → t.chain_id ≡ s.chain_id
  steps-chain done = refl
  steps-chain (after first rest) = steps-chain rest ∙ step-chain first
