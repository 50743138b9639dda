-- ===== src/StateStore/RoundTrip.antt =====
-- state_store.py: a checkpoint that one store exports and another restores.
use junca_social_ecosystem_c.Common.{
  ℕ, ◌≡◌, refl, ap, sym, subst, Bool, false, not, some, List, [], ◌∷◌, ◌==◌, nat_eq, list_eq, ◌=?◌,
  beq_refl, text_iff, ok, raise_if, raise_if-eq-ok, >>-ok, >>=-ok, raise_if-ok, >>-eq-ok,
  ok-injective, Text, lower, is_empty, Platform, ◌∙◌, true,
}
use junca_social_ecosystem_c.ProtocolKernel.Types.{Accounts}
use junca_social_ecosystem_c.ProtocolKernel.Execution.{compute_state_root}
use junca_social_ecosystem_c.StateStore.Types.{
  BlockRow, stored_block, Loads, check_hash, decode_accounts_json, bad_chain_id, root_mismatch,
  not_empty, chain_id_mismatch, untrusted_digest, fits_row,
}
use junca_social_ecosystem_c.StateStore.Store.{
  Store, make_store, last_row, place_row, row_at, insert_row, head, accounts_at, accounts_at_head,
}
use junca_social_ecosystem_c.StateStore.Integrity.{check_identity}
use junca_social_ecosystem_c.StateStore.Checkpoint.{
  Checkpoint, checkpoint_body, export_checkpoint, verify_checkpoint, check_anchors, restored_row,
  restore_checkpoint,
}
use junca_social_ecosystem_c.StateStore.Accounts.{Documented, decode_accounts_json-accounts_json}
use junca_social_ecosystem_c.StateStore.Chain.{Sound, Sound-identity}
use junca_social_ecosystem_c.StateStore.Inserted.{find_row-fits}
use junca_social_ecosystem_c.StateStore.History.{Steps, steps-chain}
use junca_social_ecosystem_c.StateStore.Preserved.{AllProper, reached-Intact}
use junca_social_ecosystem_c.StateStore.Exported.{
  canonical-lower, All-row_at, IsChain-Sound, exported, digest_formed, verify-exported,
}

insert_row-alone : (row : BlockRow) → fits_row row ≡ true → insert_row row [] ≡ ok (row ∷ [])
unfolding insert_row place_row
insert_row-alone row fits = rw fits refl

-- The checkpoint that `t` exports for a height is accepted by `s`, which then has the same block
-- and accounts at its head.
abbrev pub Transfers : Platform → Loads → Store → ℕ → BlockRow → Store → Type 0
Transfers platform loads t height row s =
    (c : Checkpoint) × (accounts : Accounts) × (u : Store) × (export_checkpoint platform loads
        height t
      ≡ ok c)
    × (accounts_at platform loads height t ≡ ok accounts)
    × (restore_checkpoint platform c c.checkpoint_digest row.block_hash s
        ≡ ok (stored_block row, u))
    × (accounts_at_head platform loads u ≡ ok accounts)

module _ (platform : Platform) (loads : Loads) (law : Documented platform loads) where
  export-Sound :
      (height : ℕ) (t : Store) {row : BlockRow}
      → row_at height t.blocks ≡ some row
      → (sound : Sound platform loads row)
      → export_checkpoint platform loads height t
        ≡ ok (exported platform loads law t.chain_id row sound.accounts)
  unfolding export_checkpoint
  export-Sound height t {row} found sound =
      let decoded =
        subst (λ (s : Text). decode_accounts_json platform loads s ≡ ok sound.accounts)
          (sym sound.snapshot)
          (decode_accounts_json-accounts_json platform loads law sound.accounts sound.normal) in
      rw (find_row-fits height t.blocks found sound.fits) (
        rw decoded (
          >>-ok
            (raise_if (not (compute_state_root platform sound.accounts =? row.state_root))
              root_mismatch)
            (raise_if-ok _ _ (ap not ((text_iff _ _).1 (sym sound.commits))))
            (>>-ok (check_identity row) (Sound-identity sound) refl)))

  anchors-exported :
      (s : Store) (row : BlockRow) (accounts : Accounts)
      → Sound platform loads row
      → check_anchors platform s
          (exported platform loads law s.chain_id row accounts)
          (exported platform loads law s.chain_id row accounts).checkpoint_digest
          row.block_hash
        ≡ ok tt
  unfolding check_anchors
  anchors-exported s row accounts sound =
      let c = exported platform loads law s.chain_id row accounts in
      let (digest, digest_lower) =
        canonical-lower c.checkpoint_digest
          (digest_formed platform loads law (checkpoint_body platform s.chain_id row accounts)) in
      let (hash, hash_lower) = canonical-lower row.block_hash sound.hash in
      >>-ok (raise_if (not (c.chain_id == s.chain_id)) chain_id_mismatch)
        (raise_if-ok _ _ (ap not (beq_refl s.chain_id)))
        (>>-ok (check_hash c.checkpoint_digest) digest (
          >>-ok (check_hash row.block_hash) hash (
            >>-ok
              (raise_if (not (c.checkpoint_digest =? lower c.checkpoint_digest)) untrusted_digest)
              (raise_if-ok _ _ (ap not ((text_iff _ _).1 digest_lower)))
              (raise_if-ok _ _ (ap not ((text_iff _ _).1 hash_lower))))))

  -- The store after a restore.
  abbrev restored : Store → BlockRow → Accounts → Store
  restored s row accounts = record s {
    blocks =
        restored_row platform (exported platform loads law s.chain_id row accounts) accounts ∷ [];
    base_height = some row.height;
  }

  restore-exported :
      (s : Store) (row : BlockRow)
      → s.blocks ≡ []
      → (s.chain_id == 0) ≡ false
      → (sound : Sound platform loads row)
      → restore_checkpoint platform
          (exported platform loads law s.chain_id row sound.accounts)
          (exported platform loads law s.chain_id row sound.accounts).checkpoint_digest
          row.block_hash
          s
        ≡ ok (stored_block row, restored s row sound.accounts)
  unfolding restore_checkpoint place_row head last_row fits_row
  restore-exported s row empty positive sound =
      let c = exported platform loads law s.chain_id row sound.accounts in
      >>-ok (raise_if (not (is_empty s.blocks)) not_empty)
        (raise_if-ok _ _ (ap (λ (l : List BlockRow). not (is_empty l)) empty))
        (>>=-ok (verify_checkpoint platform c) _ sound.accounts
          (verify-exported platform loads law s.chain_id row positive sound)
          (>>-ok (check_anchors platform s c c.checkpoint_digest row.block_hash)
            (anchors-exported s row sound.accounts sound)
            (>>=-ok (insert_row (restored_row platform c sound.accounts) s.blocks) _
              (restored_row platform c sound.accounts ∷ [])
              (ap (insert_row (restored_row platform c sound.accounts)) empty
                ∙ insert_row-alone (restored_row platform c sound.accounts) sound.fits)
              (ap
                (λ (f : Bool).
                  ok (record (stored_block row) { finalized = f }, restored s row sound.accounts))
                (sym sound.final)))))

  accounts_at-Sound :
      (height : ℕ) (t : Store) {row : BlockRow}
      → row_at height t.blocks ≡ some row
      → (sound : Sound platform loads row) → accounts_at platform loads height t ≡ ok sound.accounts
  unfolding accounts_at
  accounts_at-Sound height t found sound = rw (find_row-fits height t.blocks found sound.fits) (
      subst (λ (s : Text). decode_accounts_json platform loads s ≡ ok sound.accounts)
        (sym sound.snapshot)
        (decode_accounts_json-accounts_json platform loads law sound.accounts sound.normal))

  accounts_at_head-restored :
      (s : Store) (row : BlockRow) (sound : Sound platform loads row)
      → accounts_at_head platform loads (restored s row sound.accounts) ≡ ok sound.accounts
  unfolding accounts_at_head accounts_at last_row row_at fits_row
  accounts_at_head-restored s row sound =
      let kept =
        restored_row platform (exported platform loads law s.chain_id row sound.accounts)
          sound.accounts in
      rw
        (find_row-fits row.height (kept ∷ []) {row = kept} (rw (beq_refl row.height) refl)
          sound.fits)
        (decode_accounts_json-accounts_json platform loads law sound.accounts sound.normal)

  pub make_store-fresh :
      (chain_id : ℕ) {s : Store}
      → make_store chain_id ≡ ok s
      → (s.blocks ≡ []) × ((s.chain_id == 0) ≡ false)
  unfolding make_store
  make_store-fresh chain_id {s} h =
      let (valid, made) = >>-eq-ok (raise_if (chain_id == 0) bad_chain_id) _ h in
      subst (λ (u : Store). (u.blocks ≡ []) × ((u.chain_id == 0) ≡ false)) (ok-injective made)
        (refl, raise_if-eq-ok _ _ valid)

  -- On a store made by calls of `initialize_genesis`, `commit_finalized_block` and
  -- `restore_checkpoint` that returned (a genesis only on no blocks or on a chain from height
  -- 0, a commit with a positive base fee and a canonical certificate hash), `export_checkpoint`
  -- returns for every stored height. The empty store with which they began accepts that
  -- checkpoint under its own digest and block hash, returns the stored block, and
  -- `accounts_at()` gives what `accounts_at` gave for the height. All this where JSON and
  -- digests behave as documented.
  pub export-restore :
      (chain_id : ℕ) {start t : Store}
      → make_store chain_id ≡ ok start
      → (steps : Steps platform start t) → AllProper steps
      → (height : ℕ) {row : BlockRow} → row_at height t.blocks ≡ some row
      → Transfers platform loads t height row start
  export-restore chain_id {start} {t} made steps proper height {row} found =
      let chain = reached-Intact platform loads law chain_id made steps proper in
      let sound =
        All-row_at (Sound platform loads) height t.blocks
          (IsChain-Sound platform loads t.base_height t.blocks chain) found in
      let (empty, positive) = make_store-fresh chain_id made in
      (
        exported platform loads law start.chain_id row sound.accounts,
        sound.accounts,
        restored start row sound.accounts,
        subst
            (λ (n : ℕ).
              export_checkpoint platform loads height t
              ≡ ok (exported platform loads law n row sound.accounts))
            (steps-chain platform steps) (export-Sound height t found sound),
        accounts_at-Sound height t found sound,
        restore-exported start row empty positive sound,
        accounts_at_head-restored start row sound,
      )
