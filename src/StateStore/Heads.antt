-- ===== src/StateStore/Heads.antt =====
-- state_store.py: what a commit leaves at the head, and a genesis behind a restored checkpoint.
use junca_social_ecosystem_c.Common.{
  ℕ, suc, ◌+◌, ◌*◌, ◌<◌, ◌≡◌, refl, sym, subst, inl, inr, arith, true, false, Option, some, ltb,
  List, [], ◌∷◌, ◌==◌, nat_eq, list_eq, ok, err, >>-eq-ok, ok-injective, Text, lower, Platform,
}
use junca_social_ecosystem_c.ProtocolKernel.Types.{Accounts}
use junca_social_ecosystem_c.ProtocolKernel.Execution.{compute_state_root}
use junca_social_ecosystem_c.StateStore.Types.{
  StoredBlock, BlockRow, stored_block, Loads, normalize, not_contiguous, check_hash,
  decode_accounts_json, fits_row,
}
use junca_social_ecosystem_c.StateStore.Store.{
  Store, Commit, make_store, last_row, place_row, row_at, insert_row, head, genesis_row,
  committed_row, initialize_genesis, commit_finalized_block, accounts_at, accounts_at_head,
}
use junca_social_ecosystem_c.StateStore.Integrity.{
  integrity_check, check_blocks, check_rows, check_row,
}
use junca_social_ecosystem_c.StateStore.Accounts.{
  Documented, normalize-Normal, decode_accounts_json-accounts_json,
}
use junca_social_ecosystem_c.StateStore.Chain.{Sound, IsChain, check_row-Sound}
use junca_social_ecosystem_c.StateStore.Inserted.{
  insert_row-eq-ok, insert_row-fits, row_at_new, find_row-fits,
}
use junca_social_ecosystem_c.StateStore.Growth.{Linked-row_at-le, IsChain-place}
use junca_social_ecosystem_c.StateStore.Outcome.{commit-Committed}
use junca_social_ecosystem_c.StateStore.Opening.{initialize_genesis-Began}
use junca_social_ecosystem_c.StateStore.Rows.{Certified, genesis_row-Sound, committed_row-Sound}
use junca_social_ecosystem_c.StateStore.History.{Steps}
use junca_social_ecosystem_c.StateStore.Preserved.{AllProper, reached-Intact}

-- The committed block is the head, on top of the head before it, by more than two thirds of the
-- power, and its accounts are read back.
abbrev pub BecomesHead : Platform → Loads → Store → Commit → StoredBlock → Store → Type 0
BecomesHead platform loads s c block t =
    (parent : BlockRow) × (accounts : Accounts) × (last_row s.blocks ≡ some parent)
    × (last_row t.blocks ≡ some (committed_row platform c accounts))
    × (block ≡ stored_block (committed_row platform c accounts))
    × (c.height ≡ suc parent.height)
    × (lower c.parent_hash ≡ parent.block_hash)
    × (normalize c.transition.accounts ≡ ok accounts)
    × (c.transition.state_root ≡ compute_state_root platform accounts)
    × (c.certificate.block_hash ≡ lower c.block_hash)
    × (c.certificate.total_power * 2 < c.certificate.signed_power * 3)
    × (accounts_at_head platform loads t ≡ ok accounts)

module _ (platform : Platform) (loads : Loads) (law : Documented platform loads) where
  returned_row :
      (t : Store) (new : BlockRow) {block : StoredBlock}
      → last_row t.blocks ≡ some new
      → head t ≡ ok block
      → block ≡ stored_block new
  unfolding head
  returned_row t new last h = sym (ok-injective (rw last at h))

  accounts_found :
      (t : Store) (new : BlockRow) (accounts : Accounts)
      → last_row t.blocks ≡ some new
      → row_at new.height t.blocks ≡ some new
      → fits_row new ≡ true
      → decode_accounts_json platform loads new.accounts_json ≡ ok accounts
      → accounts_at_head platform loads t ≡ ok accounts
  unfolding accounts_at_head accounts_at
  accounts_found t new accounts last found fits decoded =
      rw last (rw (find_row-fits new.height t.blocks found fits) decoded)

  -- On a store made by calls of `initialize_genesis`, `commit_finalized_block` and
  -- `restore_checkpoint` that returned (a genesis only on no blocks or on a chain from height
  -- 0, a commit with a positive base fee and a canonical certificate hash), a commit that
  -- returns has a height one above the head's and names it as parent; its certificate is for
  -- that block and signed by more than two thirds of the power; its state root is that of the
  -- normalised accounts. Its row is the last one, the block returned is read from that, and
  -- `accounts_at()` gives the normalised accounts. All this where JSON and digests behave as
  -- documented.
  pub commit-BecomesHead :
      (chain_id : ℕ) {start s t : Store}
      → make_store chain_id ≡ ok start
      → (steps : Steps platform start s) → AllProper steps
      → (c : Commit) {block : StoredBlock} → Certified c
      → commit_finalized_block platform c s ≡ ok (block, t)
      → BecomesHead platform loads s c block t
  commit-BecomesHead chain_id {start} {s} {t} made steps proper c certified h =
      let d = commit-Committed platform c s h in
      let new = committed_row platform c d.accounts in
      let (free, placed) = insert_row-eq-ok new s.blocks d.written in
      let sound = committed_row-Sound platform loads law c s certified d in
      let (chain, at_end) =
        IsChain-place platform loads s.base_height new s.blocks
          (reached-Intact platform loads law chain_id made steps proper) d.was_head d.next d.parent
          sound in
      let last = subst (λ (l : List BlockRow). last_row l ≡ some new) placed at_end in
      let found =
        subst (λ (l : List BlockRow). row_at c.height l ≡ some new) placed
          (row_at_new new s.blocks free) in
      (
        d.current,
        d.accounts,
        d.was_head,
        last,
        returned_row t new last d.returned,
        d.next,
        d.parent,
        d.normal,
        d.root,
        d.bound.1,
        d.quorum,
        accounts_found t new d.accounts last found sound.fits (
            decode_accounts_json-accounts_json platform loads law d.accounts
              (normalize-Normal c.transition.accounts d.normal)),
      )

  gap_found :
      (genesis row : BlockRow) (rows : List BlockRow) (base : ℕ)
      → Sound platform loads genesis
      → genesis.height ≡ 0
      → row.height ≡ base + 2
      → check_blocks platform loads (some 0) (genesis ∷ row ∷ rows) ≡ err not_contiguous
  unfolding check_blocks check_rows check_row
  gap_found genesis row rows base sound first above =
      let at_base : (0 == genesis.height) ≡ true = ground arith in
      let (hash, canonical) = >>-eq-ok (check_hash genesis.parent_hash) _ sound.parent in
      let apart : (row.height == suc genesis.height) ≡ false = ground arith in
      rw (at_base, hash) (rw (check_row-Sound platform loads law genesis sound) (rw apart refl))

  genesis_before :
      (genesis : BlockRow) (rows result : List BlockRow) (base : ℕ)
      → Sound platform loads genesis
      → genesis.height ≡ 0
      → IsChain platform loads (some (base + 2)) rows
      → insert_row genesis rows ≡ ok result
      → check_blocks platform loads (some 0) result ≡ err not_contiguous
  unfolding place_row
  genesis_before genesis [] result base sound first chain inserted = absurd (cc)
  genesis_before genesis (row ∷ rows) result base sound first chain inserted =
      let (free, placed) = insert_row-eq-ok genesis (row ∷ rows) inserted in
      let above : row.height ≡ base + 2 = (let e = chain.0 in cc) in
      let before : ltb genesis.height row.height ≡ true = ground arith in
      subst (λ (l : List BlockRow). check_blocks platform loads (some 0) l ≡ err not_contiguous)
        (rw before at placed) (gap_found genesis row rows base sound first above)

  failed_blocks :
      (u : Store)
      → u.base_height ≡ some 0
      → check_blocks platform loads (some 0) u.blocks ≡ err not_contiguous
      → integrity_check platform loads u ≡ err not_contiguous
  unfolding integrity_check
  failed_blocks u at_base failed =
      subst
        (λ (b : Option ℕ).
          check_blocks platform loads b u.blocks ≡ err not_contiguous
          → integrity_check platform loads u ≡ err not_contiguous)
        at_base (λ e. rw e refl) failed

  none_at_genesis :
      (rows : List BlockRow) (base : ℕ) {row : BlockRow}
      → IsChain platform loads (some (base + 2)) rows
      → row_at 0 rows ≡ some row
      → ⊥
  none_at_genesis [] base chain found = absurd (cc)
  none_at_genesis (row ∷ rows) base chain found =
      let le = Linked-row_at-le row.height row.parent_hash (row ∷ rows) 0 chain.1 found in
      let above : row.height ≡ base + 2 = (let e = chain.0 in cc) in absurd (omega arith)

  -- On a store made by calls of `initialize_genesis`, `commit_finalized_block` and
  -- `restore_checkpoint` that returned (a genesis only on no blocks or on a chain from height
  -- 0, a commit with a positive base fee and a canonical certificate hash), whose base height
  -- is 2 or more, a later call of `initialize_genesis` that returns leaves a store that
  -- `integrity_check` refuses: the heights are not contiguous. All this where JSON and digests
  -- behave as documented.
  pub genesis_breaks_restored :
      (chain_id : ℕ) {start s t : Store}
      → make_store chain_id ≡ ok start
      → (steps : Steps platform start s) → AllProper steps
      → (base : ℕ) → s.base_height ≡ some (base + 2)
      → (block_hash : Text) (given : Accounts) (base_fee : ℕ) {block : StoredBlock}
      → initialize_genesis platform block_hash given base_fee s ≡ ok (block, t)
      → integrity_check platform loads t ≡ err not_contiguous
  genesis_breaks_restored chain_id {start} {s} {t} made steps proper base above block_hash given
        base_fee h =
      let intact = reached-Intact platform loads law chain_id made steps proper in
      let began = initialize_genesis-Began platform block_hash given base_fee s h in
      let chain = subst (λ (b : Option ℕ). IsChain platform loads b s.blocks) above intact in
      elim (began.outcome) [
        | inl (absent, opened) ↦ failed_blocks t opened.base_height (
            genesis_before (genesis_row platform block_hash base_fee began.accounts) s.blocks
              t.blocks base
              (genesis_row-Sound platform loads law block_hash base_fee began.given began.accounts
                began.hash began.priced began.normal
                (insert_row-fits (genesis_row platform block_hash base_fee began.accounts) s.blocks
                  opened.written))
              refl chain opened.written)
        | inr (existing, there, same) ↦ absurd (none_at_genesis s.blocks base chain there)
      ]
