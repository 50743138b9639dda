-- ===== src/StateStore/Preserved.antt =====
-- state_store.py: `integrity_check` on what the calls have written.
use junca_social_ecosystem_c.Common.{
  ℕ, ◌+◌, ◌≡◌, refl, sym, subst, inl, inr, arith, ◌⊎◌, true, Option, none, some, List, [], ◌∷◌,
  ◌==◌, length, nat_eq, list_eq, ok, raise_if, >>-eq-ok, ok-injective, Platform, List-cases,
}
use junca_social_ecosystem_c.StateStore.Types.{StoredBlock, BlockRow, Loads, bad_chain_id}
use junca_social_ecosystem_c.StateStore.Store.{
  Store, make_store, last_row, place_row, row_at, insert_row, genesis_row, committed_row,
}
use junca_social_ecosystem_c.StateStore.Integrity.{IntegrityReport, integrity_check}
use junca_social_ecosystem_c.StateStore.Checkpoint.{restored_row}
use junca_social_ecosystem_c.StateStore.Accounts.{Documented}
use junca_social_ecosystem_c.StateStore.Chain.{Sound, IsChain, Intact, check_blocks-Intact}
use junca_social_ecosystem_c.StateStore.Inserted.{insert_row-eq-ok, insert_row-fits}
use junca_social_ecosystem_c.StateStore.Growth.{last_row-some, Linked-count, IsChain-place}
use junca_social_ecosystem_c.StateStore.Outcome.{commit-Committed}
use junca_social_ecosystem_c.StateStore.Opening.{
  Opened, initialize_genesis-Began, restore_checkpoint-Opened,
}
use junca_social_ecosystem_c.StateStore.Rows.{
  Certified, genesis_row-Sound, committed_row-Sound, restored_row-Sound,
}
use junca_social_ecosystem_c.StateStore.History.{Step, genesis, commit, restore, Steps, done, after}

module _ {platform : Platform} where
  -- A genesis on an empty store, or on one that has its genesis; a commit with a certificate's
  -- digest and a base fee that is positive.
  abbrev pub IsProper : {s t : Store} → Step platform s t → Type 0
  IsProper {s} (genesis block_hash given base_fee block h) =
      (s.blocks ≡ []) ⊎ (s.base_height ≡ some 0)
  IsProper (commit c block h) = Certified c
  IsProper (restore c trusted_digest trusted_block block h) = Unit

  abbrev pub AllProper : {s t : Store} → Steps platform s t → Type 0
  AllProper done = Unit
  AllProper (after first rest) = IsProper first × AllProper rest

-- The check returns a report on the last row, and the heights from the base to it are all there.
abbrev pub PassesCheck : Platform → Loads → Store → Type 0
PassesCheck platform loads t =
    (last : BlockRow) × (report : IntegrityReport) × (last_row t.blocks ≡ some last)
    × (integrity_check platform loads t ≡ ok report)
    × (report.head_hash ≡ last.block_hash)
    × (report.state_root ≡ last.state_root)
    × (report.head_height + 1 ≡ report.base_height + report.block_count)

module _ (platform : Platform) (loads : Loads) (law : Documented platform loads) where
  Opened-Intact :
      (row : BlockRow) (s : Store) {block : StoredBlock} {t : Store}
      → s.blocks ≡ []
      → Opened row row.height s block t
      → Sound platform loads row
      → Intact platform loads t
  unfolding place_row
  Opened-Intact row s {block} {t} empty opened sound =
      let (free, placed) =
        insert_row-eq-ok row []
          (subst (λ (l : List BlockRow). insert_row row l ≡ ok t.blocks) empty opened.written) in
      subst (λ (l : List BlockRow). IsChain platform loads t.base_height l) placed
        (opened.base_height, (refl, refl, tt), (sound, tt))

  -- A chain that starts at 0 has a row at 0.
  has_genesis :
      (rows : List BlockRow)
      → IsChain platform loads (some 0) rows
      → (row_at 0 rows ≡ none)
      → rows ≡ []
  unfolding row_at
  has_genesis [] chain absent = refl
  has_genesis (row ∷ rows) chain absent =
      let first : row.height ≡ 0 = (let e = chain.0 in cc) in
      let test : (row.height == 0) ≡ true = ground arith in
      let found : some row ≡ none = rw test at absent in absurd (cc)

  empty_of_absent :
      (s : Store)
      → Intact platform loads s
      → (s.blocks ≡ []) ⊎ (s.base_height ≡ some 0)
      → row_at 0 s.blocks ≡ none
      → s.blocks ≡ []
  empty_of_absent s intact (inl empty) absent = empty
  empty_of_absent s intact (inr first) absent =
      has_genesis s.blocks
        (subst (λ (b : Option ℕ). IsChain platform loads b s.blocks) first intact) absent

  pub step-Intact :
      {s t : Store} (step : Step platform s t)
      → IsProper step
      → Intact platform loads s
      → Intact platform loads t
  step-Intact {s} {t} (genesis block_hash given base_fee block h) proper intact =
      let began = initialize_genesis-Began platform block_hash given base_fee s h in
      elim (began.outcome) [
        | inl (absent, opened) ↦
            Opened-Intact (genesis_row platform block_hash base_fee began.accounts) s
              (empty_of_absent s intact proper absent) opened
              (genesis_row-Sound platform loads law block_hash base_fee began.given began.accounts
                began.hash began.priced began.normal
                (insert_row-fits (genesis_row platform block_hash base_fee began.accounts) s.blocks
                  opened.written))
        | inr (existing, there, same) ↦ subst (Intact platform loads) (sym same) intact
      ]
  step-Intact {s} {t} (commit c block h) proper intact =
      let d = commit-Committed platform c s h in
      let (free, placed) =
        insert_row-eq-ok (committed_row platform c d.accounts) s.blocks d.written in
      let sound = committed_row-Sound platform loads law c s proper d in
      let (chain, at_end) =
        IsChain-place platform loads s.base_height (committed_row platform c d.accounts) s.blocks
          intact d.was_head d.next d.parent sound in
      subst (λ (b : Option ℕ). IsChain platform loads b t.blocks) (sym d.base)
        (subst (IsChain platform loads s.base_height) placed chain)
  step-Intact {s} {t} (restore c trusted_digest trusted_block block h) proper intact =
      let (accounts, nothing, verified, anchored, opened) =
        restore_checkpoint-Opened platform c trusted_digest trusted_block s h in
      Opened-Intact (restored_row platform c accounts) s nothing opened (
        restored_row-Sound platform loads law c verified
          (insert_row-fits (restored_row platform c accounts) s.blocks opened.written))

  integrity_check-Intact :
      (s : Store) {row : BlockRow} {rows : List BlockRow}
      → s.blocks ≡ row ∷ rows
      → Intact platform loads s
      → PassesCheck platform loads s
  unfolding integrity_check
  integrity_check-Intact s {row} {rows} e intact =
      let chain = subst (IsChain platform loads s.base_height) e intact in
      let checked = check_blocks-Intact platform loads law s.base_height row rows chain in
      let (last, at_end) = last_row-some row rows in
      (
        last,
        record {
          base_height = row.height;
          head_height = last.height;
          head_hash = last.block_hash;
          state_root = last.state_root;
          block_count = length (row ∷ rows);
        },
        rw e at_end,
        rw (e, checked, at_end, chain.0) refl,
        refl,
        refl,
        Linked-count row.height row.parent_hash (row ∷ rows) chain.1 at_end,
      )

  steps-Intact :
      {s t : Store} (steps : Steps platform s t)
      → AllProper steps
      → Intact platform loads s
      → Intact platform loads t
  steps-Intact done proper intact = intact
  steps-Intact (after first rest) proper intact =
      steps-Intact rest proper.1 (step-Intact first proper.0 intact)

  make_store-Intact :
      (chain_id : ℕ) {s : Store} → make_store chain_id ≡ ok s → Intact platform loads s
  unfolding make_store
  make_store-Intact chain_id {s} h =
      let (valid, made) = >>-eq-ok (raise_if (chain_id == 0) bad_chain_id) _ h in
      subst (Intact platform loads) (ok-injective made) refl

  pub reached-Intact :
      (chain_id : ℕ) {s t : Store}
      → make_store chain_id ≡ ok s
      → (steps : Steps platform s t) → AllProper steps
      → Intact platform loads t
  reached-Intact chain_id made steps proper =
      steps-Intact steps proper (make_store-Intact chain_id made)

  -- Take a store made by the constructor and any calls of `initialize_genesis`,
  -- `commit_finalized_block` and `restore_checkpoint` that returned, where a genesis comes to
  -- an empty store or to a chain that begins at height 0, and a commit has a positive base fee
  -- and a certificate hash in canonical form. Then the store is empty, or `integrity_check`
  -- returns a report on its last row, and the heights from the base to the head are as many as
  -- the blocks; provided that JSON and digests behave as documented.
  pub integrity_holds :
      (chain_id : ℕ) {s t : Store}
      → make_store chain_id ≡ ok s
      → (steps : Steps platform s t) → AllProper steps
      → (t.blocks ≡ []) ⊎ PassesCheck platform loads t
  integrity_holds chain_id {s} {t} made steps proper = elim (List-cases t.blocks) [
    | inl empty ↦ inl empty
    | inr (row, rows, e) ↦
        inr (integrity_check-Intact t e (reached-Intact chain_id made steps proper))
  ]
