-- ===== src/StateStore/Tables.antt =====
-- state_store.py: the foreign keys. A certificate or a timestamp stands only for a stored height.
use junca_social_ecosystem_c.Common.{
  ℕ, ◌≡◌, refl, ap, ◌∙◌, sym, subst, inl, inr, false, Option, none, some, List, ◌==◌, ==_iff,
  nat_eq, list_eq, Dict, lookup, lookup-insert, ok, >>-eq-ok, ok-injective, raise_if, Text,
  Platform, Bool-cases, Option-cases,
}
use junca_social_ecosystem_c.StateStore.Types.{StoredBlock, BlockRow, bad_chain_id}
use junca_social_ecosystem_c.StateStore.Store.{
  Store, make_store, row_at, place_row, insert_row, with_timestamp, committed_row,
}
use junca_social_ecosystem_c.StateStore.Inserted.{insert_row-eq-ok, row_at-place, row_at_new}
use junca_social_ecosystem_c.StateStore.Outcome.{commit-Committed}
use junca_social_ecosystem_c.StateStore.Opening.{
  Opened, initialize_genesis-Began, restore_checkpoint-Opened,
}
use junca_social_ecosystem_c.StateStore.History.{Step, genesis, commit, restore, Steps, done, after}

abbrev pub Referenced : Store → Type 0
Referenced s =
    (height : ℕ)
    → row_at height s.blocks ≡ none
    → (lookup height s.certificates ≡ none) × (lookup height s.timestamps ≡ none)

absent_before :
    (height : ℕ) (new : BlockRow) (rows result : List BlockRow)
    → insert_row new rows ≡ ok result
    → row_at height result ≡ none
    → (row_at height rows ≡ none) × ((new.height == height) ≡ false)
absent_before height new rows result h absent =
    let (free, placed) = insert_row-eq-ok new rows h in
    let gone = subst (λ (l : List BlockRow). row_at height l ≡ none) (sym placed) absent in
    (
      elim (Option-cases (row_at height rows)) [
        | inl before ↦ before
        | inr (row, found) ↦ let there = row_at-place height new rows free found in absurd (cc)
      ],
      elim (Bool-cases (new.height == height)) [
        | inl same ↦
            let here =
              subst (λ (n : ℕ). row_at n (place_row new rows) ≡ some new)
                ((==_iff new.height height).0 same) (row_at_new new rows free) in
            absurd (cc)
        | inr other ↦ other
      ],
    )

module _ (platform : Platform) where
  Opened-Referenced :
      (row : BlockRow) (base : ℕ) (s : Store) {block : StoredBlock} {t : Store}
      → Opened row base s block t
      → Referenced s
      → Referenced t
  Opened-Referenced row base s {block} {t} opened r height absent =
      let (before, other) = absent_before height row s.blocks t.blocks opened.written absent in
      let (c, t') = r height before in
      (
        ap (λ (d : Dict ℕ Text). lookup height d) opened.certificates ∙ c,
        ap (λ (d : Dict ℕ ℕ). lookup height d) opened.timestamps ∙ t',
      )

  timestamp_other :
      (n height : ℕ) (timestamp : Option ℕ) (d : Dict ℕ ℕ)
      → (n == height) ≡ false
      → lookup height d ≡ none
      → lookup height (with_timestamp n timestamp d) ≡ none
  timestamp_other n height none d other h = h
  timestamp_other n height (some t) d other h = lookup-insert n height t d ∙ rw other h

  step-Referenced : {s t : Store} → Step platform s t → Referenced s → Referenced t
  step-Referenced {s} {t} (genesis block_hash given base_fee block h) r =
      elim ((initialize_genesis-Began platform block_hash given base_fee s h).outcome) [
        | inl (fresh, opened) ↦ Opened-Referenced _ 0 s opened r
        | inr (existing, there, same) ↦ subst Referenced (sym same) r
      ]
  step-Referenced {s} {t} (restore c trusted_digest trusted_block block h) r =
      let (accounts, nothing, verified, anchored, opened) =
        restore_checkpoint-Opened platform c trusted_digest trusted_block s h in
      Opened-Referenced _ c.height s opened r
  step-Referenced {s} {t} (commit c block h) r = λ height absent.
      let d = commit-Committed platform c s h in
      let (before, other) =
        absent_before height (committed_row platform c d.accounts) s.blocks t.blocks d.written
          absent in
      let (no_certificate, no_timestamp) = r height before in
      (
        ap (λ (e : Dict ℕ Text). lookup height e) d.certificates
            ∙ lookup-insert c.height height _ s.certificates
            ∙ rw other no_certificate,
        ap (λ (e : Dict ℕ ℕ). lookup height e) d.timestamps
            ∙ timestamp_other c.height height c.timestamp s.timestamps other no_timestamp,
      )

  steps-Referenced : {s t : Store} → Steps platform s t → Referenced s → Referenced t
  steps-Referenced done r = r
  steps-Referenced (after first rest) r = steps-Referenced rest (step-Referenced first r)

  pub reached-Referenced :
      (chain_id : ℕ) {s t : Store} → make_store chain_id ≡ ok s → Steps platform s t → Referenced t
  unfolding make_store
  reached-Referenced chain_id {s} made steps =
      let (valid, e) = >>-eq-ok (raise_if (chain_id == 0) bad_chain_id) _ made in
      steps-Referenced steps (subst Referenced (ok-injective e) (λ height absent. (refl, refl)))
