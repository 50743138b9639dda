-- ===== src/StateStore/Exported.antt =====
-- state_store.py: the checkpoint of a stored row, and `verify_checkpoint` on it.
use junca_social_ecosystem_c.Common.{
  ℕ, ◌≡◌, refl, ap, sym, subst, inl, inr, Bool, false, not, ◌||◌, Option, some, List, [], ◌∷◌, ◌==◌,
  nat_eq, list_eq, ◌=?◌, beq_refl, text_iff, All, ok, raise_if, >>-ok, >>=-ok, raise_if-ok,
  >>-eq-ok, Text, lower, object, Platform, Bool-cases,
}
use junca_social_ecosystem_c.ProtocolKernel.Types.{Accounts}
use junca_social_ecosystem_c.ProtocolKernel.Execution.{compute_state_root}
use junca_social_ecosystem_c.StateStore.Types.{
  BlockRow, Loads, check_hash, accounts_json, account_fields, decode_accounts, bad_schema,
  digest_mismatch, bad_value, not_finalized, root_mismatch, not_canonical,
}
use junca_social_ecosystem_c.StateStore.Store.{row_at}
use junca_social_ecosystem_c.StateStore.Integrity.{check_canonical, check_optional, check_evidence}
use junca_social_ecosystem_c.StateStore.Checkpoint.{
  Checkpoint, schema, checkpoint_body, checkpoint_json, digest_of, check_finality,
  verify_checkpoint,
}
use junca_social_ecosystem_c.StateStore.Accounts.{
  Documented, sorted_items-Normal, decode_accounts-account_fields,
}
use junca_social_ecosystem_c.StateStore.Chain.{Sound, IsChain}
use junca_social_ecosystem_c.StateStore.Rows.{digest_canonical}
use junca_social_ecosystem_c.StateStore.Outcome.{same_text}

pub canonical-lower :
    (value : Text)
    → check_canonical value ≡ ok tt
    → (check_hash value ≡ ok tt) × (value ≡ lower value)
canonical-lower value h =
    let (formed, lowered) = >>-eq-ok (check_hash value) _ h in
    (formed, same_text value (lower value) not_canonical lowered)

pub formed : (value : Text) → check_canonical value ≡ ok tt → check_hash value ≡ ok tt
formed value h = (>>-eq-ok (check_hash value) _ h).0

pub lowered :
    (value : Text)
    → check_canonical value ≡ ok tt
    → raise_if (not (value =? lower value)) not_canonical ≡ ok tt
lowered value h = (>>-eq-ok (check_hash value) _ h).1

pub All-row_at :
    (P : BlockRow → Type 0) (height : ℕ) (rows : List BlockRow) {row : BlockRow}
    → All P rows
    → row_at height rows ≡ some row
    → P row
unfolding row_at
All-row_at P height [] every found = absurd (cc)
All-row_at P height (row ∷ rows) every found = elim (Bool-cases (row.height == height)) [
  | inl this ↦ let g = rw this at found in subst P (cc) every.0
  | inr other ↦ All-row_at P height rows every.1 (rw other at found)
]

pub IsChain-Sound :
    (platform : Platform) (loads : Loads) (base : Option ℕ) (rows : List BlockRow)
    → IsChain platform loads base rows
    → All (Sound platform loads) rows
IsChain-Sound platform loads base [] chain = tt
IsChain-Sound platform loads base (row ∷ rows) chain = chain.2

module _ (platform : Platform) (loads : Loads) (law : Documented platform loads) where
  -- The checkpoint of a row.
  abbrev pub exported : ℕ → BlockRow → Accounts → Checkpoint
  exported chain_id row accounts = record (checkpoint_body platform chain_id row accounts) {
    checkpoint_digest = digest_of platform (checkpoint_body platform chain_id row accounts);
  }

  pub digest-exported :
      (chain_id : ℕ) (row : BlockRow) (accounts : Accounts)
      → digest_of platform (exported chain_id row accounts)
        ≡ (exported chain_id row accounts).checkpoint_digest
  unfolding digest_of checkpoint_json
  digest-exported chain_id row accounts = refl

  pub digest_formed : (c : Checkpoint) → check_canonical (digest_of platform c) ≡ ok tt
  unfolding digest_of
  digest_formed c = digest_canonical platform loads law (_)

  evidence-finality :
      (chain_id : ℕ) (row : BlockRow) (accounts : Accounts)
      → Sound platform loads row
      → check_finality platform (exported chain_id row accounts) ≡ ok tt
  unfolding check_finality check_evidence
  evidence-finality chain_id row accounts sound =
      subst
        (λ (f : Bool).
          check_evidence (record row { finalized = f }) ≡ ok tt
          → check_finality platform (exported chain_id row accounts) ≡ ok tt)
        (sym sound.final) (λ e. e) sound.evidence

  pub verify-exported :
      (chain_id : ℕ) (row : BlockRow)
      → (chain_id == 0) ≡ false
      → (sound : Sound platform loads row)
      → verify_checkpoint platform (exported chain_id row sound.accounts) ≡ ok sound.accounts
  unfolding verify_checkpoint
  verify-exported chain_id row positive sound =
      let body = checkpoint_body platform chain_id row sound.accounts in
      let c = exported chain_id row sound.accounts in
      let decoded : decode_accounts c.accounts ≡ ok sound.accounts =
        subst (λ (a : Accounts). decode_accounts (account_fields a) ≡ ok sound.accounts)
          (sym (sorted_items-Normal sound.accounts sound.normal))
          (decode_accounts-account_fields sound.accounts sound.normal) in
      let digested : not (c.checkpoint_digest =? digest_of platform c) ≡ false =
        rw (digest-exported chain_id row sound.accounts, beq_refl (digest_of platform body)) refl in
      >>-ok (raise_if (not (c.schema_version =? schema)) bad_schema) refl (
        >>-ok (check_canonical c.checkpoint_digest) (digest_formed body) (
          >>-ok (raise_if (not (c.checkpoint_digest =? digest_of platform c)) digest_mismatch)
            (raise_if-ok _ _ digested)
            (>>-ok (raise_if (c.chain_id == 0 || c.base_fee_per_gas == 0) bad_value)
              (rw (positive, sound.base_fee) refl)
              (>>-ok (raise_if (not c.finalized) not_finalized)
                (raise_if-ok _ _ (ap not sound.final))
                (>>=-ok (decode_accounts c.accounts) _ sound.accounts decoded (
                  >>-ok
                    (raise_if
                      (not (
                        platform.dumps (object c.accounts)
                        =? accounts_json platform sound.accounts))
                      not_canonical)
                    (raise_if-ok _ _ (ap not (beq_refl (accounts_json platform sound.accounts))))
                    (>>-ok
                      (raise_if (not (c.state_root =? compute_state_root platform sound.accounts))
                        root_mismatch)
                      (raise_if-ok _ _ (ap not ((text_iff _ _).1 sound.commits)))
                      (>>-ok (check_hash row.block_hash) (formed row.block_hash sound.hash) (
                        >>-ok (check_hash row.parent_hash) (formed row.parent_hash sound.parent) (
                          >>-ok (check_hash row.state_root) (formed row.state_root sound.root) (
                            >>-ok
                              (raise_if (not (row.block_hash =? lower row.block_hash))
                                not_canonical)
                              (lowered row.block_hash sound.hash)
                              (>>-ok
                                (raise_if (not (row.parent_hash =? lower row.parent_hash))
                                  not_canonical)
                                (lowered row.parent_hash sound.parent)
                                (>>-ok
                                  (raise_if (not (row.state_root =? lower row.state_root))
                                    not_canonical)
                                  (lowered row.state_root sound.root)
                                  (>>-ok (check_finality platform c)
                                    (evidence-finality chain_id row sound.accounts sound)
                                    (>>-ok (check_optional check_canonical c.certificate_hash)
                                      sound.certificate refl)))))))))))))))
