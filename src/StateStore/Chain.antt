-- ===== src/StateStore/Chain.antt =====
-- state_store.py: the chain of stored rows that `integrity_check` accepts.
use junca_social_ecosystem_c.Common.{
  ℕ, suc, ◌≡◌, refl, sym, subst, inl, inr, true, false, not, ◌&&◌, ◌||◌, Option, none, some, List,
  [], ◌∷◌, ◌==◌, nat_eq, list_eq, beq_refl, All, ok, raise_if-eq-ok, >>-eq-ok, Text, Items, array,
  Platform, Bool-cases,
}
use junca_social_ecosystem_c.ProtocolKernel.Types.{Accounts}
use junca_social_ecosystem_c.ProtocolKernel.Execution.{compute_state_root}
use junca_social_ecosystem_c.StateStore.Types.{
  BlockRow, check_hash, accounts_json, Loads, decode_accounts_json, fits_row,
}
use junca_social_ecosystem_c.StateStore.Store.{Store}
use junca_social_ecosystem_c.StateStore.Integrity.{
  check_canonical, check_optional, check_evidence, check_identity, check_receipts, check_row,
  check_rows, check_blocks, lacks,
}
use junca_social_ecosystem_c.StateStore.Accounts.{
  Normal, Documented, decode_accounts_json-accounts_json,
}

-- A row whose hashes are well formed, whose numbers fit their columns, whose snapshot has its state root, and whose finality
-- evidence is there.
pub record Sound (platform : Platform) (loads : Loads) (row : BlockRow) : Type 0 where
  pub hash : check_canonical row.block_hash ≡ ok tt
  pub parent : check_canonical row.parent_hash ≡ ok tt
  pub root : check_canonical row.state_root ≡ ok tt
  pub evidence : check_evidence row ≡ ok tt
  pub certificate : check_optional check_canonical row.certificate_hash ≡ ok tt
  pub final : row.finalized ≡ true
  pub base_fee : (row.base_fee_per_gas == 0) ≡ false
  pub fits : fits_row row ≡ true
  pub accounts : Accounts
  pub normal : Normal accounts
  pub snapshot : row.accounts_json ≡ accounts_json platform accounts
  pub commits : row.state_root ≡ compute_state_root platform accounts
  pub receipts : Items
  pub listed : loads row.receipts_json ≡ some (array receipts)
  pub written : platform.dumps (array receipts) ≡ row.receipts_json

-- Each row continues the one before it.
abbrev pub Linked : ℕ → Text → List BlockRow → Type 0
Linked height parent [] = Unit
Linked height parent (row ∷ rows) =
    (row.height ≡ height) × (row.parent_hash ≡ parent) × Linked (suc height) row.block_hash rows

-- The rows are sound and linked, and the base height is the first one's.
abbrev pub IsChain : Platform → Loads → Option ℕ → List BlockRow → Type 0
IsChain platform loads base [] = base ≡ none
IsChain platform loads base (row ∷ rows) =
    (base ≡ some row.height)
    × Linked row.height row.parent_hash (row ∷ rows)
    × All (Sound platform loads) (row ∷ rows)

abbrev pub Intact : Platform → Loads → Store → Type 0
Intact platform loads s = IsChain platform loads s.base_height s.blocks

optional_hash :
    (o : Option Text)
    → check_optional check_canonical o ≡ ok tt
    → check_optional check_hash o ≡ ok tt
optional_hash none h = refl
optional_hash (some value) h = (>>-eq-ok (check_hash value) _ h).0

evidence-later :
    (row : BlockRow)
    → check_evidence row ≡ ok tt
    → (not (row.height == 0) && (not row.finalized || lacks row.certificate_hash)) ≡ false
unfolding check_evidence
evidence-later row h = elim (Bool-cases (row.height == 0)) [
  | inl first ↦ rw first refl
  | inr later ↦ rw later (raise_if-eq-ok _ _ (rw later at h))
]

pub Sound-identity :
    {platform : Platform} {loads : Loads} {row : BlockRow}
    → Sound platform loads row
    → check_identity row ≡ ok tt
unfolding check_identity
Sound-identity h = rw (h.hash, h.parent, h.root, h.evidence) (h.certificate)

module _ (platform : Platform) (loads : Loads) (law : Documented platform loads) where
  check_receipts-Sound :
      (row : BlockRow)
      → Sound platform loads row
      → check_receipts platform loads row.receipts_json ≡ ok tt
  unfolding check_receipts
  check_receipts-Sound row h = rw (h.listed) (rw (h.written, beq_refl row.receipts_json) refl)

  pub check_row-Sound :
      (row : BlockRow)
      → Sound platform loads row
      → check_row platform loads row.height row.parent_hash row ≡ ok tt
  unfolding check_row
  check_row-Sound row h =
      let decoded =
        subst (λ (t : Text). decode_accounts_json platform loads t ≡ ok h.accounts) (sym h.snapshot)
          (decode_accounts_json-accounts_json platform loads law h.accounts h.normal) in
      rw (beq_refl row.height, Sound-identity h, beq_refl row.parent_hash, h.base_fee, decoded)
        (rw (← h.snapshot, beq_refl row.accounts_json, check_receipts-Sound row h)
          (rw (← h.commits, beq_refl row.state_root)
            (rw (evidence-later row h.evidence)
              (optional_hash row.certificate_hash h.certificate))))

  check_rows-Linked :
      (height : ℕ) (parent : Text) (rows : List BlockRow)
      → Linked height parent rows
      → All (Sound platform loads) rows
      → check_rows platform loads height parent rows ≡ ok tt
  unfolding check_rows
  check_rows-Linked height parent [] l h = refl
  check_rows-Linked height parent (row ∷ rows) l h =
      let first =
        subst (λ (n : ℕ). check_row platform loads n parent row ≡ ok tt) l.0
          (subst (λ (t : Text). check_row platform loads row.height t row ≡ ok tt) l.1
            (check_row-Sound row h.0)) in
      rw first (check_rows-Linked (suc height) row.block_hash rows l.2 h.1)

  pub check_blocks-Intact :
      (base : Option ℕ) (row : BlockRow) (rows : List BlockRow)
      → IsChain platform loads base (row ∷ rows)
      → check_blocks platform loads base (row ∷ rows) ≡ ok tt
  unfolding check_blocks
  check_blocks-Intact base row rows (at_base, linked, sound) =
      let (hash, canonical) = >>-eq-ok (check_hash row.parent_hash) _ (sound.0.parent) in
      rw (at_base, hash, beq_refl row.height)
        (check_rows-Linked row.height row.parent_hash (row ∷ rows) linked sound)
