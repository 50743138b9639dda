-- ===== src/StateStore/Opening.antt =====
-- state_store.py: what `initialize_genesis` and `restore_checkpoint` have tested and written.
use junca_social_ecosystem_c.Common.{
  ℕ, ◌≡◌, refl, ap, ◌∙◌, sym, subst, inl, inr, arith, ◌⊎◌, true, false, not, ◌||◌, Option, none,
  some, List, [], ◌∷◌, ◌==◌, nat_eq, list_eq, ◌=?◌, ok, raise_if, raise_if-eq-ok, >>=-eq-ok,
  >>-eq-ok, >>-ok, ok-injective, Text, lower, Platform, object, is_empty,
}
use junca_social_ecosystem_c.ProtocolKernel.Types.{Accounts}
use junca_social_ecosystem_c.ProtocolKernel.Execution.{compute_state_root}
use junca_social_ecosystem_c.StateStore.Types.{
  StoredBlock, BlockRow, check_hash, normalize, accounts_json, decode_accounts, bad_base_fee,
  bad_schema, digest_mismatch, bad_value, not_finalized, not_canonical, root_mismatch, not_empty,
  other_genesis,
}
use junca_social_ecosystem_c.StateStore.Store.{
  Store, row_at, insert_row, head, genesis_row, place_genesis, initialize_genesis,
}
use junca_social_ecosystem_c.StateStore.Integrity.{check_canonical, check_optional}
use junca_social_ecosystem_c.StateStore.Checkpoint.{
  Checkpoint, schema, digest_of, check_finality, verify_checkpoint, restored_row, check_anchors,
  restore_checkpoint,
}
use junca_social_ecosystem_c.StateStore.Outcome.{same_text, return_head-eq-ok}

-- A row that a call has written, with the base height of the store after it.
pub record Opened (row : BlockRow) (base : ℕ) (s : Store) (block : StoredBlock) (t : Store)
    : Type 0 where
  pub written : insert_row row s.blocks ≡ ok t.blocks
  pub base_height : t.base_height ≡ some base
  pub chain : t.chain_id ≡ s.chain_id
  pub certificates : t.certificates ≡ s.certificates
  pub timestamps : t.timestamps ≡ s.timestamps
  pub returned : head t ≡ ok block

-- A genesis that a store has taken, or had.
pub record Began (platform : Platform) (block_hash : Text) (base_fee : ℕ) (s : Store)
    (block : StoredBlock) (t : Store) : Type 0 where
  pub hash : check_hash block_hash ≡ ok tt
  pub priced : (base_fee == 0) ≡ false
  pub given : Accounts
  pub accounts : Accounts
  pub normal : normalize given ≡ ok accounts
  pub outcome :
      ((row_at 0 s.blocks ≡ none)
        × Opened (genesis_row platform block_hash base_fee accounts) 0 s block t)
      ⊎ ((existing : BlockRow) × (row_at 0 s.blocks ≡ some existing) × (t ≡ s))

-- A checkpoint that has passed every test of `verify_checkpoint`.
pub record Verified (platform : Platform) (c : Checkpoint) (accounts : Accounts) : Type 0 where
  pub digest : c.checkpoint_digest ≡ digest_of platform c
  pub priced : (c.base_fee_per_gas == 0) ≡ false
  pub final : c.finalized ≡ true
  pub decoded : decode_accounts c.accounts ≡ ok accounts
  pub root : c.state_root ≡ compute_state_root platform accounts
  pub hash : check_canonical c.block_hash ≡ ok tt
  pub parent : check_canonical c.parent_hash ≡ ok tt
  pub root_formed : check_canonical c.state_root ≡ ok tt
  pub finality : check_finality platform c ≡ ok tt
  pub certificate : check_optional check_canonical c.certificate_hash ≡ ok tt

module _ (platform : Platform) where
  place_genesis-eq-ok :
      (row : BlockRow) (s : Store) (found : Option BlockRow) {block : StoredBlock} {t : Store}
      → place_genesis platform row s found ≡ ok (block, t)
      → ((found ≡ none) × Opened row 0 s block t)
        ⊎ ((existing : BlockRow) × (found ≡ some existing) × (t ≡ s))
  unfolding place_genesis
  place_genesis-eq-ok row s (some existing) {block} {t} h =
      let (same, done) =
        >>-eq-ok
          (raise_if
            (not (existing.block_hash =? row.block_hash)
              || not (existing.state_root =? row.state_root))
            other_genesis)
          _ h in
      inr (existing, refl, sym (ap (λ (p : StoredBlock × Store). p.1) (ok-injective done)))
  place_genesis-eq-ok row s none h =
      let (rows, placed, rest) = >>=-eq-ok (insert_row row s.blocks) _ h in
      let (st, returned) = return_head-eq-ok _ rest in
      inl (
        refl,
        record {
          written = placed ∙ ap (λ (v : Store). ok v.blocks) st;
          base_height = sym (ap (λ (v : Store). v.base_height) st);
          chain = sym (ap (λ (v : Store). v.chain_id) st);
          certificates = sym (ap (λ (v : Store). v.certificates) st);
          timestamps = sym (ap (λ (v : Store). v.timestamps) st);
          returned = returned;
        },
      )

  pub initialize_genesis-Began :
      (block_hash : Text) (given : Accounts) (base_fee : ℕ) (s : Store) {block : StoredBlock}
      {t : Store}
      → initialize_genesis platform block_hash given base_fee s ≡ ok (block, t)
      → Began platform block_hash base_fee s block t
  unfolding initialize_genesis
  initialize_genesis-Began block_hash given base_fee s h0 =
      let (hash, h1) = >>-eq-ok (check_hash block_hash) _ h0 in
      let (priced, h2) = >>-eq-ok (raise_if (base_fee == 0) bad_base_fee) _ h1 in
      let (accounts, normal, h3) = >>=-eq-ok (normalize given) _ h2 in
      record {
        hash = hash;
        priced = raise_if-eq-ok _ _ priced;
        given = given;
        accounts = accounts;
        normal = normal;
        outcome =
            place_genesis-eq-ok (genesis_row platform block_hash base_fee accounts) s
              (row_at 0 s.blocks) h3;
      }

  pub verify_checkpoint-Verified :
      (c : Checkpoint) {result : Accounts}
      → verify_checkpoint platform c ≡ ok result
      → Verified platform c result
  unfolding verify_checkpoint
  verify_checkpoint-Verified c {result} h0 =
      let (a1, h1) = >>-eq-ok (raise_if (not (c.schema_version =? schema)) bad_schema) _ h0 in
      let (a2, h2) = >>-eq-ok (check_canonical c.checkpoint_digest) _ h1 in
      let (a3, h3) =
        >>-eq-ok (raise_if (not (c.checkpoint_digest =? digest_of platform c)) digest_mismatch) _
          h2 in
      let (a4, h4) =
        >>-eq-ok (raise_if (c.chain_id == 0 || c.base_fee_per_gas == 0) bad_value) _ h3 in
      let (a5, h5) = >>-eq-ok (raise_if (not c.finalized) not_finalized) _ h4 in
      let (accounts, a6, h6) = >>=-eq-ok (decode_accounts c.accounts) _ h5 in
      let (a7, h7) =
        >>-eq-ok
          (raise_if (not (platform.dumps (object c.accounts) =? accounts_json platform accounts))
            not_canonical)
          _ h6 in
      let (a8, h8) =
        >>-eq-ok
          (raise_if (not (c.state_root =? compute_state_root platform accounts)) root_mismatch) _
          h7 in
      let (f1, g1) = >>-eq-ok (check_hash c.block_hash) _ h8 in
      let (f2, g2) = >>-eq-ok (check_hash c.parent_hash) _ g1 in
      let (f3, g3) = >>-eq-ok (check_hash c.state_root) _ g2 in
      let (l1, g4) =
        >>-eq-ok (raise_if (not (c.block_hash =? lower c.block_hash)) not_canonical) _ g3 in
      let (l2, g5) =
        >>-eq-ok (raise_if (not (c.parent_hash =? lower c.parent_hash)) not_canonical) _ g4 in
      let (l3, h11) =
        >>-eq-ok (raise_if (not (c.state_root =? lower c.state_root)) not_canonical) _ g5 in
      let (a12, h12) = >>-eq-ok (check_finality platform c) _ h11 in
      let (a13, h13) = >>-eq-ok (check_optional check_canonical c.certificate_hash) _ h12 in
      let e : accounts ≡ result = ok-injective h13 in
      subst (Verified platform c) e (record {
        digest = same_text c.checkpoint_digest (digest_of platform c) digest_mismatch a3;
        priced = ground (arith, raise_if-eq-ok _ _ a4);
        final = ground (arith, raise_if-eq-ok _ _ a5);
        decoded = a6;
        root = same_text c.state_root (compute_state_root platform accounts) root_mismatch a8;
        hash = >>-ok (check_hash c.block_hash) f1 l1;
        parent = >>-ok (check_hash c.parent_hash) f2 l2;
        root_formed = >>-ok (check_hash c.state_root) f3 l3;
        finality = a12;
        certificate = a13;
      })

  pub restore_checkpoint-Opened :
      (c : Checkpoint) (trusted_digest trusted_block : Text) (s : Store) {block : StoredBlock}
      {t : Store}
      → restore_checkpoint platform c trusted_digest trusted_block s ≡ ok (block, t)
      → (accounts : Accounts) × (s.blocks ≡ [])
        × Verified platform c accounts
        × (check_anchors platform s c trusted_digest trusted_block ≡ ok tt)
        × Opened (restored_row platform c accounts) c.height s block t
  unfolding restore_checkpoint
  restore_checkpoint-Opened c trusted_digest trusted_block s h0 =
      let (a1, h1) = >>-eq-ok (raise_if (not (is_empty s.blocks)) not_empty) _ h0 in
      let (accounts, a2, h2) = >>=-eq-ok (verify_checkpoint platform c) _ h1 in
      let (a3, h3) = >>-eq-ok (check_anchors platform s c trusted_digest trusted_block) _ h2 in
      let (rows, a4, h4) =
        >>=-eq-ok (insert_row (restored_row platform c accounts) s.blocks) _ h3 in
      let (st, returned) = return_head-eq-ok _ h4 in
      (
        accounts,
        nothing s.blocks (raise_if-eq-ok _ _ a1),
        verify_checkpoint-Verified c a2,
        a3,
        record {
          written = a4 ∙ ap (λ (v : Store). ok v.blocks) st;
          base_height = sym (ap (λ (v : Store). v.base_height) st);
          chain = sym (ap (λ (v : Store). v.chain_id) st);
          certificates = sym (ap (λ (v : Store). v.certificates) st);
          timestamps = sym (ap (λ (v : Store). v.timestamps) st);
          returned = returned;
        },
      )
    where
      nothing : (rows : List BlockRow) → not (is_empty rows) ≡ false → rows ≡ []
      nothing [] g = refl
      nothing (row ∷ rows) g = cc
