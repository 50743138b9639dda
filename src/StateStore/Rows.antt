-- ===== src/StateStore/Rows.antt =====
-- state_store.py: the rows that the calls write.
use junca_social_ecosystem_c.Common.{
  ℕ, suc, ◌≡◌, refl, ap, ◌∙◌, sym, arith, Bool, true, false, not, ◌||◌, some, List, [], ◌∷◌, ◌++◌,
  ◌==◌, nat_eq, list_eq, beq_refl, length, drop, starts_with, parses_hex, starts_with-lower,
  drop-lower, parses_hex-lower, drop, length-lower, ok, raise_if, >>=-eq-ok, >>-eq-ok,
  raise_if-eq-ok, Text, Bytes, codes, is_empty, lower, lower_idem, Fields, nil, array, to_items,
  Platform,
}
use junca_social_ecosystem_c.ProtocolKernel.Types.{Accounts, TransactionReceipt}
use junca_social_ecosystem_c.ProtocolKernel.Execution.{compute_state_root}
use junca_social_ecosystem_c.StateStore.Types.{
  StoredBlock, bad_hash, BlockRow, check_hash, normalize, decode_onto, decode_accounts,
  receipt_json, receipts_json, Loads, fits_row,
}
use junca_social_ecosystem_c.StateStore.Store.{Store, Commit, genesis_row, committed_row}
use junca_social_ecosystem_c.StateStore.Integrity.{check_canonical, check_evidence}
use junca_social_ecosystem_c.StateStore.Checkpoint.{Checkpoint, check_finality, restored_row}
use junca_social_ecosystem_c.StateStore.Accounts.{
  Normal, normalize-Normal, is_sorted, are_sorted, has_sorted, Documented,
}
use junca_social_ecosystem_c.StateStore.Chain.{Sound}
use junca_social_ecosystem_c.StateStore.Inserted.{insert_row-fits}
use junca_social_ecosystem_c.StateStore.Outcome.{Committed}
use junca_social_ecosystem_c.StateStore.Opening.{Verified}

pub decode_accounts-Normal :
    (raw : Fields) {accounts : Accounts} → decode_accounts raw ≡ ok accounts → Normal accounts
unfolding decode_accounts
decode_accounts-Normal raw h =
    let (given, decoded, normal) = >>=-eq-ok (decode_onto [] raw) _ h in
    normalize-Normal given normal

-- What `_hash` returns passes its tests again, and is in lower case.
check_canonical-lower :
    (value : Text) → check_hash value ≡ ok tt → check_canonical (lower value) ≡ ok tt
unfolding check_hash
check_canonical-lower value h =
    let (form, digits) =
      >>-eq-ok
        (raise_if (not (length value == 66) || not (starts_with value (codes "0x"))) bad_hash) _
        h in
    let fits =
      both (length value == 66) (starts_with value (codes "0x")) (raise_if-eq-ok _ _ form) in
    rw
      (
        length-lower value,
        fits.0,
        starts_with-lower value fits.1,
        drop-lower value,
        parses_hex-lower (drop 2 value),
        raise_if-eq-ok _ _ digits,
        lower_idem value,
        beq_refl (lower value),
      )
      refl
  where
    both : (a b : Bool) → (not a || not b) ≡ false → (a ≡ true) × (b ≡ true)
    both a b g = ground arith

are_sorted-receipts :
    (receipts : List TransactionReceipt) → are_sorted (to_items receipt_json receipts) ≡ true
unfolding are_sorted is_sorted has_sorted receipt_json
are_sorted-receipts [] = refl
are_sorted-receipts (r ∷ receipts) = are_sorted-receipts receipts

is_empty-canonical : (value : Text) → check_canonical value ≡ ok tt → is_empty value ≡ false
unfolding check_hash
is_empty-canonical [] h = cc
is_empty-canonical (c ∷ value) h = refl

certified_evidence :
    (row : BlockRow) (below : ℕ) (hash : Text)
    → row.height ≡ suc below
    → row.finalized ≡ true
    → row.certificate_hash ≡ some hash
    → check_canonical hash ≡ ok tt
    → check_evidence row ≡ ok tt
unfolding check_evidence
certified_evidence row below hash n f e h =
    let later : (suc below == 0) ≡ false = ground arith in
    rw (n, f, e, is_empty-canonical hash h) (rw later refl)

check_finality-evidence :
    (platform : Platform) (c : Checkpoint) (accounts : Accounts)
    → check_finality platform c ≡ ok tt
    → check_evidence (restored_row platform c accounts) ≡ ok tt
unfolding check_finality check_evidence
check_finality-evidence platform c accounts h = h

-- What a finality certificate carries: a digest in lower case.
abbrev pub Certified : Commit → Type 0
Certified c =
    (check_canonical c.certificate.certificate_hash ≡ ok tt)
    × ((c.transition.base_fee_per_gas == 0) ≡ false)

module _ (platform : Platform) (loads : Loads) (law : Documented platform loads) where
  pub digest_canonical : (b : Bytes) → check_canonical (codes "0x" ++ platform.sha256 b) ≡ ok tt
  digest_canonical b =
      rw (law.formed b, law.lowered b, beq_refl (codes "0x" ++ platform.sha256 b)) refl

  check_canonical-root :
      (accounts : Accounts) → check_canonical (compute_state_root platform accounts) ≡ ok tt
  unfolding compute_state_root
  check_canonical-root accounts = digest_canonical _

  no_receipts : loads (codes "[]") ≡ some (array nil)
  unfolding is_sorted are_sorted
  no_receipts = ap loads (sym law.empty_list) ∙ law.reads (array nil) refl

  pub genesis_row-Sound :
      (block_hash : Text) (base_fee : ℕ) (given accounts : Accounts)
      → check_hash block_hash ≡ ok tt
      → (base_fee == 0) ≡ false
      → normalize given ≡ ok accounts
      → fits_row (genesis_row platform block_hash base_fee accounts) ≡ true
      → Sound platform loads (genesis_row platform block_hash base_fee accounts)
  unfolding check_evidence check_hash starts_with parses_hex lower
  genesis_row-Sound block_hash base_fee given accounts hash priced normal fits = record {
    hash = check_canonical-lower block_hash hash;
    parent = refl;
    root = check_canonical-root accounts;
    evidence = refl;
    certificate = refl;
    final = refl;
    base_fee = priced;
    fits = fits;
    accounts = accounts;
    normal = normalize-Normal given normal;
    snapshot = refl;
    commits = refl;
    receipts = nil;
    listed = no_receipts;
    written = law.empty_list;
  }

  pub committed_row-Sound :
      (c : Commit) (s : Store) {block : StoredBlock} {t : Store}
      → Certified c
      → (d : Committed platform c s block t)
      → Sound platform loads (committed_row platform c d.accounts)
  unfolding check_evidence receipts_json is_sorted
  committed_row-Sound c s certified d = record {
    hash = check_canonical-lower c.block_hash d.hash;
    parent = check_canonical-lower c.parent_hash d.parent_formed;
    root = rw (d.root) (check_canonical-root d.accounts);
    evidence =
        certified_evidence (committed_row platform c d.accounts) d.current.height
          c.certificate.certificate_hash d.next refl refl certified.0;
    certificate = certified.0;
    final = refl;
    base_fee = certified.1;
    fits = insert_row-fits (committed_row platform c d.accounts) s.blocks d.written;
    accounts = d.accounts;
    normal = normalize-Normal c.transition.accounts d.normal;
    snapshot = refl;
    commits = d.root;
    receipts = to_items receipt_json c.transition.receipts;
    listed =
        law.reads (array (to_items receipt_json c.transition.receipts))
          (are_sorted-receipts c.transition.receipts);
    written = refl;
  }

  pub restored_row-Sound :
      (c : Checkpoint) {accounts : Accounts}
      → Verified platform c accounts
      → fits_row (restored_row platform c accounts) ≡ true
      → Sound platform loads (restored_row platform c accounts)
  restored_row-Sound c {accounts} v fits = record {
    hash = v.hash;
    parent = v.parent;
    root = v.root_formed;
    evidence = check_finality-evidence platform c accounts v.finality;
    certificate = v.certificate;
    final = refl;
    base_fee = v.priced;
    fits = fits;
    accounts = accounts;
    normal = decode_accounts-Normal c.accounts v.decoded;
    snapshot = refl;
    commits = v.root;
    receipts = nil;
    listed = no_receipts;
    written = law.empty_list;
  }
