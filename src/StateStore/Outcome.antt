-- ===== src/StateStore/Outcome.antt =====
-- state_store.py: what a call that returned has tested and written.
use junca_social_ecosystem_c.Common.{
  ℕ, suc, ◌+◌, ◌*◌, ◌<◌, ◌≡◌, ap, ◌∙◌, sym, subst, arith, false, not, ◌||◌, some, ◌==◌, nat_eq,
  list_eq, ◌=?◌, insert, text_iff, contains, ok, raise_if, or_raise, or_raise-eq-ok, raise_if-eq-ok,
  >>=-eq-ok, >>-eq-ok, ok-injective, Text, lower, Platform,
}
use junca_social_ecosystem_c.ProtocolKernel.Types.{Accounts}
use junca_social_ecosystem_c.ProtocolKernel.Execution.{compute_state_root}
use junca_social_ecosystem_c.StateStore.Types.{
  StateStoreError, StoredBlock, BlockRow, check_hash, normalize, not_next, parent_mismatch,
  chain_id_mismatch, unbound_certificate, bad_timestamp, root_mismatch, head_moved, not_initialized,
  integrity, overflow,
}
use junca_social_ecosystem_c.StateStore.Store.{
  Store, Commit, last_row, insert_row, head, return_head, check_commit, write_block, committed_row,
  commit_finalized_block, is_bad_timestamp, certificate_json, with_timestamp, timestamp_taken,
  is_wide_timestamp,
}

-- A test for equality that raised nothing.
pub same_text : (s t : Text) (e : StateStoreError) → raise_if (not (s =? t)) e ≡ ok tt → s ≡ t
same_text s t e h = ground (arith, text_iff s t)

pub same_number : (m n : ℕ) (e : StateStoreError) → raise_if (not (m == n)) e ≡ ok tt → m ≡ n
same_number m n e h = ground arith

-- A block that a commit has written.
pub record Committed (platform : Platform) (c : Commit) (s : Store) (block : StoredBlock)
    (t : Store) : Type 0 where
  pub current : BlockRow
  pub was_head : last_row s.blocks ≡ some current
  pub next : c.height ≡ suc current.height
  pub hash : check_hash c.block_hash ≡ ok tt
  pub parent_formed : check_hash c.parent_hash ≡ ok tt
  pub parent : lower c.parent_hash ≡ current.block_hash
  pub bound : (c.certificate.height ≡ c.height) × (c.certificate.block_hash ≡ lower c.block_hash)
  pub chains : (c.transition.chain_id ≡ s.chain_id) × (c.certificate.chain_id ≡ s.chain_id)
  pub dated : is_bad_timestamp c.timestamp ≡ false
  pub quorum : c.certificate.total_power * 2 < c.certificate.signed_power * 3
  pub accounts : Accounts
  pub normal : normalize c.transition.accounts ≡ ok accounts
  pub root : c.transition.state_root ≡ compute_state_root platform accounts
  pub written : insert_row (committed_row platform c accounts) s.blocks ≡ ok t.blocks
  pub base : t.base_height ≡ s.base_height
  pub chain : t.chain_id ≡ s.chain_id
  pub certificates :
      t.certificates
      ≡ insert c.height (platform.dumps (certificate_json c.certificate)) s.certificates
  pub timestamps : t.timestamps ≡ with_timestamp c.height c.timestamp s.timestamps
  pub narrow : is_wide_timestamp c.timestamp ≡ false
  pub returned : head t ≡ ok block

pub return_head-eq-ok :
    (u : Store) {block : StoredBlock} {t : Store}
    → return_head u ≡ ok (block, t)
    → (u ≡ t) × (head t ≡ ok block)
return_head-eq-ok u {block} {t} h =
    let (b, found, same) = >>=-eq-ok (head u) _ h in
    let pair : (b, u) ≡ (block, t) = ok-injective same in
    let st = ap (λ (p : StoredBlock × Store). p.1) pair in
    (
      st,
      subst (λ (v : Store). head v ≡ ok block) st
          (found ∙ ap (λ (p : StoredBlock × Store). ok p.0) pair),
    )

module _ (platform : Platform) where
  -- What the tests of a commit have found.
  check_commit-eq-ok :
      (s : Store) (current : BlockRow) (c : Commit)
      → check_commit platform s current c ≡ ok tt
      → (c.height ≡ suc current.height)
        × (check_hash c.block_hash ≡ ok tt)
        × (check_hash c.parent_hash ≡ ok tt)
        × (lower c.parent_hash ≡ current.block_hash)
        × ((c.certificate.height ≡ c.height) × (c.certificate.block_hash ≡ lower c.block_hash))
        × (c.certificate.total_power * 2 < c.certificate.signed_power * 3)
        × ((c.transition.chain_id ≡ s.chain_id) × (c.certificate.chain_id ≡ s.chain_id))
        × (is_bad_timestamp c.timestamp ≡ false)
  unfolding check_commit
  check_commit-eq-ok s current c h0 =
      let (a1, h1) = >>-eq-ok (raise_if (not (c.height == current.height + 1)) not_next) _ h0 in
      let (a2, h2) = >>-eq-ok (check_hash c.block_hash) _ h1 in
      let (a3, h3) = >>-eq-ok (check_hash c.parent_hash) _ h2 in
      let (a4, h4) =
        >>-eq-ok (raise_if (not (lower c.parent_hash =? current.block_hash)) parent_mismatch) _
          h3 in
      let (a5, h5) =
        >>-eq-ok
          (raise_if
            (not (c.transition.chain_id == s.chain_id)
              || not (c.certificate.chain_id == s.chain_id))
            chain_id_mismatch)
          _ h4 in
      let (a6, h6) =
        >>-eq-ok
          (raise_if
            (not (c.certificate.height == c.height)
              || not (c.certificate.block_hash =? lower c.block_hash))
            unbound_certificate)
          _ h5 in
      let (a7, h7) = >>-eq-ok (raise_if (is_bad_timestamp c.timestamp) bad_timestamp) _ h6 in
      (
        omega (arith, same_number c.height (current.height + 1) not_next a1),
        a2,
        a3,
        same_text (lower c.parent_hash) current.block_hash parent_mismatch a4,
        bound (raise_if-eq-ok _ _ a6),
        ground (arith, raise_if-eq-ok _ _ h7),
        chains (raise_if-eq-ok _ _ a5),
        raise_if-eq-ok _ _ a7,
      )
    where
      chains :
          (not (c.transition.chain_id == s.chain_id) || not (c.certificate.chain_id == s.chain_id))
            ≡ false
          → (c.transition.chain_id ≡ s.chain_id) × (c.certificate.chain_id ≡ s.chain_id)
      chains h = ground arith

      bound :
          (not (c.certificate.height == c.height)
              || not (c.certificate.block_hash =? lower c.block_hash))
            ≡ false
          → (c.certificate.height ≡ c.height) × (c.certificate.block_hash ≡ lower c.block_hash)
      bound h = ground (arith, text_iff c.certificate.block_hash (lower c.block_hash))

  write_block-eq-ok :
      (s : Store) (c : Commit) (accounts : Accounts) {block : StoredBlock} {t : Store}
      → write_block platform s c accounts ≡ ok (block, t)
      → (insert_row (committed_row platform c accounts) s.blocks ≡ ok t.blocks)
        × (t.base_height ≡ s.base_height)
        × (t.chain_id ≡ s.chain_id)
        × (head t ≡ ok block)
        × (t.certificates
            ≡ insert c.height (platform.dumps (certificate_json c.certificate)) s.certificates)
        × (t.timestamps ≡ with_timestamp c.height c.timestamp s.timestamps)
        × (is_wide_timestamp c.timestamp ≡ false)
  unfolding write_block
  write_block-eq-ok s c accounts {block} {t} h0 =
      let (locked, a1, h1) = >>=-eq-ok (or_raise (last_row s.blocks) head_moved) _ h0 in
      let (a2, h2) =
        >>-eq-ok
          (raise_if
            (not (locked.height + 1 == c.height) || not (locked.block_hash =? lower c.parent_hash))
            head_moved)
          _ h1 in
      let (rows, a3, h3) =
        >>=-eq-ok (insert_row (committed_row platform c accounts) s.blocks) _ h2 in
      let (narrow, h4) = >>-eq-ok (raise_if (is_wide_timestamp c.timestamp) overflow) _ h3 in
      let (a4, h5) =
        >>-eq-ok
          (raise_if
            (timestamp_taken c.height c.timestamp s.timestamps || contains c.height s.certificates)
            integrity)
          _ h4 in
      let (st, returned) = return_head-eq-ok _ h5 in
      (
        a3 ∙ ap (λ (v : Store). ok v.blocks) st,
        sym (ap (λ (v : Store). v.base_height) st),
        sym (ap (λ (v : Store). v.chain_id) st),
        returned,
        sym (ap (λ (v : Store). v.certificates) st),
        sym (ap (λ (v : Store). v.timestamps) st),
        raise_if-eq-ok _ _ narrow,
      )

  pub commit-Committed :
      (c : Commit) (s : Store) {block : StoredBlock} {t : Store}
      → commit_finalized_block platform c s ≡ ok (block, t)
      → Committed platform c s block t
  unfolding commit_finalized_block
  commit-Committed c s h0 =
      let (current, a1, h1) = >>=-eq-ok (or_raise (last_row s.blocks) not_initialized) _ h0 in
      let (a2, h2) = >>-eq-ok (check_commit platform s current c) _ h1 in
      let (accounts, a3, h3) = >>=-eq-ok (normalize c.transition.accounts) _ h2 in
      let (a4, h4) =
        >>-eq-ok
          (raise_if (not (c.transition.state_root =? compute_state_root platform accounts))
            root_mismatch)
          _ h3 in
      let (next, hash, parent_formed, parent, bound, quorum, chains, dated) =
        check_commit-eq-ok s current c a2 in
      let (written, base, chain, returned, certificates, timestamps, narrow) =
        write_block-eq-ok s c accounts h4 in
      record {
        current = current;
        was_head = or_raise-eq-ok (last_row s.blocks) not_initialized a1;
        next = next;
        hash = hash;
        parent_formed = parent_formed;
        parent = parent;
        bound = bound;
        quorum = quorum;
        chains = chains;
        dated = dated;
        accounts = accounts;
        normal = a3;
        root =
            same_text c.transition.state_root (compute_state_root platform accounts) root_mismatch
              a4;
        written = written;
        base = base;
        chain = chain;
        certificates = certificates;
        timestamps = timestamps;
        narrow = narrow;
        returned = returned;
      }
