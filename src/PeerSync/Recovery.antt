-- ===== src/PeerSync/Recovery.antt =====
-- peer_sync.py: what the journal's file says after a write, and to a restart.
use junca_social_ecosystem_c.Common.{
  ℕ, ◌+◌, ◌≡◌, refl, ap, sym, arith, true, false, not, ◌&&◌, ◌||◌, none, some, ◌==◌, length, nat_eq,
  list_eq, ◌=?◌, beq_refl, text_iff, ok, err, raise_if, raise_if-ok, raise_if-eq-ok, >>-eq-ok,
  >>-ok, >>=-ok, Text, codes, starts_with, Platform, find_field, field_names,
}
use junca_social_ecosystem_c.NodePipeline.Pipeline.{ExecutedProposal}
use junca_social_ecosystem_c.StateStore.Types.{StateStoreError, StoredBlock, Loads}
use junca_social_ecosystem_c.StateStore.Types as StoreTypes
use junca_social_ecosystem_c.StateStore.Store.{Store, head}
use junca_social_ecosystem_c.StateStore.Accounts.{Documented, is_sorted, has_sorted}
use junca_social_ecosystem_c.PeerSync.Registry.{
  bad_peer_id, bad_values, bad_hash, integrity_failure, not_reconciled, already_active, check_hash,
  is_bad_peer,
}
use junca_social_ecosystem_c.PeerSync.Journal.{
  retry_required, commit_confirmed, Status, prepared, committed, JournalRecord, Journal,
  signed_json, status_of, status_text, record_from_fields, parse_record, record_digest, write,
  check_record, read_text, read_file, read, prepared_record, begin, clear, reconcile,
  recover_record, recover,
}

-- A record that `read` does not refuse.
pub record Readable (chain_id : ℕ) (r : JournalRecord) : Type 0 where
  pub chain : r.chain_id ≡ chain_id
  pub peer : is_bad_peer r.peer_id ≡ false
  pub positive : (r.height == 0) ≡ false
  pub parent : check_hash r.parent_hash ≡ ok tt
  pub block : check_hash r.block_hash ≡ ok tt
  pub root : check_hash r.state_root ≡ ok tt

status_of-status_text : (s : Status) → status_of (status_text s) ≡ some s
unfolding status_of
status_of-status_text prepared = refl
status_of-status_text committed = refl

parse_record-signed_json :
    (r : JournalRecord) (digest : Text) → parse_record (signed_json r digest) ≡ ok (r, digest)
unfolding parse_record record_from_fields find_field field_names
parse_record-signed_json r digest = rw (status_of-status_text r.status) refl

-- The state store and the journal test hashes alike.
check_hash-stored : (value : Text) → StoreTypes.check_hash value ≡ ok tt → check_hash value ≡ ok tt
unfolding check_hash StoreTypes.check_hash
check_hash-stored value h =
    let (form, digits) =
      >>-eq-ok
        (raise_if (not (length value == 66) || not (starts_with value (codes "0x")))
          StoreTypes.StateStoreError.bad_hash)
        _ h in
    >>-ok (raise_if (not (length value == 66) || not (starts_with value (codes "0x"))) bad_hash)
      (raise_if-ok _ _ (raise_if-eq-ok _ _ form)) (raise_if-ok _ _ (raise_if-eq-ok _ _ digits))

module _ (platform : Platform) (loads : Loads) (law : Documented platform loads) where
  is_sorted-signed_json :
      (r : JournalRecord) (digest : Text) → is_sorted (signed_json r digest) ≡ true
  unfolding is_sorted has_sorted
  is_sorted-signed_json r digest = refl

  digest_formed : (r : JournalRecord) → check_hash (record_digest platform r) ≡ ok tt
  unfolding record_digest
  digest_formed r = check_hash-stored _ (law.formed _)

  check_record-Readable :
      (j : Journal) (r : JournalRecord)
      → Readable j.chain_id r
      → check_record platform j (r, record_digest platform r) ≡ ok tt
  unfolding check_record
  check_record-Readable j r h =
      >>-ok
        (raise_if
          (not (record_digest platform r =? record_digest platform r)
            || not (r.chain_id == j.chain_id))
          integrity_failure)
        (raise_if-ok _ _
          (rw (beq_refl (record_digest platform r)) (let e = h.chain in ground arith)))
        (>>-ok (raise_if (is_bad_peer r.peer_id || r.height == 0) bad_values)
          (raise_if-ok _ _ (rw (h.peer, h.positive) refl))
          (>>-ok (check_hash r.parent_hash) h.parent (
            >>-ok (check_hash r.block_hash) h.block
              (>>-ok (check_hash r.state_root) h.root (digest_formed r)))))

  -- What is written is read.
  pub read-write :
      (j : Journal) (r : JournalRecord)
      → Readable j.chain_id r
      → read platform loads (write platform r j) ≡ ok (some r)
  unfolding write read_file read_text
  read-write j r h =
      rw
        (law.reads (signed_json r (record_digest platform r))
          (is_sorted-signed_json r (record_digest platform r)))
        (rw (parse_record-signed_json r (record_digest platform r)) (
          rw
            (check_record-Readable
              (record j { file = some (platform.dumps (signed_json r (record_digest platform r))) })
              r h)
            refl))

  -- A restart with the record of an import that was not committed.
  pub recover_prepared :
      (s : Store) (j : Journal) (r : JournalRecord) {block : StoredBlock}
      → Readable j.chain_id r
      → head s ≡ ok block
      → r.height ≡ block.height + 1
      → r.parent_hash ≡ block.block_hash
      → recover platform loads s (write platform r j) ≡ ok (retry_required, write platform r j)
  unfolding recover recover_record reconcile
  recover_prepared s j r {block} readable at_head next parent =
      let apart : (block.height == r.height) ≡ false = ground arith in
      let above : (block.height + 1 == r.height) ≡ true = ground arith in
      rw (read-write j r readable) (
        rw (recover_record, at_head)
          (rw (apart, above, (text_iff block.block_hash r.parent_hash).1 (sym parent)) refl))

  -- A restart with the record of an import that was committed.
  pub recover_committed :
      (s : Store) (j : Journal) (r : JournalRecord) {block : StoredBlock}
      → Readable j.chain_id r
      → head s ≡ ok block
      → r.height ≡ block.height
      → r.block_hash ≡ block.block_hash
      → recover platform loads s (write platform r j)
        ≡ ok (commit_confirmed, clear (write platform r j))
  unfolding recover recover_record reconcile
  recover_committed s j r {block} readable at_head same hash =
      let here : (block.height == r.height) ≡ true = ground arith in
      rw (read-write j r readable) (
        rw (recover_record, at_head)
          (rw (here, (text_iff block.block_hash r.block_hash).1 (sym hash)) refl))

  -- A restart with a record that names neither the head nor what follows it.
  pub recover_stuck :
      (s : Store) (j : Journal) (r : JournalRecord) {block : StoredBlock}
      → Readable j.chain_id r
      → head s ≡ ok block
      → (block.height == r.height && block.block_hash =? r.block_hash) ≡ false
      → (block.height + 1 == r.height && block.block_hash =? r.parent_hash) ≡ false
      → recover platform loads s (write platform r j) ≡ err not_reconciled
  unfolding recover recover_record reconcile
  recover_stuck s j r readable at_head other apart =
      rw (read-write j r readable) (rw (recover_record, at_head) (rw (other, apart) refl))

  -- A begin while a record is there.
  pub begin_active :
      (j : Journal) (r : JournalRecord) (peer_id : Text) (proposal : ExecutedProposal)
      → Readable j.chain_id r
      → is_bad_peer peer_id ≡ false
      → begin platform loads peer_id proposal (write platform r j) ≡ err already_active
  unfolding begin
  begin_active j r peer_id proposal readable named = rw named (rw (read-write j r readable) refl)

  pub begin_free :
      (j : Journal) (peer_id : Text) (proposal : ExecutedProposal)
      → j.file ≡ none
      → is_bad_peer peer_id ≡ false
      → begin platform loads peer_id proposal j
        ≡ ok (write platform (prepared_record j.chain_id peer_id proposal) j)
  unfolding begin read_file
  begin_free j peer_id proposal free named =
      >>-ok (raise_if (is_bad_peer peer_id) bad_peer_id) (raise_if-ok _ _ named)
        (>>=-ok (read platform loads j) _ none (ap (read_file platform loads j) free) refl)
