-- ===== src/StateStore/Certificate/Recovery.antt =====
-- finality.py and state_store.py: a node that starts again reads the certificate of its head.
use junca_social_ecosystem_c.Common.{
  ℕ, ◌≡◌, refl, sym, subst, ap, ◌∙◌, arith, false, Option, some, ◌==◌, nat_eq, list_eq, beq_refl,
  lookup, lookup-insert_self, ok, >>-eq-ok, Dict, Text, lower, Platform,
}
use junca_social_ecosystem_c.Finality.Types.{FinalityVote, FinalityCertificate, certificate_digest}
use junca_social_ecosystem_c.Finality.Machine.{Machine, build_certificate}
use junca_social_ecosystem_c.Finality.Machine.Endings.{with_vote, Finalizes}
use junca_social_ecosystem_c.Finality.Machine.Safety.{Sound}
use junca_social_ecosystem_c.StateStore.Types.{StoredBlock, BlockRow, Loads, check_hash}
use junca_social_ecosystem_c.StateStore.Store.{
  Store, Commit, make_store, last_row, committed_row, certificate_json, commit_finalized_block,
}
use junca_social_ecosystem_c.StateStore.Integrity.{check_canonical}
use junca_social_ecosystem_c.StateStore.Accounts.{Documented}
use junca_social_ecosystem_c.StateStore.Outcome.{commit-Committed}
use junca_social_ecosystem_c.StateStore.Rows.{Certified, digest_canonical, committed_row-Sound}
use junca_social_ecosystem_c.StateStore.History.{Steps, steps-chain}
use junca_social_ecosystem_c.StateStore.Preserved.{AllProper}
use junca_social_ecosystem_c.StateStore.RoundTrip.{make_store-fresh}
use junca_social_ecosystem_c.StateStore.Heads.{commit-BecomesHead}
use junca_social_ecosystem_c.StateStore.Certificate.{certificate_at, latest_finality_certificate}
use junca_social_ecosystem_c.StateStore.Certificate.Decode.{
  Readable, decode_finality_certificate-dumps,
}
use junca_social_ecosystem_c.StateStore.Certificate.Issued.{Named, Finalizes-Readable}

module _ (platform : Platform) (loads : Loads) (law : Documented platform loads) where
  -- A readable certificate that names the row's block.
  certificate_at-Readable :
      (chain_id : ℕ) (row : BlockRow) (c : FinalityCertificate)
      → Readable platform c
      → c.chain_id ≡ chain_id
      → c.height ≡ row.height
      → c.block_hash ≡ row.block_hash
      → row.certificate_hash ≡ some c.certificate_hash
      → certificate_at platform loads chain_id row (some (platform.dumps (certificate_json c)))
        ≡ ok (some c)
  unfolding certificate_at
  certificate_at-Readable chain_id row c r chain height block hash =
      rw
        (
          ← height,
          r.height,
          decode_finality_certificate-dumps platform loads law c r,
          ← chain,
          ← block,
          hash,
          beq_refl c.chain_id,
          beq_refl c.height,
          beq_refl c.block_hash,
          beq_refl c.certificate_hash,
        )
        refl

  latest-stored :
      (t : Store) (row : BlockRow) {payload : Text} {c : Option FinalityCertificate}
      → last_row t.blocks ≡ some row
      → lookup row.height t.certificates ≡ some payload
      → certificate_at platform loads t.chain_id row (some payload) ≡ ok c
      → latest_finality_certificate platform loads t ≡ ok c
  unfolding latest_finality_certificate
  latest-stored t row last found read = rw (last, latest_finality_certificate) (rw found read)

  Finalizes-hash :
      (m : Machine) (vote : FinalityVote) (c : FinalityCertificate)
      → Finalizes platform m vote c
      → check_canonical c.certificate_hash ≡ ok tt
  unfolding build_certificate certificate_digest
  Finalizes-hash m vote c f = rw f.built (digest_canonical platform loads law _)

  -- Take a store that the constructor has made and calls of `initialize_genesis`,
  -- `commit_finalized_block` and `restore_checkpoint` that returned, a genesis only on no
  -- blocks or on a chain from height 0, commits with a positive base fee and a canonical
  -- certificate hash; and a sound finality machine whose members have identities. If a vote
  -- makes the machine finalize the certificate that a commit carries, the block has a positive
  -- base fee and the commit returns, then `latest_finality_certificate` returns that very
  -- certificate, decoded from its stored text, provided that JSON and digests behave as
  -- documented.
  pub finalized_certificate_recovered :
      (chain_id : ℕ) {start s t : Store}
      → make_store chain_id ≡ ok start
      → (steps : Steps platform start s) → AllProper steps
      → (m : Machine) (vote : FinalityVote) → Sound (with_vote m vote)
      → Named m
      → (c : Commit) {block : StoredBlock} → (c.transition.base_fee_per_gas == 0) ≡ false
      → Finalizes platform m vote c.certificate
      → commit_finalized_block platform c s ≡ ok (block, t)
      → latest_finality_certificate platform loads t ≡ ok (some c.certificate)
  unfolding build_certificate
  finalized_certificate_recovered chain_id {start} {s} {t} made steps proper m vote sound named c
        fee f h =
      let certified : Certified c = (Finalizes-hash m vote c.certificate f, fee) in
      let (parent, accounts, was_head, last, returned, n, p, normal, root, bound, quorum, read) =
        commit-BecomesHead platform loads law chain_id made steps proper c certified h in
      let d = commit-Committed platform c s h in
      let row = committed_row-Sound platform loads law c s certified d in
      let (block_formed, canonical) = >>-eq-ok (check_hash (lower c.block_hash)) _ row.hash in
      let chain : c.certificate.chain_id ≡ m.chain_id =
        ap (λ (x : FinalityCertificate). x.chain_id) f.built in
      let height : c.certificate.height ≡ vote.height =
        ap (λ (x : FinalityCertificate). x.height) f.built in
      let hash : c.certificate.block_hash ≡ lower vote.block_hash =
        ap (λ (x : FinalityCertificate). x.block_hash) f.built in
      let (begun, started) = make_store-fresh platform loads law chain_id made in
      let known : (m.chain_id == 0) ≡ false =
        subst (λ (n : ℕ). (n == 0) ≡ false)
          (sym (steps-chain platform steps) ∙ sym d.chains.1 ∙ chain) started in
      let later : (vote.height == 0) ≡ false = ground (arith, d.next, d.bound.0, height) in
      let formed : check_hash (lower vote.block_hash) ≡ ok tt =
        subst (λ (x : Text). check_hash x ≡ ok tt) (sym d.bound.1 ∙ hash) block_formed in
      latest-stored t (committed_row platform c accounts) last
        (ap (λ (e : Dict ℕ Text). lookup c.height e) d.certificates
          ∙ lookup-insert_self c.height _ s.certificates)
        (certificate_at-Readable t.chain_id (committed_row platform c accounts) c.certificate
          (Finalizes-Readable platform loads law m vote c.certificate sound named known later formed
            f)
          (d.chains.1 ∙ sym d.chain) d.bound.0 d.bound.1 refl)
