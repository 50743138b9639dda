-- ===== src/StateStore/Certificate/Bound.antt =====
-- state_store.py, `latest_finality_certificate`: the certificate that it returns is the head's.
use junca_social_ecosystem_c.Common.{
  ◌≡◌, sym, subst, ap, arith, true, false, not, ◌||◌, Option, none, some, ◌==◌, nat_eq, list_eq,
  ◌=?◌, text_iff, Result, ok, raise_if, raise_if-eq-ok, ok-injective, >>-eq-ok, >>=-eq-ok, lookup,
  Text, Platform, Bool-cases, Option-cases, inl, inr,
}
use junca_social_ecosystem_c.Finality.Types.{FinalityCertificate}
use junca_social_ecosystem_c.StateStore.Types.{
  StateStoreError, unbound_certificate, BlockRow, Loads,
}
use junca_social_ecosystem_c.StateStore.Store.{Store, last_row}
use junca_social_ecosystem_c.StateStore.Certificate.{
  equals_hash, decode_finality_certificate, certificate_at, latest_finality_certificate,
}
use junca_social_ecosystem_c.StateStore.Certificate.Decode.{Readable}
use junca_social_ecosystem_c.StateStore.Certificate.Decoded.{decode_finality_certificate-Readable}

equal_hash :
    (hash : Text) (stored : Option Text) → equals_hash hash stored ≡ true → stored ≡ some hash
equal_hash hash none h = cc
equal_hash hash (some other) h = ap (λ (t : Text). some t) (sym ((text_iff hash other).0 h))

-- A certificate that is bound to the head of a store.
pub record Binds (s : Store) (c : FinalityCertificate) : Type 0 where
  pub row : BlockRow
  pub last : last_row s.blocks ≡ some row
  pub chain : c.chain_id ≡ s.chain_id
  pub height : c.height ≡ row.height
  pub block : c.block_hash ≡ row.block_hash
  pub hash : row.certificate_hash ≡ some c.certificate_hash

module _ (platform : Platform) where
  certificate_at-Binds :
      (loads : Loads) (s : Store) (row : BlockRow) (stored : Option Text) {c : FinalityCertificate}
      → last_row s.blocks ≡ some row
      → certificate_at platform loads s.chain_id row stored ≡ ok (some c)
      → Readable platform c × Binds s c
  unfolding certificate_at
  certificate_at-Binds loads s row none last h = absurd (cc)
  certificate_at-Binds loads s row (some payload) {c} last h = elim (Bool-cases (row.height == 0)) [
    | inl genesis ↦
        let e : ◌≡◌ {A = Result StateStoreError (Option FinalityCertificate)} (ok none)
            (ok (some c)) =
          rw genesis at h in
        absurd (cc)
    | inr later ↦
        let (d, decoded, h1) =
          >>=-eq-ok (decode_finality_certificate platform loads payload) _ (rw later at h) in
        let unlike =
          not (d.chain_id == s.chain_id)
          || not (d.height == row.height)
          || not (d.block_hash =? row.block_hash)
          || not (equals_hash d.certificate_hash row.certificate_hash) in
        let (same, done) = >>-eq-ok (raise_if unlike unbound_certificate) _ h1 in
        let tests : unlike ≡ false = raise_if-eq-ok unlike unbound_certificate same in
        let held : some d ≡ some c = ok-injective done in
        let read : d ≡ c = cc in
        subst (λ (x : FinalityCertificate). Readable platform x × Binds s x) read
          (
            decode_finality_certificate-Readable platform loads payload decoded,
            record {
              row = row;
              last = last;
              chain = ground (arith, tests);
              height = ground (arith, tests);
              block = ground (arith, tests, text_iff d.block_hash row.block_hash);
              hash = equal_hash d.certificate_hash row.certificate_hash (ground (arith, tests));
            },
          )
  ]

  -- Whatever a store holds and whatever JSON reader is used: a certificate that
  -- `latest_finality_certificate` returns has positive chain and height, signed power of more
  -- than two thirds of the total power and no more than it, sorted identities, none twice and
  -- none empty, as many vote hashes, well-formed hashes, and the digest of its own body as its
  -- hash; and chain, height, block hash and certificate hash are those of the store's last row.
  pub latest_finality_certificate-Readable :
      (loads : Loads) (s : Store) {c : FinalityCertificate}
      → latest_finality_certificate platform loads s ≡ ok (some c)
      → Readable platform c × Binds s c
  unfolding latest_finality_certificate
  latest_finality_certificate-Readable loads s {c} h = elim (Option-cases (last_row s.blocks)) [
    | inl nothing ↦ absurd (ground (arith, rw (nothing, latest_finality_certificate) at h))
    | inr (row, last) ↦
        certificate_at-Binds loads s row (lookup row.height s.certificates) last
          (rw (last, latest_finality_certificate) at h)
  ]
