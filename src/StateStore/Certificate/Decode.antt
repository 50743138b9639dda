-- ===== src/StateStore/Certificate/Decode.antt =====
-- state_store.py and finality.py: a certificate that `as_evidence` writes is decoded as it was.
use junca_social_ecosystem_c.Common.{
  find_field, field_names, ◌*◌, ◌<◌, ◌≤◌, ◌≡◌, refl, ap, arith, true, false, ◌||◌, some, List, [],
  ◌∷◌, ltb, leb, ◌==◌, nat_eq, list_eq, beq_refl, length, All, ok, Text, text, to_items, Platform,
}
use junca_social_ecosystem_c.Finality.Types.{FinalityCertificate, certificate_digest}
use junca_social_ecosystem_c.StateStore.Types.{check_hash, Loads}
use junca_social_ecosystem_c.StateStore.Store.{certificate_json}
use junca_social_ecosystem_c.StateStore.Accounts.{is_sorted, are_sorted, has_sorted, Documented}
use junca_social_ecosystem_c.StateStore.Certificate.{
  find_numbers, check_numbers, find_ballots, build_decoded, texts_of, count_items, cons_text,
  are_identities, checked_hash, hashes_of, decode_fields, decode_document,
  decode_finality_certificate,
}

-- What the store asks of a certificate that it reads.
pub record Readable (platform : Platform) (c : FinalityCertificate) : Type 0 where
  pub chain : (c.chain_id == 0) ≡ false
  pub height : (c.height == 0) ≡ false
  pub bounded : c.signed_power ≤ c.total_power
  pub quorum : c.total_power * 2 < c.signed_power * 3
  pub identities : are_identities c.validator_ids ≡ true
  pub paired : length c.vote_hashes ≡ length c.validator_ids
  pub block : check_hash c.block_hash ≡ ok tt
  pub certificate : check_hash c.certificate_hash ≡ ok tt
  pub votes : All (λ hash. check_hash hash ≡ ok tt) c.vote_hashes
  pub digest :
      c.certificate_hash
      ≡ certificate_digest platform c.chain_id c.height c.round c.block_hash c.signed_power
          c.total_power c.validator_ids c.vote_hashes

texts_of-to_items : (texts : List Text) → texts_of (to_items text texts) ≡ some texts
unfolding texts_of
texts_of-to_items [] = refl
texts_of-to_items (t ∷ texts) = ap (cons_text t) (texts_of-to_items texts)

count_items-to_items : (texts : List Text) → count_items (to_items text texts) ≡ length texts
unfolding count_items
count_items-to_items [] = refl
count_items-to_items (t ∷ texts) = omega (arith, count_items-to_items texts)

hashes_of-to_items :
    (hashes : List Text)
    → All (λ hash. check_hash hash ≡ ok tt) hashes
    → hashes_of (to_items text hashes) ≡ ok hashes
unfolding hashes_of checked_hash
hashes_of-to_items [] h = refl
hashes_of-to_items (t ∷ hashes) h = rw (h.0, hashes_of-to_items hashes h.1) refl

are_sorted-texts : (texts : List Text) → are_sorted (to_items text texts) ≡ true
unfolding are_sorted is_sorted
are_sorted-texts [] = refl
are_sorted-texts (t ∷ texts) = are_sorted-texts texts

certificate_json-sorted : (c : FinalityCertificate) → is_sorted (certificate_json c) ≡ true
unfolding is_sorted are_sorted has_sorted certificate_json
certificate_json-sorted c =
    rw (are_sorted-texts c.validator_ids, are_sorted-texts c.vote_hashes) refl

module _ (platform : Platform) where
  pub decode_document-certificate_json :
      (c : FinalityCertificate)
      → Readable platform c
      → decode_document platform (certificate_json c) ≡ ok c
  unfolding decode_document decode_fields find_numbers check_numbers find_ballots build_decoded
      certificate_json find_field field_names checked_hash
  decode_document-certificate_json c r =
      let powers : (c.chain_id == 0
            || c.height == 0
            || c.signed_power == 0
            || c.total_power == 0
            || ltb c.total_power c.signed_power
            || leb (c.signed_power * 3) (c.total_power * 2))
          ≡ false =
        ground (arith, r.chain, r.height, r.bounded, r.quorum) in
      let paired : (count_items (to_items text c.vote_hashes) == length c.validator_ids) ≡ true =
        ground (arith, count_items-to_items c.vote_hashes, r.paired) in
      let digest = beq_refl c.certificate_hash in
      rw
        (
          powers,
          texts_of-to_items c.validator_ids,
          r.identities,
          paired,
          r.block,
          r.certificate,
          hashes_of-to_items c.vote_hashes r.votes,
          ← r.digest,
          digest,
        )
        refl

  pub decode_finality_certificate-dumps :
      (loads : Loads)
      → Documented platform loads
      → (c : FinalityCertificate) → Readable platform c
      → decode_finality_certificate platform loads (platform.dumps (certificate_json c)) ≡ ok c
  unfolding decode_finality_certificate
  decode_finality_certificate-dumps loads law c r =
      rw (law.reads (certificate_json c) (certificate_json-sorted c))
        (decode_document-certificate_json c r)
