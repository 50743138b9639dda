-- ===== src/StateStore/Certificate/Decoded.antt =====
-- state_store.py, `_decode_finality_certificate`: what it accepts, whatever the stored text is.
use junca_social_ecosystem_c.Common.{
  suc, ◌*◌, ◌<◌, ◌≤◌, ◌≡◌, refl, subst, ap, ◌∙◌, arith, true, false, not, ◌||◌, Option, none, some,
  List, [], ◌∷◌, ◌==◌, nat_eq, list_eq, ◌=?◌, length, All, ok, raise_if, or_raise, raise_if-eq-ok,
  ok-injective, >>-eq-ok, >>=-eq-ok, Text, codes, Json, Items, Fields, null, boolean, text, number,
  array, object, nil, cons, find_field, has_exactly, as_items, Platform,
}
use junca_social_ecosystem_c.Finality.Types.{FinalityCertificate, certificate_digest}
use junca_social_ecosystem_c.StateStore.Types.{bad_certificate, digest_mismatch, check_hash, Loads}
use junca_social_ecosystem_c.StateStore.Certificate.{
  Numbers, find_numbers, check_numbers, find_ballots, build_decoded, certificate_fields, is_final,
  texts_of, count_items, are_identities, checked_hash, hashes_of, decode_fields, decode_document,
  decode_finality_certificate,
}
use junca_social_ecosystem_c.StateStore.Outcome.{same_text}
use junca_social_ecosystem_c.StateStore.Certificate.Decode.{Readable}

checked_hash-eq-ok :
    (value : Option Json) {hash : Text} → checked_hash value ≡ ok hash → check_hash hash ≡ ok tt
unfolding checked_hash
checked_hash-eq-ok (some (text t)) h =
    let (formed, same) = >>-eq-ok (check_hash t) _ h in
    subst (λ (s : Text). check_hash s ≡ ok tt) (ok-injective same) formed
checked_hash-eq-ok none h = cc
checked_hash-eq-ok (some null) h = cc
checked_hash-eq-ok (some (boolean b)) h = cc
checked_hash-eq-ok (some (number n)) h = cc
checked_hash-eq-ok (some (array items)) h = cc
checked_hash-eq-ok (some (object fields)) h = cc

hashes_of-eq-ok :
    (items : Items) {hashes : List Text}
    → hashes_of items ≡ ok hashes
    → (length hashes ≡ count_items items) × All (λ hash. check_hash hash ≡ ok tt) hashes
unfolding hashes_of count_items
hashes_of-eq-ok nil {hashes} h =
    let e : [] ≡ hashes = ok-injective h in
    subst (λ (l : List Text). (length l ≡ 0) × All (λ hash. check_hash hash ≡ ok tt) l) e (refl, tt)
hashes_of-eq-ok (cons j items) {hashes} h =
    let (first, formed, h1) = >>=-eq-ok (checked_hash (some j)) _ h in
    let (rest, more, h2) = >>=-eq-ok (hashes_of items) _ h1 in
    let (count, all) = hashes_of-eq-ok items more in
    let e : first ∷ rest ≡ hashes = ok-injective h2 in
    subst
      (λ (l : List Text).
        (length l ≡ suc (count_items items)) × All (λ hash. check_hash hash ≡ ok tt) l)
      e (ap suc count, (checked_hash-eq-ok (some j) formed, all))

-- The tests of the numbers, met.
pub record Counted (n : Numbers) : Type 0 where
  pub chain : (n.chain_id == 0) ≡ false
  pub height : (n.height == 0) ≡ false
  pub bounded : n.signed ≤ n.total
  pub quorum : n.total * 2 < n.signed * 3

check_numbers-Counted : (n : Numbers) → check_numbers n ≡ ok tt → Counted n
unfolding check_numbers
check_numbers-Counted n h =
    let tests = raise_if-eq-ok _ bad_certificate h in
    record {
      chain = ground (arith, tests);
      height = ground (arith, tests);
      bounded = ground (arith, tests);
      quorum = ground (arith, tests);
    }

find_ballots-eq-ok :
    (raw : Fields) {ids : List Text} {votes : Items}
    → find_ballots raw ≡ ok (ids, votes)
    → (are_identities ids ≡ true) × (count_items votes ≡ length ids)
unfolding find_ballots
find_ballots-eq-ok raw {ids} {votes} h0 =
    let (listed, a1, h1) =
      >>=-eq-ok (or_raise (as_items (find_field (codes "validator_ids") raw)) bad_certificate) _
        h0 in
    let (named, a2, h2) = >>=-eq-ok (or_raise (texts_of listed) bad_certificate) _ h1 in
    let (a3, h3) = >>-eq-ok (raise_if (not (are_identities named)) bad_certificate) _ h2 in
    let (found, a4, h4) =
      >>=-eq-ok (or_raise (as_items (find_field (codes "vote_hashes") raw)) bad_certificate) _ h3 in
    let (a5, h5) =
      >>-eq-ok (raise_if (not (count_items found == length named)) bad_certificate) _ h4 in
    let same : (named, found) ≡ (ids, votes) = ok-injective h5 in
    let first : are_identities named ≡ true =
      ground (arith, raise_if-eq-ok (not (are_identities named)) bad_certificate a3) in
    let second : count_items found ≡ length named =
      ground (arith, raise_if-eq-ok (not (count_items found == length named)) bad_certificate a5) in
    subst (λ (p : List Text × Items). (are_identities p.0 ≡ true) × (count_items p.1 ≡ length p.0))
      same (first, second)

module _ (platform : Platform) where
  build_decoded-Readable :
      (n : Numbers) (ids : List Text) (block hash : Text) (hashes : List Text)
      {c : FinalityCertificate}
      → Counted n
      → are_identities ids ≡ true
      → length hashes ≡ length ids
      → check_hash block ≡ ok tt
      → check_hash hash ≡ ok tt
      → All (λ h. check_hash h ≡ ok tt) hashes
      → build_decoded platform n ids block hash hashes ≡ ok c
      → Readable platform c
  unfolding build_decoded
  build_decoded-Readable n ids block hash hashes {c} counted identities paired b h formed built =
      let digest =
        certificate_digest platform n.chain_id n.height n.round block n.signed n.total ids hashes in
      let (same, done) = >>-eq-ok (raise_if (not (hash =? digest)) digest_mismatch) _ built in
      subst (Readable platform) (ok-injective done) (record {
        chain = counted.chain;
        height = counted.height;
        bounded = counted.bounded;
        quorum = counted.quorum;
        identities = identities;
        paired = paired;
        block = b;
        certificate = h;
        votes = formed;
        digest = same_text hash digest digest_mismatch same;
      })

  decode_fields-Readable :
      (raw : Fields) {c : FinalityCertificate}
      → decode_fields platform raw ≡ ok c
      → Readable platform c
  unfolding decode_fields
  decode_fields-Readable raw h0 =
      let (a1, h1) =
        >>-eq-ok
          (raise_if (not (has_exactly certificate_fields raw) || not (is_final raw))
            bad_certificate)
          _ h0 in
      let (n, a2, h2) = >>=-eq-ok (find_numbers raw) _ h1 in
      let (a3, h3) = >>-eq-ok (check_numbers n) _ h2 in
      let (ballots, a4, h4) = >>=-eq-ok (find_ballots raw) _ h3 in
      let (block, a5, h5) = >>=-eq-ok (checked_hash (find_field (codes "block_hash") raw)) _ h4 in
      let (hash, a6, h6) =
        >>=-eq-ok (checked_hash (find_field (codes "certificate_hash") raw)) _ h5 in
      let (hashes, a7, h7) = >>=-eq-ok (hashes_of ballots.1) _ h6 in
      let (identities, paired) = find_ballots-eq-ok raw a4 in
      let (count, formed) = hashes_of-eq-ok ballots.1 a7 in
      build_decoded-Readable n ballots.0 block hash hashes (check_numbers-Counted n a3) identities
        (count ∙ paired) (checked_hash-eq-ok _ a5) (checked_hash-eq-ok _ a6) formed h7

  decode_document-Readable :
      (j : Json) {c : FinalityCertificate} → decode_document platform j ≡ ok c → Readable platform c
  unfolding decode_document
  decode_document-Readable (object raw) h = decode_fields-Readable raw h
  decode_document-Readable null h = cc
  decode_document-Readable (boolean b) h = cc
  decode_document-Readable (text t) h = cc
  decode_document-Readable (number n) h = cc
  decode_document-Readable (array items) h = cc

  pub decode_finality_certificate-Readable :
      (loads : Loads) (payload : Text) {c : FinalityCertificate}
      → decode_finality_certificate platform loads payload ≡ ok c
      → Readable platform c
  unfolding decode_finality_certificate
  decode_finality_certificate-Readable loads payload h =
      let (j, parsed, decoded) = >>=-eq-ok (or_raise (loads payload) bad_certificate) _ h in
      decode_document-Readable j decoded
