-- ===== src/StateStore/Certificate.antt =====
-- state_store.py, `latest_finality_certificate` and `_decode_finality_certificate`: the certificate
-- that is stored with the head.
pub mod Decode
pub mod Issued
pub mod Recovery
pub mod Decoded
pub mod Bound
use junca_social_ecosystem_c.Common.{
  ℕ, zero, suc, ◌*◌, Bool, true, false, not, ◌&&◌, ◌||◌, Option, none, some, List, [], ◌∷◌, ltb,
  leb, ◌==◌, nat_eq, list_eq, ◌=?◌, mem, length, any_of, all_of, sort_by, text_leb, lookup, Result,
  ok, err, Check, ◌>>=◌, ◌>>◌, raise_if, or_raise, Text, codes, is_empty, Json, Items, Fields,
  boolean, text, number, array, object, nil, cons, end, field, Platform, if◌then◌else◌, find_field,
  field_names, has_exactly, is_text, as_number, as_items,
}
use junca_social_ecosystem_c.Finality.Types.{FinalityCertificate, certificate_digest}
use junca_social_ecosystem_c.StateStore.Types.{
  StateStoreError, bad_certificate, bad_hash, digest_mismatch, unbound_certificate, BlockRow,
  check_hash, Loads,
}
use junca_social_ecosystem_c.StateStore.Store.{Store, last_row}

abbrev pub certificate_fields : List Text
certificate_fields =
    codes "schema_version"
    ∷ codes "chain_id"
    ∷ codes "height"
    ∷ codes "round"
    ∷ codes "block_hash"
    ∷ codes "signed_power"
    ∷ codes "total_power"
    ∷ codes "validator_ids"
    ∷ codes "vote_hashes"
    ∷ codes "certificate_hash"
    ∷ codes "finality_status"
    ∷ codes "mainnet_changed"
    ∷ codes "assets_moved"
    ∷ codes "bridge_activated"
    ∷ []

-- `value is False`
abbrev pub is_false : Option Json → Bool
is_false (some (boolean b)) = not b
is_false other = false

abbrev pub is_final : Fields → Bool
is_final raw =
    is_text (codes "junca-finality-certificate/v1") (find_field (codes "schema_version") raw)
    && is_text (codes "FINALIZED") (find_field (codes "finality_status") raw)
    && is_false (find_field (codes "mainnet_changed") raw)
    && is_false (find_field (codes "assets_moved") raw)
    && is_false (find_field (codes "bridge_activated") raw)

abbrev pub cons_text : Text → Option (List Text) → Option (List Text)
cons_text t none = none
cons_text t (some rest) = some (t ∷ rest)

-- The items, where each is a text.
unfoldable pub texts_of : Items → Option (List Text)
texts_of nil = some []
texts_of (cons (text t) items) = cons_text t (texts_of items)
texts_of (cons other items) = none

unfoldable pub count_items : Items → ℕ
count_items nil = 0
count_items (cons j items) = suc (count_items items)

-- `set(texts)`, each once.
unfoldable pub distinct : List Text → List Text
distinct [] = []
distinct (t ∷ texts) = let rest = distinct texts in if mem t texts then rest else t ∷ rest

-- The tests of the validators' identities.
abbrev pub are_identities : List Text → Bool
are_identities ids =
    not (is_empty ids) && ids =? sort_by text_leb (distinct ids) && not (any_of is_empty ids)

-- `_hash` of a JSON value.
unfoldable pub checked_hash : Option Json → Result StateStoreError Text
checked_hash (some (text t)) = do check_hash t; ok t
checked_hash other = err bad_hash

unfoldable pub hashes_of : Items → Result StateStoreError (List Text)
hashes_of nil = ok []
hashes_of (cons j items) = do
  first ← checked_hash (some j)
  rest ← hashes_of items
  ok (first ∷ rest)

-- The comparison with a column that may be null.
abbrev pub equals_hash : Text → Option Text → Bool
equals_hash hash none = false
equals_hash hash (some other) = hash =? other

-- The integers of a certificate.
pub record Numbers : Type 0 where
  pub chain_id : ℕ
  pub height : ℕ
  pub round : ℕ
  pub signed : ℕ
  pub total : ℕ

abbrev pub number_in : Text → Fields → Result StateStoreError ℕ
number_in name raw = or_raise (as_number (find_field name raw)) bad_certificate

unfoldable pub find_numbers : Fields → Result StateStoreError Numbers
find_numbers raw = do
  chain_id ← number_in (codes "chain_id") raw
  height ← number_in (codes "height") raw
  round ← number_in (codes "round") raw
  signed ← number_in (codes "signed_power") raw
  total ← number_in (codes "total_power") raw
  ok (record {
    chain_id = chain_id;
    height = height;
    round = round;
    signed = signed;
    total = total;
  })

unfoldable pub check_numbers : Numbers → Check StateStoreError
check_numbers n =
    raise_if
      (n.chain_id == 0
        || n.height == 0
        || n.signed == 0
        || n.total == 0
        || ltb n.total n.signed
        || leb (n.signed * 3) (n.total * 2))
      bad_certificate

-- The identities, and the votes' hashes still as JSON. A list of identities that are not all texts
-- is refused, or `sorted` raises a `TypeError`; the one error stands for both.
unfoldable pub find_ballots : Fields → Result StateStoreError (List Text × Items)
find_ballots raw = do
  listed ← or_raise (as_items (find_field (codes "validator_ids") raw)) bad_certificate
  ids ← or_raise (texts_of listed) bad_certificate
  raise_if (not (are_identities ids)) bad_certificate
  votes ← or_raise (as_items (find_field (codes "vote_hashes") raw)) bad_certificate
  raise_if (not (count_items votes == length ids)) bad_certificate
  ok (ids, votes)

module _ (platform : Platform) where
  -- The digest over the body, and the certificate.
  unfoldable pub build_decoded :
      Numbers → List Text → Text → Text → List Text → Result StateStoreError FinalityCertificate
  build_decoded n ids block_hash certificate_hash hashes = do
    raise_if
        (not (
          certificate_hash
          =? certificate_digest platform n.chain_id n.height n.round block_hash n.signed n.total ids
              hashes))
        digest_mismatch
    ok (record {
      chain_id = n.chain_id;
      height = n.height;
      round = n.round;
      block_hash = block_hash;
      signed_power = n.signed;
      total_power = n.total;
      validator_ids = ids;
      vote_hashes = hashes;
      certificate_hash = certificate_hash;
    })

  unfoldable pub decode_fields : Fields → Result StateStoreError FinalityCertificate
  decode_fields raw = do
    raise_if (not (has_exactly certificate_fields raw) || not (is_final raw)) bad_certificate
    n ← find_numbers raw
    check_numbers n
    (ids, votes) ← find_ballots raw
    block_hash ← checked_hash (find_field (codes "block_hash") raw)
    certificate_hash ← checked_hash (find_field (codes "certificate_hash") raw)
    hashes ← hashes_of votes
    build_decoded n ids block_hash certificate_hash hashes

  unfoldable pub decode_document : Json → Result StateStoreError FinalityCertificate
  decode_document (object raw) = decode_fields raw
  decode_document other = err bad_certificate

  -- `_decode_finality_certificate`
  unfoldable pub decode_finality_certificate :
      Loads → Text → Result StateStoreError FinalityCertificate
  decode_finality_certificate loads payload =
      or_raise (loads payload) bad_certificate >>= decode_document

  -- The last row, and the text that the join finds for its height.
  unfoldable pub certificate_at :
      Loads → ℕ → BlockRow → Option Text → Result StateStoreError (Option FinalityCertificate)
  certificate_at loads chain_id row none = ok none
  certificate_at loads chain_id row (some payload) = if row.height == 0 then ok none else do
    c ← decode_finality_certificate loads payload
    raise_if
        (not (c.chain_id == chain_id)
          || not (c.height == row.height)
          || not (c.block_hash =? row.block_hash)
          || not (equals_hash c.certificate_hash row.certificate_hash))
        unbound_certificate
    ok (some c)

  unfoldable pub latest_finality_certificate :
      Loads → Store → Result StateStoreError (Option FinalityCertificate)
  latest_finality_certificate loads s = elim (last_row s.blocks) [
    | none ↦ ok none
    | some row ↦ certificate_at loads s.chain_id row (lookup row.height s.certificates)
  ]
