-- ===== src/Finality/Types.antt =====
-- finality.py: validators, votes, certificates and their digests.
use junca_social_ecosystem_c.Common.{
  ℕ, not, ◌||◌, List, [], ◌∷◌, ◌++◌, ltb, ◌==◌, length, drop, Check, ◌>>◌, raise_if, Text, Bytes,
  codes, is_empty, lower, starts_with, parses_hex, Json, object, text, number, array, end, field,
  to_items, Platform, tagged_digest,
}

pub data FinalityError : Type 0 where
  bad_validator bad_chain_id bad_initial_height too_few_validators : FinalityError
  duplicate_validators : FinalityError
  chain_id_mismatch bad_block_hash unknown_validator bad_signature : FinalityError
  verification_failed below_finalized_head beyond_next_height : FinalityError
  conflicting_vote equivocation certificate_conflict not_contiguous not_finalized : FinalityError
  missing_validator : FinalityError

pub record Validator : Type 0 where
  pub validator_id : Text
  pub voting_power : ℕ

-- `Validator.__post_init__`; an ASCII identity has as many bytes as characters.
unfoldable pub check_validator : Validator → Check FinalityError
check_validator v =
    raise_if (is_empty v.validator_id || ltb 128 (length v.validator_id) || v.voting_power == 0)
      bad_validator

pub record FinalityVote : Type 0 where
  pub chain_id : ℕ
  pub height : ℕ
  pub round : ℕ
  pub block_hash : Text
  pub validator_id : Text
  pub signature : Bytes

unfoldable pub vote_payload : FinalityVote → Json
vote_payload v = object (
    field (codes "block_hash") (text (lower v.block_hash)) (
      field (codes "chain_id") (number v.chain_id) (
        field (codes "height") (number v.height) (
          field (codes "round") (number v.round) (
            field (codes "validator_id") (text v.validator_id)
              (field (codes "vote_type") (text (codes "PRECOMMIT")) end))))))

unfoldable pub vote_hash : Platform → FinalityVote → Text
unfolding vote_payload
vote_hash platform v =
    codes "0x" ++ platform.sha256 (platform.dumps (vote_payload v) ++ v.signature)

pub record FinalityCertificate : Type 0 where
  pub chain_id : ℕ
  pub height : ℕ
  pub round : ℕ
  pub block_hash : Text
  pub signed_power : ℕ
  pub total_power : ℕ
  pub validator_ids : List Text
  pub vote_hashes : List Text
  pub certificate_hash : Text

-- The digest over a certificate's body.
unfoldable pub certificate_digest :
    Platform → ℕ → ℕ → ℕ → Text → ℕ → ℕ → List Text → List Text → Text
certificate_digest platform chain_id height round block_hash signed total ids hashes =
    tagged_digest platform (codes "JUNCA_FINALITY_CERTIFICATE_V1" ++ 0 ∷ []) (platform.dumps body)
  where
    body : Json
    body = object (
        field (codes "block_hash") (text block_hash) (
          field (codes "chain_id") (number chain_id) (
            field (codes "height") (number height) (
              field (codes "round") (number round) (
                field (codes "signed_power") (number signed) (
                  field (codes "total_power") (number total) (
                    field (codes "validator_ids") (array (to_items text ids))
                      (field (codes "vote_hashes") (array (to_items text hashes)) end))))))))

-- `_validate_block_hash`
unfoldable pub validate_block_hash : Text → Check FinalityError
validate_block_hash value = do
  raise_if (not (length value == 66) || not (starts_with value (codes "0x"))) bad_block_hash
  raise_if (not (parses_hex (drop 2 value))) bad_block_hash
