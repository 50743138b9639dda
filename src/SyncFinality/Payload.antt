-- ===== src/SyncFinality/Payload.antt =====
-- sync_finality.py, `proof_to_payload` and `proof_from_payload`: the form in which peers exchange
-- finality proofs.
pub mod Exchange
use junca_social_ecosystem_c.Common.{
  ℕ, ◌%◌, Bool, true, false, not, ◌||◌, Option, none, some, List, [], ◌∷◌, ltb, ◌==◌, length,
  all_of, nat_eq, list_eq, ◌=?◌, mem, Result, ok, err, ◌>>=◌, ◌>>◌, raise_if, or_raise, Text, Bytes,
  codes, hex, from_hex, is_lower_hex, Json, Items, Fields, text, number, array, object, nil, cons,
  end, field, to_items, find_field, field_names, has_exactly, as_number, as_text, as_items,
}
use junca_social_ecosystem_c.Finality.Types.{FinalityVote}
use junca_social_ecosystem_c.SyncFinality.Schedule.{
  SyncFinalityError, bad_proof_fields, bad_votes, bad_vote_fields, bad_encoding, bad_value,
}
use junca_social_ecosystem_c.SyncFinality.Verifier.{FinalityProof}

abbrev pub vote_names : List Text
vote_names =
    codes "chain_id"
    ∷ codes "height"
    ∷ codes "round"
    ∷ codes "block_hash"
    ∷ codes "validator_id"
    ∷ codes "signature"
    ∷ []

abbrev pub proof_names : List Text
proof_names =
    codes "chain_id"
    ∷ codes "height"
    ∷ codes "round"
    ∷ codes "block_hash"
    ∷ codes "validator_set_hash"
    ∷ codes "votes"
    ∷ codes "certificate_hash"
    ∷ []

-- The dict of a vote.
unfoldable pub vote_payload_json : FinalityVote → Json
vote_payload_json vote = object (
    field (codes "chain_id") (number vote.chain_id) (
      field (codes "height") (number vote.height) (
        field (codes "round") (number vote.round) (
          field (codes "block_hash") (text vote.block_hash) (
            field (codes "validator_id") (text vote.validator_id)
              (field (codes "signature") (text (hex vote.signature)) end))))))

unfoldable pub proof_to_payload : FinalityProof → Json
proof_to_payload proof = object (
    field (codes "chain_id") (number proof.chain_id) (
      field (codes "height") (number proof.height) (
        field (codes "round") (number proof.round) (
          field (codes "block_hash") (text proof.block_hash) (
            field (codes "validator_set_hash") (text proof.validator_set_hash) (
              field (codes "votes") (array (to_items vote_payload_json proof.votes))
                (field (codes "certificate_hash") (text proof.certificate_hash) end)))))))

-- The constructors take values of any type; one of another type than its field's is refused here,
-- where the code leaves it to the verification.
abbrev pub number_field : Text → Fields → Result SyncFinalityError ℕ
number_field name raw = or_raise (as_number (find_field name raw)) bad_value

abbrev pub text_field : Text → Fields → Result SyncFinalityError Text
text_field name raw = or_raise (as_text (find_field name raw)) bad_value

unfoldable pub decode_signature : Text → Result SyncFinalityError Bytes
decode_signature encoded = do
  raise_if
      (ltb (length encoded) 2
        || ltb 8192 (length encoded)
        || not (length encoded % 2 == 0)
        || not (all_of is_lower_hex encoded))
      bad_encoding
  or_raise (from_hex encoded) bad_encoding

unfoldable pub decode_vote_fields : Fields → Result SyncFinalityError FinalityVote
decode_vote_fields raw = do
  raise_if (not (has_exactly vote_names raw)) bad_vote_fields
  encoded ← or_raise (as_text (find_field (codes "signature") raw)) bad_encoding
  signature ← decode_signature encoded
  chain_id ← number_field (codes "chain_id") raw
  height ← number_field (codes "height") raw
  round ← number_field (codes "round") raw
  block_hash ← text_field (codes "block_hash") raw
  validator_id ← text_field (codes "validator_id") raw
  ok (record {
    chain_id = chain_id;
    height = height;
    round = round;
    block_hash = block_hash;
    validator_id = validator_id;
    signature = signature;
  })

unfoldable pub decode_vote : Json → Result SyncFinalityError FinalityVote
decode_vote (object raw) = decode_vote_fields raw
decode_vote other = err bad_vote_fields

unfoldable pub decode_votes : Items → Result SyncFinalityError (List FinalityVote)
decode_votes nil = ok []
decode_votes (cons j items) = do vote ← decode_vote j; votes ← decode_votes items; ok (vote ∷ votes)

-- `not raw_votes`
abbrev pub has_no_items : Items → Bool
has_no_items nil = true
has_no_items (cons j items) = false

unfoldable pub proof_from_fields : Fields → Result SyncFinalityError FinalityProof
proof_from_fields raw = do
  raise_if (not (has_exactly proof_names raw)) bad_proof_fields
  items ← or_raise (as_items (find_field (codes "votes") raw)) bad_votes
  raise_if (has_no_items items) bad_votes
  votes ← decode_votes items
  chain_id ← number_field (codes "chain_id") raw
  height ← number_field (codes "height") raw
  round ← number_field (codes "round") raw
  block_hash ← text_field (codes "block_hash") raw
  set_hash ← text_field (codes "validator_set_hash") raw
  certificate_hash ← text_field (codes "certificate_hash") raw
  ok (record {
    chain_id = chain_id;
    height = height;
    round = round;
    block_hash = block_hash;
    validator_set_hash = set_hash;
    votes = votes;
    certificate_hash = certificate_hash;
  })

unfoldable pub proof_from_payload : Json → Result SyncFinalityError FinalityProof
proof_from_payload (object raw) = proof_from_fields raw
proof_from_payload other = err bad_proof_fields
