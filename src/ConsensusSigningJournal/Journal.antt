-- ===== src/ConsensusSigningJournal/Journal.antt =====
-- consensus_signing_journal.py. The two SQLite tables are dicts under their primary keys; a
-- transaction that is rolled back gives the journal as it was. A signer returns bytes or raises.
pub mod Signed
pub mod Watermark
use junca_social_ecosystem_c.Common.{
  ℕ, Bool, true, false, not, ◌&&◌, ◌||◌, Option, none, some, List, [], ◌∷◌, ltb, ◌==◌,
  if◌then◌else◌, length, drop, all_of, any_of, Eq, nat_eq, list_eq, pair_eq, ◌=?◌, Result, ok, err,
  Check, ◌>>=◌, ◌>>◌, raise_if, or_raise, Verdict, is_true, Dict, lookup, insert, Text, Bytes,
  codes, is_empty, is_space, is_lower_hex, starts_with, Json, Fields, object, text, number, end,
  field, Platform,
}

pub data JournalError : Type 0 where
  bad_validator_id bad_height bad_block_hash empty_payload payload_mismatch : JournalError
  double_sign below_watermark signer_failed bad_signature verification_failed : JournalError
  corrupted other_chain : JournalError

-- A row of `consensus_signatures` without its key.
pub record SignatureRow : Type 0 where
  pub block_hash : Text
  pub payload_digest : Text
  pub signature : Bytes

-- The primary key: validator, height and round.
abbrev pub RowKey : Type 0
RowKey = Text × (ℕ × ℕ)

pub record Journal : Type 0 where
  pub chain_id : ℕ
  pub signatures : Dict RowKey SignatureRow
  pub watermarks : Dict Text (ℕ × ℕ)

-- What a call asks for.
pub record Request : Type 0 where
  pub validator_id : Text
  pub height : ℕ
  pub round : ℕ
  pub block_hash : Text
  pub signing_payload : Bytes

abbrev pub place : Request → RowKey
place q = (q.validator_id, (q.height, q.round))

unfoldable pub is_validator_id : Text → Bool
is_validator_id id = not (is_empty id) && not (any_of is_space id)

-- A lowercase SHA-256 behind `0x`.
unfoldable pub is_block_hash : Text → Bool
is_block_hash h = length h == 66 && starts_with h (codes "0x") && all_of is_lower_hex (drop 2 h)

unfoldable pub is_signature_length : Bytes → Bool
is_signature_length s = length s == 64 || length s == 65

-- The canonical vote that a payload must spell.
unfoldable pub canonical_vote : ℕ → Text → ℕ → ℕ → Text → Json
canonical_vote chain_id validator_id height round block_hash = object (
    field (codes "block_hash") (text block_hash) (
      field (codes "chain_id") (number chain_id) (
        field (codes "height") (number height) (
          field (codes "round") (number round) (
            field (codes "validator_id") (text validator_id)
              (field (codes "vote_type") (text (codes "PRECOMMIT")) end))))))

-- `(height, round)` is below a watermark.
abbrev pub is_below : ℕ × ℕ → ℕ × ℕ → Bool
is_below (height, round) (top, top_round) = ltb height top || (height == top && ltb round top_round)

-- The upsert into `validator_watermarks`: a watermark is only raised.
unfoldable pub raise_watermark : Text → ℕ × ℕ → Dict Text (ℕ × ℕ) → Dict Text (ℕ × ℕ)
raise_watermark id mark marks = elim (lookup id marks) [
  | none ↦ insert id mark marks
  | some old ↦ if is_below old mark then insert id mark marks else marks
]

-- `_verify_signature`
unfoldable pub verify_signature : (Bytes → Verdict) → Bytes → Check JournalError
verify_signature verifier signature =
    raise_if (not (is_true (verifier signature))) verification_failed

abbrev pub Outcome : Type 0
Outcome = Result JournalError (Bytes × Journal)

abbrev pub below_mark : Option (ℕ × ℕ) → ℕ × ℕ → Bool
below_mark none mark = false
below_mark (some top) mark = is_below mark top

-- A history of calls, each with its signer and verifier.
abbrev pub Call : Type 0
Call = Request × Option Bytes × (Bytes → Verdict)

abbrev pub after : Journal → Outcome → Journal
after j (ok (signature, j')) = j'
after j (err e) = j

module _ (platform : Platform) where
  unfoldable pub payload_of : ℕ → Request → Bytes
  payload_of chain_id q =
      platform.dumps (canonical_vote chain_id q.validator_id q.height q.round q.block_hash)

  -- The tests in front of the transaction.
  unfoldable pub check_request : Journal → Request → Check JournalError
  check_request j q = do
    raise_if (not (is_validator_id q.validator_id)) bad_validator_id
    raise_if (q.height == 0) bad_height
    raise_if (not (is_block_hash q.block_hash)) bad_block_hash
    raise_if (is_empty q.signing_payload) empty_payload
    raise_if (not (q.signing_payload =? payload_of j.chain_id q)) payload_mismatch

  -- A stored row: the same vote is replayed, another is refused.
  unfoldable pub replay : Journal → Request → (Bytes → Verdict) → SignatureRow → Outcome
  replay j q verifier row = do
    raise_if
        (not (row.block_hash =? q.block_hash)
          || not (row.payload_digest =? platform.sha256 q.signing_payload))
        double_sign
    verify_signature verifier row.signature
    ok (row.signature, j)

  -- What a new vote writes.
  unfoldable pub write_vote : Journal → Request → Bytes → Journal
  write_vote j q signature = record j {
    signatures =
        insert (place q)
          (record {
            block_hash = q.block_hash;
            payload_digest = platform.sha256 q.signing_payload;
            signature = signature;
          })
          j.signatures;
    watermarks = raise_watermark q.validator_id (q.height, q.round) j.watermarks;
  }

  unfoldable pub sign : Journal → Request → Option Bytes → (Bytes → Verdict) → Outcome
  sign j q signer verifier = do
    raise_if (below_mark (lookup q.validator_id j.watermarks) (q.height, q.round)) below_watermark
    signature ← or_raise signer signer_failed
    raise_if (not (is_signature_length signature)) bad_signature
    verify_signature verifier signature
    ok (signature, write_vote j q signature)

  unfoldable pub answer :
      Journal → Request → Option Bytes → (Bytes → Verdict) → Option SignatureRow → Outcome
  answer j q signer verifier none = sign j q signer verifier
  answer j q signer verifier (some row) = replay j q verifier row

  -- `get_or_sign`
  unfoldable pub get_or_sign : Journal → Request → Option Bytes → (Bytes → Verdict) → Outcome
  get_or_sign j q signer verifier =
      check_request j q >> answer j q signer verifier (lookup (place q) j.signatures)

  unfoldable pub run : Journal → List Call → Journal
  run j [] = j
  run j ((q, signer, verifier) ∷ calls) = run (after j (get_or_sign j q signer verifier)) calls

  -- The test of a row in `_validate_persisted_state`.
  unfoldable pub is_valid_row : ℕ → RowKey → SignatureRow → Bool
  is_valid_row chain_id (id, (height, round)) row =
      is_validator_id id
      && not (height == 0)
      && is_block_hash row.block_hash
      && length row.payload_digest == 64
      && all_of is_lower_hex row.payload_digest
      && is_signature_length row.signature
      && platform.sha256 (platform.dumps (canonical_vote chain_id id height round row.block_hash))
        =? row.payload_digest

-- The greatest place of each validator among the rows.
unfoldable pub latest : Dict RowKey SignatureRow → Dict Text (ℕ × ℕ) → Dict Text (ℕ × ℕ)
latest [] marks = marks
latest (((id, mark), row) ∷ rows) marks = latest rows (raise_watermark id mark marks)

-- `a == b` on dicts.
abbrev pub has_entry : Dict Text (ℕ × ℕ) → Text × (ℕ × ℕ) → Bool
has_entry d (id, mark) = elim (lookup id d) [ none ↦ false | some other ↦ other =? mark ]

unfoldable pub dict_eq : Dict Text (ℕ × ℕ) → Dict Text (ℕ × ℕ) → Bool
dict_eq a b = length a == length b && all_of (has_entry b) a

-- `_restore_watermarks`: rows with no newer row of their validator raise its watermark.
unfoldable pub is_newest : Dict RowKey SignatureRow → RowKey → Bool
is_newest rows (id, mark) = not (any_of (λ other. other.0.0 =? id && is_below mark other.0.1) rows)

unfoldable pub restore_from :
    Dict RowKey SignatureRow → Dict RowKey SignatureRow → Dict Text (ℕ × ℕ) → Dict Text (ℕ × ℕ)
restore_from all [] marks = marks
restore_from all ((key, row) ∷ rows) marks =
    restore_from all rows (if is_newest all key then raise_watermark key.0 key.1 marks else marks)

-- `_bind_chain`: the journal's chain identity, from the stored one and the one asked for.
unfoldable pub bind_chain : Option ℕ → ℕ → Result JournalError ℕ
bind_chain none chain_id = ok chain_id
bind_chain (some stored) chain_id = if stored == chain_id then ok stored else err other_chain

-- Opening a journal on existing tables: the watermarks are restored and the state is validated.
unfoldable pub open_journal : Platform → Journal → Result JournalError Journal
open_journal platform j = do
  let marks = restore_from j.signatures j.signatures j.watermarks
  raise_if (not (all_of (λ entry. is_valid_row platform j.chain_id entry.0 entry.1) j.signatures))
      corrupted
  raise_if (not (dict_eq marks (latest j.signatures []))) corrupted
  ok (record j { watermarks = marks })
