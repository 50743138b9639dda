-- ===== src/ConsensusSync/Types.antt =====
-- consensus_sync.py: finalized claims and the errors. Integers that the code requires to be
-- non-negative are of type ℕ.
use junca_social_ecosystem_c.Common.{
  ℕ, ◌*◌, not, ◌||◌, ltb, leb, ◌==◌, ◌&&◌, length, drop, Check, ◌>>◌, raise_if, Text, codes,
  is_empty, starts_with, parses_hex, Bool,
}

pub data ConsensusSyncError : Type 0 where
  bad_claim_identity bad_hash no_quorum bad_policy : ConsensusSyncError
  safety_halted chain_mismatch genesis_mismatch bad_power power_mismatch : ConsensusSyncError
  peer_quarantined height_regressed conflicting_finality parent_mismatch : ConsensusSyncError
  bad_snapshot_identity bad_heights not_bound chunk_count bad_chunk chunk_digest :
      ConsensusSyncError
  checkpoint_mismatch : ConsensusSyncError

-- `_hash`: `0x` and 64 characters that `int(s, 16)` reads.
unfoldable pub is_hash : Text → Bool
is_hash value = length value == 66 && (starts_with value (codes "0x") && parses_hex (drop 2 value))

pub record FinalizedClaim : Type 0 where
  pub peer_id : Text
  pub chain_id : ℕ
  pub genesis_hash : Text
  pub height : ℕ
  pub block_hash : Text
  pub parent_hash : Text
  pub state_root : Text
  pub signed_power : ℕ
  pub total_power : ℕ

-- `FinalizedClaim.__post_init__`
unfoldable pub check_claim : FinalizedClaim → Check ConsensusSyncError
check_claim c = do
  raise_if (is_empty c.peer_id || c.chain_id == 0) bad_claim_identity
  raise_if (not (is_hash c.genesis_hash)) bad_hash
  raise_if (not (is_hash c.block_hash)) bad_hash
  raise_if (not (is_hash c.parent_hash)) bad_hash
  raise_if (not (is_hash c.state_root)) bad_hash
  raise_if
      (c.signed_power == 0
        || c.total_power == 0
        || ltb c.total_power c.signed_power
        || leb (c.signed_power * 3) (c.total_power * 2))
      no_quorum

pub record PeerDiscipline : Type 0 where
  pub faults : ℕ
  pub quarantined : Bool
