-- ===== src/ConsensusSync/Snapshot.antt =====
-- consensus_sync.py, `SnapshotDescriptor`, `SnapshotCatchup` and `build_snapshot_descriptor`.
pub mod RoundTrip
use junca_social_ecosystem_c.Common.{
  ℕ, ◌+◌, ◌*◌, ◌-◌, Bool, true, false, not, ◌&&◌, ◌||◌, Option, none, some, List, [], ◌∷◌, ◌++◌,
  map, ltb, leb, ◌==◌, if◌then◌else◌, length, all_of, Eq, nat_eq, list_eq, ◌=?◌, Result, ok, err,
  Check, ◌>>=◌, ◌>>◌, raise_if, Text, Bytes, codes, is_empty, lower, decimal, join, Platform,
}
use junca_social_ecosystem_c.ConsensusSync.Types.{
  ConsensusSyncError, bad_hash, bad_policy, bad_snapshot_identity, bad_heights, chain_mismatch,
  not_bound, chunk_count, bad_chunk, chunk_digest, checkpoint_mismatch, is_hash, FinalizedClaim,
}

pub record SnapshotDescriptor : Type 0 where
  pub chain_id : ℕ
  pub height : ℕ
  pub block_hash : Text
  pub state_root : Text
  pub checkpoint_digest : Text
  pub chunk_hashes : List Text

-- `SnapshotDescriptor.__post_init__`
unfoldable pub check_descriptor : SnapshotDescriptor → Check ConsensusSyncError
check_descriptor d = do
  raise_if (d.chain_id == 0 || is_empty d.chunk_hashes) bad_snapshot_identity
  raise_if (not (is_hash d.block_hash)) bad_hash
  raise_if (not (is_hash d.state_root)) bad_hash
  raise_if (not (is_hash d.checkpoint_digest)) bad_hash
  raise_if (not (all_of is_hash d.chunk_hashes)) bad_hash

pub data Mode : Type 0 where
  snapshot block_range : Mode

pub record CatchupResult : Type 0 where
  pub mode : Mode
  pub target_height : ℕ
  pub verified_bytes : ℕ

pub record SnapshotCatchup : Type 0 where
  pub chain_id : ℕ
  pub threshold : ℕ

-- `SnapshotCatchup.__init__`
unfoldable pub make_catchup : ℕ → ℕ → Result ConsensusSyncError SnapshotCatchup
make_catchup chain_id threshold = do
  raise_if (chain_id == 0 || threshold == 0) bad_policy
  ok (record { chain_id = chain_id; threshold = threshold })

unfoldable pub choose_mode : SnapshotCatchup → ℕ → ℕ → Result ConsensusSyncError Mode
choose_mode catchup local_height remote_height = do
  raise_if (ltb remote_height local_height) bad_heights
  ok (if leb catchup.threshold (remote_height - local_height) then snapshot else block_range)

abbrev pub max_chunk_bytes : ℕ
max_chunk_bytes = 2 * 1024 * 1024

-- The chunks one after another, as `digest.update` reads them.
unfoldable pub concat : List Bytes → Bytes
concat [] = []
concat (chunk ∷ chunks) = chunk ++ concat chunks

module _ (platform : Platform) where
  abbrev pub hash_of : Bytes → Text
  hash_of chunk = codes "0x" ++ platform.sha256 chunk

  -- `_checkpoint_digest`
  unfoldable pub checkpoint_of : SnapshotDescriptor → List Bytes → Text
  checkpoint_of d chunks =
      let colon = codes ":" in
      let body =
        decimal d.chain_id
        ++ colon
        ++ decimal d.height
        ++ colon
        ++ lower d.block_hash
        ++ colon
        ++ lower d.state_root
        ++ colon
        ++ join colon d.chunk_hashes in
      hash_of (codes "JUNCA_SNAPSHOT_CHECKPOINT_V1" ++ 0 ∷ [] ++ body ++ concat chunks)

  -- The loop of `verify`, with the bytes verified so far; both lists are equally long.
  unfoldable pub verify_chunks : ℕ → List Text → List Bytes → Result ConsensusSyncError ℕ
  verify_chunks verified [] chunks = ok verified
  verify_chunks verified (expected ∷ hashes) [] = ok verified
  verify_chunks verified (expected ∷ hashes) (chunk ∷ chunks) = do
    raise_if (ltb max_chunk_bytes (length chunk)) bad_chunk
    raise_if (not (hash_of chunk =? lower expected)) chunk_digest
    verify_chunks (verified + length chunk) hashes chunks

  unfoldable pub verify :
      SnapshotCatchup
      → SnapshotDescriptor
      → List Bytes
      → FinalizedClaim
      → Result ConsensusSyncError CatchupResult
  verify catchup d chunks finalized = do
    raise_if (not (d.chain_id == catchup.chain_id) || not (finalized.chain_id == catchup.chain_id))
        chain_mismatch
    raise_if
        (not (d.height == finalized.height)
          || not (lower d.block_hash =? lower finalized.block_hash)
          || not (lower d.state_root =? lower finalized.state_root))
        not_bound
    raise_if (not (length chunks == length d.chunk_hashes)) chunk_count
    verified ← verify_chunks 0 d.chunk_hashes chunks
    raise_if (not (checkpoint_of d chunks =? lower d.checkpoint_digest)) checkpoint_mismatch
    ok (record { mode = snapshot; target_height = d.height; verified_bytes = verified })

  -- The descriptor without its checkpoint digest, and with it.
  abbrev pub provisional : ℕ → ℕ → Text → Text → List Bytes → SnapshotDescriptor
  provisional chain_id height block_hash state_root chunks = record {
    chain_id = chain_id;
    height = height;
    block_hash = block_hash;
    state_root = state_root;
    checkpoint_digest = codes "0x0000000000000000000000000000000000000000000000000000000000000000";
    chunk_hashes = map hash_of chunks;
  }

  unfoldable pub build_snapshot_descriptor :
      ℕ → ℕ → Text → Text → List Bytes → Result ConsensusSyncError SnapshotDescriptor
  build_snapshot_descriptor chain_id height block_hash state_root chunks =
      let first = provisional chain_id height block_hash state_root chunks in
      let final = record first { checkpoint_digest = checkpoint_of first chunks } in
      check_descriptor first >> check_descriptor final >> ok final
