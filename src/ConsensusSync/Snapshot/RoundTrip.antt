-- ===== src/ConsensusSync/Snapshot/RoundTrip.antt =====
-- consensus_sync.py: a built snapshot verifies, and a descriptor fixes the chunks that verify.
use junca_social_ecosystem_c.Common.{
  ℕ, ◌+◌, ◌≤◌, ◌≡◌, refl, ap, ap₂, not, List, [], ◌∷◌, map, arith, ltb, length, sum_by, All, nat_eq,
  list_eq, ◌=?◌, text_iff, beq_refl, ok, raise_if, >>-eq-ok, Text, Bytes, lower, Platform,
}
use junca_social_ecosystem_c.ConsensusSync.Types.{FinalizedClaim, bad_chunk, chunk_digest}
use junca_social_ecosystem_c.ConsensusSync.Snapshot.{
  SnapshotDescriptor, SnapshotCatchup, CatchupResult, snapshot, max_chunk_bytes, hash_of,
  checkpoint_of, verify_chunks, verify, provisional, build_snapshot_descriptor,
}

-- The claim names the block and the state of a snapshot.
pub record Binds (chain_id height : ℕ) (block_hash state_root : Text) (finalized : FinalizedClaim)
    : Type 0 where
  pub chain : finalized.chain_id ≡ chain_id
  pub at : finalized.height ≡ height
  pub block : lower finalized.block_hash ≡ lower block_hash
  pub state : lower finalized.state_root ≡ lower state_root

module _ (platform : Platform) where
  hash_of-lower :
      ((b : Bytes) → lower (platform.sha256 b) ≡ platform.sha256 b)
      → (chunk : Bytes) → lower (hash_of platform chunk) ≡ hash_of platform chunk
  unfolding lower
  hash_of-lower lowercase chunk = ap (λ (s : Text). b'0' ∷ b'x' ∷ s) (lowercase chunk)

  checkpoint_of-lower :
      ((b : Bytes) → lower (platform.sha256 b) ≡ platform.sha256 b)
      → (d : SnapshotDescriptor) (chunks : List Bytes)
      → lower (checkpoint_of platform d chunks) ≡ checkpoint_of platform d chunks
  unfolding checkpoint_of
  checkpoint_of-lower lowercase d chunks = hash_of-lower lowercase _

  -- The digest does not depend on the field that holds it.
  checkpoint_of-digest :
      (d : SnapshotDescriptor) (value : Text) (chunks : List Bytes)
      → checkpoint_of platform (record d { checkpoint_digest = value }) chunks
        ≡ checkpoint_of platform d chunks
  unfolding checkpoint_of
  checkpoint_of-digest d value chunks = refl

  verify_chunks-built :
      ((b : Bytes) → lower (platform.sha256 b) ≡ platform.sha256 b)
      → (verified : ℕ) (chunks : List Bytes) → All (λ chunk. length chunk ≤ max_chunk_bytes) chunks
      → verify_chunks platform verified (map (hash_of platform) chunks) chunks
        ≡ ok (verified + sum_by length chunks)
  unfolding verify_chunks
  verify_chunks-built lowercase verified [] small = ap ok (omega arith)
  verify_chunks-built lowercase verified (chunk ∷ chunks) small = ground (
    arith,
    hash_of-lower lowercase chunk,
    beq_refl (hash_of platform chunk),
    verify_chunks-built lowercase (verified + length chunk) chunks small.1,
  )

  length-hashes : (chunks : List Bytes) → length (map (hash_of platform) chunks) ≡ length chunks
  length-hashes [] = refl
  length-hashes (chunk ∷ chunks) = omega (arith, length-hashes chunks)

  -- If digests are written in lower case, a descriptor that `build_snapshot_descriptor` returns
  -- verifies with its chunks, none of them oversized, against any finalized claim that names the
  -- same chain, height, block and state. All bytes of the chunks are counted.
  pub verify-build :
      (catchup : SnapshotCatchup) (height : ℕ) (block_hash state_root : Text) (chunks : List Bytes)
      (finalized : FinalizedClaim) {d : SnapshotDescriptor}
      → ((b : Bytes) → lower (platform.sha256 b) ≡ platform.sha256 b)
      → All (λ chunk. length chunk ≤ max_chunk_bytes) chunks
      → Binds catchup.chain_id height block_hash state_root finalized
      → build_snapshot_descriptor platform catchup.chain_id height block_hash state_root chunks
        ≡ ok d
      → verify platform catchup d chunks finalized
        ≡ ok (record {
          mode = snapshot;
          target_height = height;
          verified_bytes = sum_by length chunks;
        })
  unfolding build_snapshot_descriptor verify
  verify-build catchup height block_hash state_root chunks finalized {d} lowercase small binds h =
      let first = provisional platform catchup.chain_id height block_hash state_root chunks in
      let final : d ≡ record first { checkpoint_digest = checkpoint_of platform first chunks } =
        ground arith in
      let checkpoint = checkpoint_of platform first chunks in
      rw final (
        ground (
          arith,
          text_iff (lower block_hash) (lower finalized.block_hash),
          text_iff (lower state_root) (lower finalized.state_root),
          length-hashes chunks,
          verify_chunks-built lowercase 0 chunks small,
          checkpoint_of-lower lowercase first chunks,
          checkpoint_of-digest first checkpoint chunks,
          beq_refl checkpoint,
        ))

  verify_chunks_unique :
      ((a b : Bytes) → platform.sha256 a ≡ platform.sha256 b → a ≡ b)
      → (n m : ℕ) (hashes : List Text) (chunks others : List Bytes) {v w : ℕ}
      → length chunks ≡ length hashes
      → length others ≡ length hashes
      → verify_chunks platform n hashes chunks ≡ ok v
      → verify_chunks platform m hashes others ≡ ok w
      → chunks ≡ others
  unfolding verify_chunks
  verify_chunks_unique injective n m [] [] [] l k h h' = refl
  verify_chunks_unique injective n m [] (c ∷ cs) others l k h h' = absurd (omega arith)
  verify_chunks_unique injective n m [] [] (o ∷ os) l k h h' = absurd (omega arith)
  verify_chunks_unique injective n m (e ∷ es) [] others l k h h' = absurd (omega arith)
  verify_chunks_unique injective n m (e ∷ es) (c ∷ cs) [] l k h h' = absurd (omega arith)
  verify_chunks_unique injective n m (e ∷ es) (c ∷ cs) (o ∷ os) l k h h' =
      let (_, h1) = >>-eq-ok (raise_if (ltb max_chunk_bytes (length c)) bad_chunk) _ h in
      let (same, h2) =
        >>-eq-ok (raise_if (not (hash_of platform c =? lower e)) chunk_digest) _ h1 in
      let (_, k1) = >>-eq-ok (raise_if (ltb max_chunk_bytes (length o)) bad_chunk) _ h' in
      let (same', k2) =
        >>-eq-ok (raise_if (not (hash_of platform o =? lower e)) chunk_digest) _ k1 in
      let digests : platform.sha256 c ≡ platform.sha256 o =
        ground (
          arith,
          text_iff (hash_of platform c) (lower e),
          text_iff (hash_of platform o) (lower e),
        ) in
      ap₂ ◌∷◌ (injective c o digests) (
        verify_chunks_unique injective (n + length c) (m + length o) es cs os (omega arith)
          (omega arith) h2 k2)

  verify-chunks :
      (catchup : SnapshotCatchup) (d : SnapshotDescriptor) (chunks : List Bytes)
      (finalized : FinalizedClaim) {result : CatchupResult}
      → verify platform catchup d chunks finalized ≡ ok result
      → (verified : ℕ) × (verify_chunks platform 0 d.chunk_hashes chunks ≡ ok verified)
        × (length chunks ≡ length d.chunk_hashes)
  unfolding verify
  verify-chunks catchup d chunks finalized {result} h =
      (result.verified_bytes, ground arith, ground arith)

  -- If no two byte strings have one digest, a descriptor verifies with one list of chunks only.
  pub verify_unique :
      (catchup catchup' : SnapshotCatchup) (d : SnapshotDescriptor) (chunks others : List Bytes)
      (finalized finalized' : FinalizedClaim) {result result' : CatchupResult}
      → ((a b : Bytes) → platform.sha256 a ≡ platform.sha256 b → a ≡ b)
      → verify platform catchup d chunks finalized ≡ ok result
      → verify platform catchup' d others finalized' ≡ ok result'
      → chunks ≡ others
  verify_unique catchup catchup' d chunks others finalized finalized' injective h h' =
      let (_, v, l) = verify-chunks catchup d chunks finalized h in
      let (_, w, k) = verify-chunks catchup' d others finalized' h' in
      verify_chunks_unique injective 0 0 d.chunk_hashes chunks others l k v w
