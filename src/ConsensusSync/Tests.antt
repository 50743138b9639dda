-- ===== src/ConsensusSync/Tests.antt =====
-- Runs of the fork choice and of snapshots on small inputs, and the theorems at them.
use junca_social_ecosystem_c.Common.{
  ℕ, ◌+◌, ◌≡◌, ◌≢◌, refl, false, none, some, List, [], ◌∷◌, map, arith, ok, Text, Bytes, codes,
  lower, Platform, lookup, nat_eq, list_eq, ap₂, sum_by, length, starts_with, parses_hex, decimal,
  join, ne_of_beq,
}
use junca_social_ecosystem_c.Samples.{sample_hash, or_else, sample_dumps}
use junca_social_ecosystem_c.ConsensusSync.Types.{FinalizedClaim, is_hash}
use junca_social_ecosystem_c.ConsensusSync.ForkChoice.{
  ForkChoice, is_halted, below, accept, judge, observe, head_of, max_height, record_protocol_fault,
}
use junca_social_ecosystem_c.ConsensusSync.ForkChoice.Canonical.{
  Keeps, observes, faults_at, run, step, run-Keeps, accepted_agree,
}
use junca_social_ecosystem_c.ConsensusSync.ForkChoice.Linkage.{FillsGap, observe_unlinked}
use junca_social_ecosystem_c.ConsensusSync.Snapshot.{
  SnapshotDescriptor, SnapshotCatchup, snapshot, hash_of, checkpoint_of, concat, verify_chunks,
  verify, build_snapshot_descriptor, check_descriptor,
}
use junca_social_ecosystem_c.ConsensusSync.Snapshot.RoundTrip.{verify-build}

abbrev other_hash : Text
other_hash = codes "0x00000000000000000000000000000000000000000000000000000000000000d4"

abbrev claim : FinalizedClaim
claim = record {
  peer_id = codes "p";
  chain_id = 7;
  genesis_hash = sample_hash;
  height = 4;
  block_hash = sample_hash;
  parent_hash = other_hash;
  state_root = sample_hash;
  signed_power = 3;
  total_power = 4;
}

abbrev child : FinalizedClaim
child = record claim {
  peer_id = codes "q";
  height = 5;
  block_hash = other_hash;
  parent_hash = other_hash;
}

abbrev fresh : ForkChoice
fresh = record {
  chain_id = 7;
  genesis_hash = sample_hash;
  quarantine_threshold = 3;
  claims = [];
  canonical = [];
  disciplines = [];
  safety_halt = none;
}

abbrev power : ℕ → ℕ
power height = 4

-- What a run computes through.
opened : Unit {0}
unfolding observe judge below accept head_of max_height record_protocol_fault step run lower
    starts_with parses_hex is_hash concat verify_chunks verify checkpoint_of decimal join
    check_descriptor build_snapshot_descriptor
opened = tt

abbrev after_child : ForkChoice
unfolding opened
after_child = (observe power child fresh).1

run-Keeps_example :
    Keeps after_child (run after_child (observes power claim ∷ faults_at (codes "p") ∷ []))
run-Keeps_example = run-Keeps after_child (observes power claim ∷ faults_at (codes "p") ∷ [])

first_accepted : (observe power claim fresh).0 ≡ ok (some claim)
unfolding opened
first_accepted = refl

abbrev same_block : FinalizedClaim
same_block = record claim { peer_id = codes "r" }

later_accepted :
    (observe power same_block (run (observe power claim fresh).1 (faults_at (codes "r") ∷ []))).0
    ≡ ok (some claim)
unfolding opened
later_accepted = refl

accepted_agree_example : lower sample_hash ≡ lower sample_hash
accepted_agree_example =
    accepted_agree fresh claim same_block (faults_at (codes "r") ∷ []) power power first_accepted
      refl later_accepted

gap : FillsGap power after_child claim child
unfolding opened
gap = record {
  running = refl;
  chain = refl;
  genesis = refl;
  power = refl;
  positive = omega arith;
  trusted = refl;
  new_peer = refl;
  open_height = refl;
  no_parent = refl;
  above = refl;
}

no_parent : lower other_hash ≢ lower sample_hash
unfolding opened
no_parent = ne_of_beq (lower other_hash) (lower sample_hash) refl

observe_unlinked_example :
    let (outcome, f') = observe power claim after_child in
    (outcome ≡ ok (head_of f'.canonical))
    × (is_halted f' ≡ false)
    × (c : FinalizedClaim) × (lookup 4 f'.canonical ≡ some c)
    × (lookup 5 f'.canonical ≡ some child)
    × (lower other_hash ≢ lower c.block_hash)
observe_unlinked_example = observe_unlinked power after_child claim child gap no_parent

abbrev catchup : SnapshotCatchup
catchup = record { chain_id = 7; threshold = 2048 }

abbrev chunks : List Bytes
chunks = (1 ∷ 2 ∷ []) ∷ (3 ∷ []) ∷ []

-- A digest that is always the same 64 digits.
abbrev constant_platform : Platform
constant_platform = record {
  dumps = sample_dumps;
  sha256 = λ b. codes "00000000000000000000000000000000000000000000000000000000000000e5";
}

constant_lowercase : (b : Bytes) → lower (constant_platform.sha256 b) ≡ constant_platform.sha256 b
unfolding lower
constant_lowercase b = refl

abbrev no_snapshot : SnapshotDescriptor
no_snapshot = record {
  chain_id = 0;
  height = 0;
  block_hash = [];
  state_root = [];
  checkpoint_digest = [];
  chunk_hashes = [];
}

abbrev built : SnapshotDescriptor
unfolding opened
built =
    or_else no_snapshot
      (build_snapshot_descriptor constant_platform 7 4 sample_hash sample_hash chunks)

building : build_snapshot_descriptor constant_platform 7 4 sample_hash sample_hash chunks ≡ ok built
unfolding opened
building = refl

verify-build_example :
    verify constant_platform catchup built chunks claim
    ≡ ok (record { mode = snapshot; target_height = 4; verified_bytes = sum_by length chunks })
verify-build_example =
    verify-build constant_platform catchup 4 sample_hash sample_hash chunks claim constant_lowercase
      (omega arith, (omega arith, tt))
      (record { chain = refl; at = refl; block = refl; state = refl }) building

-- A digest that tells all byte strings apart.
shift : Bytes → Bytes
shift [] = []
shift (b ∷ bs) = (b + 128) ∷ shift bs

shift_injective : (a b : Bytes) → shift a ≡ shift b → a ≡ b
unfolding shift
shift_injective [] [] h = refl
shift_injective [] (b ∷ bs) h = cc
shift_injective (a ∷ rest) [] h = cc
shift_injective (a ∷ rest) (b ∷ bs) h = ap₂ ◌∷◌ (ground arith) (shift_injective rest bs (cc))

abbrev shifting : Platform
shifting = record { dumps = sample_dumps; sha256 = shift }

abbrev shifted : SnapshotDescriptor
unfolding opened shift
shifted =
    let first : SnapshotDescriptor = record built {
      chunk_hashes = map (hash_of shifting) chunks;
    } in
    record first { checkpoint_digest = checkpoint_of shifting first chunks }

shifted_verifies :
    verify shifting catchup shifted chunks claim
    ≡ ok (record { mode = snapshot; target_height = 4; verified_bytes = 3 })
unfolding opened shift
shifted_verifies = refl
