-- ===== src/ConsensusSync.antt =====
-- jaios/social_ecosystem_chain/consensus_sync.py: fork choice among finalized claims, and
-- snapshots checked against a finalized claim.
pub mod Types
pub mod ForkChoice
pub mod Snapshot
mod Tests
