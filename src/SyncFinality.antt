-- ===== src/SyncFinality.antt =====
-- jaios/social_ecosystem_chain/sync_finality.py: the schedule of validator sets, and the finality
-- proofs that a node which synchronizes verifies against it.
pub mod Schedule
pub mod Verifier
mod Members
pub mod Activation
pub mod Ballots
pub mod Vetted
pub mod Certified
pub mod Payload
mod Tests
