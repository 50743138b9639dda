-- ===== src/ConsensusSigningJournal.antt =====
-- jaios/social_ecosystem_chain/consensus_signing_journal.py: the anti-double-signing journal.
pub mod Journal
mod Tests
