-- ===== src/RelayerJournal.antt =====
-- jaios/social_ecosystem_chain/relayer_journal.py: the bridge relayer's queue of messages, with
-- leases and a chained audit log.
pub mod Types
pub mod Queue
mod Tests
