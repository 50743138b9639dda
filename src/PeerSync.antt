-- ===== src/PeerSync.antt =====
-- jaios/social_ecosystem_chain/peer_sync.py: peers, the import of a finalized block, and what a
-- restart finds of an import that was cut off.
pub mod Registry
pub mod Journal
pub mod Importer
pub mod Recovery
pub mod Aftermath
pub mod Crash
pub mod Stuck
pub mod Source
mod Tests
