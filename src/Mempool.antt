-- ===== src/Mempool.antt =====
-- jaios/social_ecosystem_chain/mempool.py: the transaction pool and block candidates.
pub mod Types
pub mod Pool
pub mod Candidate
pub mod Snapshot
mod Tests
