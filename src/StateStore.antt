-- ===== src/StateStore.antt =====
-- jaios/social_ecosystem_chain/state_store.py: the SQLite store of finalized blocks, with an
-- account snapshot at each of them, and checkpoints.
pub mod Types
pub mod Store
pub mod Integrity
pub mod Checkpoint
pub mod Accounts
pub mod Chain
pub mod Inserted
pub mod Growth
pub mod Outcome
pub mod Opening
pub mod Rows
pub mod History
pub mod Preserved
pub mod Heads
pub mod Exported
pub mod RoundTrip
pub mod Tables
pub mod Conditions
pub mod Accepts
pub mod Codec
pub mod Certificate
mod Tests
