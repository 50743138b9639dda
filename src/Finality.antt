-- ===== src/Finality.antt =====
-- jaios/social_ecosystem_chain/finality.py: the finality state machine.
pub mod Types
pub mod Machine
mod Tests
