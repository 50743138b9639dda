-- ===== src/ProtocolKernel.antt =====
-- jaios/social_ecosystem_chain/protocol_kernel.py: the account-state transition kernel.
pub mod Types
pub mod BaseFee
pub mod Execution
mod Tests
