-- ===== src/BridgeProtocol.antt =====
-- jaios/social_ecosystem_chain/bridge_protocol.py: the bridge message state machine.
pub mod Types
pub mod Engine
mod Tests
