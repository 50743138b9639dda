-- ===== src/NodePipeline.antt =====
-- jaios/social_ecosystem_chain/node_pipeline.py: from the mempool to a finalized block.
pub mod Pipeline
pub mod Kernel
pub mod Replay
pub mod Executed
pub mod Commits
pub mod Leaves
pub mod Sample
mod Tests
mod RestartTests
