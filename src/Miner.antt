-- ===== src/Miner.antt =====
-- The miner (bee_miner): a session's leaves, their Merkle tree, and the choice of difficulty.
pub mod Merkle
pub mod Processor
pub mod Context
pub mod Complexity
pub mod Submission
pub mod Front
