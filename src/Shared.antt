-- ===== src/Shared.antt =====
-- The types that the miner and the verifier share (bee_shared).
pub mod Leaf
pub mod Request
