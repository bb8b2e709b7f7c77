-- ===== src/Verifier/Handler/Unbound.antt =====
-- The data of the leaves is not compared with the hashes of the leaves.
use bee_engine.Base.{ℕ, ◌≡◌, true, List, Option}
use bee_engine.Base.Bytes.{Bytes}
use bee_engine.Shared.Leaf.{Primitives, ComputedLeaf}
use bee_engine.Shared.Request.{SessionSubmit, SessionProof, PartialVerifySession}
use bee_engine.Miner.Merkle.{MerkleTree}
use bee_engine.Verifier.Checks.{validate_leaves}
use bee_engine.Verifier.Handler.{verify_proof_and_leaves}

module _ (c : Primitives) (m : MerkleTree) (borsh : Bytes → Option PartialVerifySession) where
  -- The check of a proof does not tie the data of the leaves to the tree: any data whose leaves carry
  -- their work may stand in the place of any other, whatever hashes the Merkle proof is about.
  pub leaves_data_unbound :
      (seed : Bytes) (complexity : ℕ) (interval : ℕ × ℕ) (s : SessionSubmit) (p : SessionProof)
      (forged : List ComputedLeaf)
      → validate_leaves c (record { seed = seed; complexity = complexity; leaves = p.leaves_data })
        ≡ true
      → validate_leaves c (record { seed = seed; complexity = complexity; leaves = forged }) ≡ true
      → verify_proof_and_leaves c m borsh seed complexity interval s
          (record p { leaves_data = forged })
        ≡ verify_proof_and_leaves c m borsh seed complexity interval s p
  unfolding verify_proof_and_leaves
  leaves_data_unbound seed complexity interval s p forged honest other = rw (honest, other)
