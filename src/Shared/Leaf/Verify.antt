-- ===== src/Shared/Leaf/Verify.antt =====
-- What a leaf has to satisfy to be accepted, and that a computed one under the threshold does.
use bee_engine.Base.{ℕ, ◌/◌, ◌^◌, ◌<◌, ◌≡◌, refl, ◌↔◌, true, arith}
use bee_engine.Base.Bytes.{Bytes, bytes_eq_iff}
use bee_engine.Base.Lists.{length}
use bee_engine.Shared.Leaf.{
  Primitives, Leaf, ComputedLeaf, u128_max, to_leaf, preimage, compute, hash_num, verify,
  merkle_hash,
}

module _ (c : Primitives) where
  -- A leaf is accepted for a seed and a complexity exactly when it carries both, the complexity is
  -- below 128, the hash is the one of its own fields, and the hash is below the threshold.
  pub verify_iff :
      (l : ComputedLeaf) (seed : Bytes) (complexity : ℕ)
      → (verify c l seed complexity ≡ true) ↔ (
          (l.seed ≡ seed)
          × (l.complexity ≡ complexity)
          × (complexity < 128)
          × (l.hash ≡ c.blake3 (preimage (to_leaf l)))
          × (hash_num l < u128_max / 2 ^ complexity))
  unfolding verify compute
  verify_iff l seed complexity = (
    λ h.
        ground
          (arith, bytes_eq_iff l.seed seed, bytes_eq_iff l.hash (c.blake3 (preimage (to_leaf l)))),
    λ h.
        ground
          (arith, bytes_eq_iff l.seed seed, bytes_eq_iff l.hash (c.blake3 (preimage (to_leaf l)))),
  )

  pub length-merkle_hash : (l : ComputedLeaf) → length (merkle_hash c l) ≡ 32
  unfolding merkle_hash
  length-merkle_hash l = c.length-blake3 _

  -- The hash that `compute` attaches passes the check as soon as it is under the threshold.
  pub compute-verify :
      (l : Leaf)
      → l.complexity < 128
      → hash_num (compute c l) < u128_max / 2 ^ l.complexity
      → verify c (compute c l) l.seed l.complexity ≡ true
  unfolding compute
  compute-verify l small h =
      (verify_iff (compute c l) l.seed l.complexity).1 (refl, refl, small, refl, h)
