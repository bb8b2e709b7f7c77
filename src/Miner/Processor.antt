-- ===== src/Miner/Processor.antt =====
-- bee_miner/src/core/processor.rs: the search for a nonce.
-- `loop` takes fuel; `none` means that it ran out. As in a release build, the shift by the
-- complexity is masked to 7 bits and the nonce wraps.
use bee_engine.Base.{
  ℕ, zero, suc, ◌+◌, ◌/◌, ◌%◌, ◌^◌, ◌<◌, ◌≡◌, refl, Bool, true, false, Option, none, some, ltb,
  if◌then◌else◌, arith, Bool-cases, inl, inr, Option-cases, ◌∙◌, ap,
}
use bee_engine.Base.Bytes.{Bytes}
use bee_engine.Shared.Leaf.{Primitives, Leaf, ComputedLeaf, u128_max, compute, hash_num}
use bee_engine.Miner.Merkle.{MerkleTree, add_leaf}

pub record ParamsOfCalcHash : Type 0 where
  pub seed : Bytes
  pub idx : ℕ
  pub x : ℕ
  pub y : ℕ
  pub timestamp : ℕ
  pub complexity : ℕ

abbrev pub with_nonce : ParamsOfCalcHash → ℕ → Leaf
with_nonce p nonce = record {
  index = p.idx;
  nonce = nonce;
  seed = p.seed;
  x = p.x;
  y = p.y;
  timestamp = p.timestamp;
  complexity = p.complexity;
}

-- `u128::MAX >> complexity`
abbrev pub threshold : ℕ → ℕ
threshold complexity = u128_max / 2 ^ (complexity % 128)

module _ (c : Primitives) where
  -- Whether a nonce solves the puzzle.
  unfoldable pub solves : ParamsOfCalcHash → ℕ → Bool
  solves p nonce = ltb (hash_num (compute c (with_nonce p nonce))) (threshold p.complexity)

  unfoldable pub search_nonce : ℕ → ℕ → ParamsOfCalcHash → Option ComputedLeaf
  search_nonce zero nonce p = none
  search_nonce (suc fuel) nonce p =
      let rest = search_nonce fuel ((nonce + 1) % 2 ^ 64) p in
      if solves p nonce then some (compute c (with_nonce p nonce)) else rest

  -- What the search returns is the computed leaf of some nonce that solves the puzzle.
  pub search_nonce_sound :
      (fuel nonce : ℕ) (p : ParamsOfCalcHash) (l : ComputedLeaf)
      → search_nonce fuel nonce p ≡ some l
      → (n : ℕ) × (l ≡ compute c (with_nonce p n)) × (solves p n ≡ true)
  unfolding search_nonce
  search_nonce_sound zero nonce p l h = cc
  search_nonce_sound (suc fuel) nonce p l h = elim (Bool-cases (solves p nonce)) [
    | inl hit ↦ (nonce, ground arith, hit)
    | inr miss ↦ search_nonce_sound fuel ((nonce + 1) % 2 ^ 64) p l (ground arith)
  ]

  -- The search from `nonce` stops at the first nonce that solves the puzzle, here `distance` further
  -- on, with fuel for one more round than that.
  pub search_nonce_complete :
      (distance nonce : ℕ) (p : ParamsOfCalcHash)
      → nonce + distance < 2 ^ 64
      → ((k : ℕ) → k < distance → solves p (nonce + k) ≡ false)
      → solves p (nonce + distance) ≡ true
      → search_nonce (suc distance) nonce p ≡ some (compute c (with_nonce p (nonce + distance)))
  unfolding search_nonce
  search_nonce_complete zero nonce p small misses hit =
      let same : nonce + 0 ≡ nonce = omega arith in
      let found : solves p nonce ≡ true = rw same at hit in rw (same, found) refl
  search_nonce_complete (suc distance) nonce p small misses hit =
      let here : nonce + 0 ≡ nonce = omega arith in
      let next : (nonce + 1) % 2 ^ 64 ≡ nonce + 1 = omega arith in
      let far : nonce + suc distance ≡ nonce + 1 + distance = omega arith in
      let miss : solves p nonce ≡ false = rw here at (misses 0 (omega arith)) in
      rw (miss, next, far)
        (search_nonce_complete distance (nonce + 1) p (omega arith)
          (λ k lt.
            let e : nonce + suc k ≡ nonce + 1 + k = omega arith in
            rw e at (misses (suc k) (omega arith)))
          (rw far at hit))

  module _ (m : MerkleTree) where
    open m use {Tree}

    -- `MiningProcessor::calc_hash_blake`: the leaf found, and the tree with it.
    unfoldable pub calc_hash_blake : ℕ → Tree → ParamsOfCalcHash → Option (ComputedLeaf × Tree)
    calc_hash_blake fuel t p = elim (search_nonce fuel 0 p) [
      | none ↦ none
      | some l ↦ some (l, add_leaf c m t l)
    ]

    -- A leaf that comes with a tree is the computed leaf of a solution, and the tree has it added.
    pub calc_hash_blake_sound :
        (fuel : ℕ) (t : Tree) (p : ParamsOfCalcHash) (l : ComputedLeaf) (t' : Tree)
        → calc_hash_blake fuel t p ≡ some (l, t')
        → (n : ℕ) × (l ≡ compute c (with_nonce p n)) × (solves p n ≡ true) × (t' ≡ add_leaf c m t l)
    unfolding calc_hash_blake
    calc_hash_blake_sound fuel t p l t' h = elim (Option-cases (search_nonce fuel 0 p)) [
      | inl dry ↦ absurd (ground arith)
      | inr (l', e) ↦
          let same : l' ≡ l = ground arith in
          let (n, computed, hit) = search_nonce_sound fuel 0 p l (e ∙ ap some same) in
          (n, computed, hit, ground arith)
    ]
