-- ===== src/Miner/Merkle.antt =====
-- bee_miner/src/core/merkle.rs: `MerkleProcessor` over the tree of the crate rs_merkle.
use bee_engine.Base.{
  ℕ, ◌+◌, ◌-◌, ◌≤◌, ◌<◌, ◌≡◌, Bool, true, ◌||◌, List, [], ◌∷◌, ◌++◌, Option, none, some, Result, ok,
  err, ltb, leb, if◌then◌else◌,
}
use bee_engine.Base.Bytes.{Bytes}
use bee_engine.Base.Lists.{length, slice, range}
use bee_engine.Shared.Leaf.{Primitives, ComputedLeaf, merkle_hash}

abbrev pub some_nonempty {ℓ} : {A : Type ℓ} → List A → Option (List A)
some_nonempty [] = none
some_nonempty (x ∷ xs) = some (x ∷ xs)

-- `MerkleTree<Blake3Hasher>` and `MerkleProof<Blake3Hasher>`. `proof` is `.proof(..).to_bytes()`
-- and `parse_proof` is `from_bytes(..).ok()`. The laws are what the crate documents: inserted
-- leaves wait until `commit`, the getters see committed leaves only, and a proof that the tree
-- makes for a window of its leaves verifies against its root.
pub record MerkleTree : Type 1 where
  pub Tree : Type 0
  pub Proof : Type 0
  pub new : Tree
  pub insert : Tree → Bytes → Tree
  pub commit : Tree → Tree
  pub root : Tree → Option Bytes
  pub leaves : Tree → Option (List Bytes)
  pub proof : Tree → List ℕ → Bytes
  pub parse_proof : Bytes → Option Proof
  pub verify : Proof → Bytes → List ℕ → List Bytes → ℕ → Bool
  pub committed : Tree → List Bytes
  pub pending : Tree → List Bytes
  pub new_lists : (committed new ≡ []) × (pending new ≡ [])
  pub insert_lists :
      (t : Tree) (h : Bytes)
      → (committed (insert t h) ≡ committed t) × (pending (insert t h) ≡ pending t ++ h ∷ [])
  pub commit_lists :
      (t : Tree) → (committed (commit t) ≡ committed t ++ pending t) × (pending (commit t) ≡ [])
  pub leaves_lem : (t : Tree) → leaves t ≡ some_nonempty (committed t)
  pub root_lem :
      (t : Tree) → 0 < length (committed t) → (r : Bytes) × (root t ≡ some r) × (length r ≡ 32)
  pub proof-verify :
      (t : Tree) (start n : ℕ) (r : Bytes)
      → root t ≡ some r
      → 0 < n
      → start + n ≤ length (committed t)
      → (p : Proof) × (parse_proof (proof t (range start n)) ≡ some p)
        × (verify p r (range start n) (slice start (start + n) (committed t)) (length (committed t))
            ≡ true)

pub data WindowError : Type 0 where
  invalid_window_range : WindowError

module _ (c : Primitives) (m : MerkleTree) where
  open m use {Tree, insert, root, leaves, proof}

  unfoldable pub add_leaf : Tree → ComputedLeaf → Tree
  add_leaf t l = insert t (merkle_hash c l)

  unfoldable pub get_merkle_root : Tree → Bytes
  get_merkle_root t = elim (root t) [ none ↦ [] | some r ↦ r ]

  unfoldable pub get_merkle_leaves : Tree → List Bytes
  get_merkle_leaves t = elim (leaves t) [ none ↦ [] | some ls ↦ ls ]

  unfoldable pub get_proof_in_window : Tree → ℕ → ℕ → Result WindowError (Bytes × List Bytes)
  get_proof_in_window t start_index end_index =
      let ls = get_merkle_leaves t in
      if leb end_index start_index || ltb (length ls) end_index
      then err invalid_window_range
      else ok
          (proof t (range start_index (end_index - start_index)), slice start_index end_index ls)

  -- The getter sees exactly the committed leaves.
  pub get_merkle_leaves_lem : (t : Tree) → get_merkle_leaves t ≡ m.committed t
  unfolding get_merkle_leaves
  get_merkle_leaves_lem t = rw (m.leaves_lem t, get_merkle_leaves) (shown (m.committed t))
    where
      shown : (ls : List Bytes) → elim (some_nonempty ls) [ none ↦ [] | some xs ↦ xs ] ≡ ls
      shown [] = λ i. []
      shown (x ∷ xs) = λ i. x ∷ xs
