-- ===== src/Tests/Toy.antt =====
-- Toy instances of the crates that the models take as parameters.
use bee_engine.Base.{◌<◌, ◌≡◌, refl, true, List, [], ◌∷◌, ◌++◌, Option, none, some, arith}
use bee_engine.Base.Bytes.{Bytes}
use bee_engine.Base.Lists.{length, replicate}
use bee_engine.Shared.Leaf.{Primitives}
use bee_engine.Miner.Merkle.{MerkleTree, some_nonempty}

abbrev pub zeros : Bytes
zeros = replicate 32 0

-- A hash that is always zero, so that the first nonce solves every puzzle.
abbrev pub toy : Primitives
toy = record { blake3 = λ _. zeros; hex_encode = λ bytes. bytes; length-blake3 = λ _. refl }

abbrev pub Lists : Type 0
Lists = List Bytes × List Bytes

abbrev pub root_of : List Bytes → Option Bytes
root_of [] = none
root_of (x ∷ xs) = some zeros

pub root_of_lem :
    (ls : List Bytes) → 0 < length ls → (r : Bytes) × (root_of ls ≡ some r) × (length r ≡ 32)
root_of_lem [] h = absurd (omega arith)
root_of_lem (x ∷ xs) h = (zeros, refl, refl)

-- A tree that keeps its leaves in two lists and whose proofs are one byte.
abbrev pub toy_tree : MerkleTree
toy_tree = record {
  Tree = Lists;
  Proof = Bytes;
  new = ([], []);
  insert = λ t h. (t.0, t.1 ++ h ∷ []);
  commit = λ t. (t.0 ++ t.1, []);
  root = λ t. root_of t.0;
  leaves = λ t. some_nonempty t.0;
  proof = λ t is. 1 ∷ [];
  parse_proof = λ bytes. some bytes;
  verify = λ p r is ls n. true;
  committed = λ t. t.0;
  pending = λ t. t.1;
  new_lists = (refl, refl);
  insert_lists = λ t h. (refl, refl);
  commit_lists = λ t. (refl, refl);
  leaves_lem = λ t. refl;
  root_lem = λ t h. root_of_lem t.0 h;
  proof-verify = λ t start n r e p q. (1 ∷ [], refl, refl);
}
