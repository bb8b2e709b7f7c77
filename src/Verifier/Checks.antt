-- ===== src/Verifier/Checks.antt =====
-- bee_verifier/src/verifier.rs and error.rs: the check of a Merkle proof and of the leaves' work.
-- The texts of the errors are left out; the code and the number that goes with it are kept.
use bee_engine.Base.{
  ℕ, suc, ◌≡◌, ◌↔◌, refl, Bool, true, false, not, ◌&&◌, List, [], ◌∷◌, Option, some, Result, ok,
  err, ◌>>=◌, ◌>>◌, fail_if, ok_or, ◌==◌, if◌then◌else◌, arith,
}
use bee_engine.Base.Bytes.{Bytes, le_bytes, bytes_eq}
use bee_engine.Base.Lists.{length, is_empty, all, All, all-of_All}
use bee_engine.Shared.Leaf.{Primitives, ComputedLeaf, verify}
use bee_engine.Shared.Request.{DecodeError}
use bee_engine.Miner.Merkle.{MerkleTree}

pub data LibErrorCode : Type 0 where
  deserialize_request check_root deserialize_proof build_merkle_proof check_leaf : LibErrorCode
  get_first_hard_leaf get_last_hard_leaf : LibErrorCode

-- The discriminants of the `repr(u16)` enum.
abbrev pub code_number : LibErrorCode → ℕ
code_number deserialize_request = 100
code_number check_root = 200
code_number deserialize_proof = 300
code_number build_merkle_proof = 301
code_number check_leaf = 302
code_number get_first_hard_leaf = 303
code_number get_last_hard_leaf = 304

pub data Message : Type 0 where
  request_message : DecodeError → Message
  proof_build_failure root_bytes_to_slice : Message
  leaf_bytes_to_slice : ℕ → Message

pub record LibError : Type 0 where
  pub code : LibErrorCode
  pub message : Option Message

-- `impl From<LibError> for Vec<u8>`
unfoldable pub error_bytes : LibError → Bytes
error_bytes e = 0 ∷ 0 ∷ le_bytes 4 (code_number e.code)

pub record ParamsOfValidateProof : Type 0 where
  pub root : Bytes
  pub proof : Bytes
  pub leaves_count : ℕ
  pub leaves_chunk : List Bytes
  pub leaves_indices : List ℕ

pub record ParamsOfValidateLeaves : Type 0 where
  pub seed : Bytes
  pub complexity : ℕ
  pub leaves : List ComputedLeaf

-- Each leaf converts into `[u8; 32]`, or the first that does not is reported with its position.
unfoldable pub convert_leaves : ℕ → List Bytes → Result LibError (List Bytes)
convert_leaves i [] = ok []
convert_leaves i (l ∷ ls) =
    let rest = convert_leaves (suc i) ls in
    if length l == 32
    then (rest >>= λ converted. ok (l ∷ converted))
    else err (record { code = check_leaf; message = some (leaf_bytes_to_slice i) })

-- `req.leaves_chunk.len() == 1` and its comparison with the root
unfoldable pub lone_leaf : List Bytes → Bytes → Bool
lone_leaf [] root = false
lone_leaf (l ∷ []) root = bytes_eq l root
lone_leaf (l ∷ k ∷ ls) root = false

module _ (m : MerkleTree) where
  unfoldable pub check_proof : ParamsOfValidateProof → Result LibError Bool
  check_proof req = do
    proof ←
        ok_or (m.parse_proof req.proof)
          (record { code = build_merkle_proof; message = some proof_build_failure })
    fail_if (not (length req.root == 32))
        (record { code = check_root; message = some root_bytes_to_slice })
    leaves ← convert_leaves 0 req.leaves_chunk
    ok (m.verify proof req.root req.leaves_indices leaves req.leaves_count)

  unfoldable pub validate_proof : ParamsOfValidateProof → Result LibError Bool
  validate_proof req =
      if is_empty req.proof then ok (lone_leaf req.leaves_chunk req.root) else check_proof req

unfoldable pub validate_leaves : Primitives → ParamsOfValidateLeaves → Bool
validate_leaves c p = not (is_empty p.leaves) && all (λ l. verify c l p.seed p.complexity) p.leaves

-- Leaves of 32 bytes convert to themselves.
pub convert_leaves_lem :
    (i : ℕ) (ls : List Bytes) → All (λ l. length l ≡ 32) ls → convert_leaves i ls ≡ ok ls
unfolding convert_leaves
convert_leaves_lem i [] h = refl
convert_leaves_lem i (l ∷ ls) h = ground (arith, convert_leaves_lem (suc i) ls h.1)

All-of_all :
    (c : Primitives) (seed : Bytes) (complexity : ℕ) (ls : List ComputedLeaf)
    → all (λ l. verify c l seed complexity) ls ≡ true
    → All (λ l. verify c l seed complexity ≡ true) ls
All-of_all c seed complexity [] h = tt
All-of_all c seed complexity (l ∷ ls) h =
    (ground arith, All-of_all c seed complexity ls (ground arith))

-- Leaves are valid exactly when there is one and each of them passes its own check.
pub validate_leaves_iff :
    (c : Primitives) (p : ParamsOfValidateLeaves)
    → (validate_leaves c p ≡ true)
      ↔ ((is_empty p.leaves ≡ false) × All (λ l. verify c l p.seed p.complexity ≡ true) p.leaves)
unfolding validate_leaves
validate_leaves_iff c p = (
  λ h. (ground arith, All-of_all c p.seed p.complexity p.leaves (ground arith)),
  λ h. ground (arith, all-of_All (λ l. verify c l p.seed p.complexity) p.leaves h.1),
)
