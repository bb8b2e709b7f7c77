-- ===== src/Verifier/Handler.antt =====
-- bee_verifier/src/lib.rs: `VerifierGuest::verify`, compiled to WebAssembly with 32-bit `usize`.
-- Subtractions wrap, as in a release build.
pub mod Verdict
pub mod Unbound
pub mod Mined
pub mod Ends
pub mod Session
use bee_engine.Base.{
  ℕ, ◌+◌, ◌-◌, ◌/◌, ◌%◌, ◌^◌, ◌≡◌, Bool, true, false, ◌&&◌, List, [], ◌∷◌, ◌++◌, Option, none, some,
  Result, ok, err, ◌>>=◌, map_err, ok_or, if◌then◌else◌,
}
use bee_engine.Base.Bytes.{Bytes, le_bytes}
use bee_engine.Base.Lists.{length, range, first, last}
use bee_engine.Shared.Leaf.{Primitives, ComputedLeaf}
use bee_engine.Shared.Request.{
  SessionSubmit, SessionProof, PartialVerifySession, ParamsOfVerifySession, DecodeError, try_from,
}
use bee_engine.Miner.Merkle.{MerkleTree}
use bee_engine.Verifier.Checks.{
  LibError, LibErrorCode, deserialize_request, get_first_hard_leaf, get_last_hard_leaf,
  request_message, error_bytes, validate_proof, validate_leaves,
}

-- `as usize` and `as u32`
abbrev pub as_u32 : ℕ → ℕ
as_u32 n = n % 2 ^ 32

-- `a - b` on u64
abbrev pub sub_u64 : ℕ → ℕ → ℕ
sub_u64 a b = (a + 2 ^ 64 - b) % 2 ^ 64

abbrev bit : Bool → ℕ
bit true = 1
bit false = 0

-- `start..end` over `usize`
abbrev pub indices : ℕ × ℕ → List ℕ
indices (start, end) = range (as_u32 start) (as_u32 end - as_u32 start)

-- The blocks of hard computation, from the times of the first and of the last leaf given.
unfoldable pub computation_blocks : ComputedLeaf → ComputedLeaf → ℕ
computation_blocks first_leaf last_leaf =
    as_u32 (sub_u64 last_leaf.timestamp first_leaf.timestamp / 330)

-- The six bytes of a verdict.
unfoldable pub verdict_bytes : Bool → ℕ → Bytes
verdict_bytes valid blocks = 1 ∷ bit valid ∷ le_bytes 4 blocks

module _ (c : Primitives) (m : MerkleTree) (borsh : Bytes → Option PartialVerifySession) where
  unfoldable pub verify_proof_and_leaves :
      Bytes → ℕ → ℕ × ℕ → SessionSubmit → SessionProof → Result LibError Bool
  verify_proof_and_leaves seed complexity interval submit_params proof_params = do
    valid_proof ← validate_proof m (record {
      root = submit_params.root;
      proof = proof_params.proof;
      leaves_count = as_u32 submit_params.leaves_count;
      leaves_chunk = proof_params.leaves_tree;
      leaves_indices = indices interval;
    })
    let valid_leaves =
        validate_leaves c
          (record { seed = seed; complexity = complexity; leaves = proof_params.leaves_data })
    ok (valid_proof && valid_leaves)

  -- The handler behind its decoding. An early return of the source is an `err` here.
  unfoldable pub verify_params : ParamsOfVerifySession → Result LibError Bytes
  verify_params p = do
    easy_valid ←
        verify_proof_and_leaves p.seed p.easy_complexity
          (p.easy_interval_start, p.easy_interval_end) p.easy_submit_params p.easy_proof_params
    hard_first_valid ←
        verify_proof_and_leaves p.seed p.hard_complexity (0, 1) p.hard_submit_params
          p.hard_first_proof_params
    hard_range_valid ←
        verify_proof_and_leaves p.seed p.hard_complexity
          (p.hard_interval_start, p.hard_interval_end) p.hard_submit_params
          p.hard_range_proof_params
    hard_last_valid ←
        verify_proof_and_leaves p.seed p.hard_complexity
          (sub_u64 p.hard_submit_params.leaves_count 1, p.hard_submit_params.leaves_count)
          p.hard_submit_params p.hard_last_proof_params
    first_leaf ←
        ok_or (first p.hard_first_proof_params.leaves_data)
          (record { code = get_first_hard_leaf; message = none })
    last_leaf ←
        ok_or (last p.hard_last_proof_params.leaves_data)
          (record { code = get_last_hard_leaf; message = none })
    ok (
        verdict_bytes (easy_valid && hard_first_valid && hard_range_valid && hard_last_valid)
          (computation_blocks first_leaf last_leaf))

  -- Decoding first; its error is reported as `DeserializeRequest`.
  unfoldable pub verify_request : Bytes → Result LibError Bytes
  verify_request req = do
    params ←
        map_err (λ e. record { code = deserialize_request; message = some (request_message e) })
          (try_from c borsh req)
    verify_params params

  -- `VerifierGuest::verify`
  unfoldable pub verify : Bytes → Bytes
  verify req = elim (verify_request req) [ ok answer ↦ answer | err e ↦ error_bytes e ]
