-- ===== src/Shared/Request.antt =====
-- bee_shared/src/verifier.rs and bee_shared/src/miner/mod.rs: what a session submits, and the
-- decoding of a verification request. The borsh decoder of the part behind the header is a
-- parameter. A slice of fixed length converts into an array, so those conversions cannot fail.
pub mod Header
use bee_engine.Base.{
  ℕ, ◌+◌, ◌≡◌, Bool, List, [], ◌∷◌, ◌++◌, Option, none, some, Result, ok, err, ◌>>=◌, ◌>>◌, fail_if,
  ok_or, ltb,
}
use bee_engine.Base.Bytes.{Bytes, from_be_bytes}
use bee_engine.Base.Lists.{length, slice, drop}
use bee_engine.Shared.Leaf.{Primitives, ComputedLeaf}

pub record SessionSubmit : Type 0 where
  pub root : Bytes
  pub leaves_count : ℕ

pub record SessionProof : Type 0 where
  pub proof : Bytes
  pub leaves_tree : List Bytes
  pub leaves_data : List ComputedLeaf

pub record PartialVerifySession : Type 0 where
  pub easy_submit_params : SessionSubmit
  pub hard_submit_params : SessionSubmit
  pub easy_proof_params : SessionProof
  pub hard_first_proof_params : SessionProof
  pub hard_range_proof_params : SessionProof
  pub hard_last_proof_params : SessionProof

pub record ParamsOfVerifySession : Type 0 where
  pub seed : Bytes
  pub easy_complexity : ℕ
  pub easy_interval_start : ℕ
  pub easy_interval_end : ℕ
  pub hard_complexity : ℕ
  pub hard_interval_start : ℕ
  pub hard_interval_end : ℕ
  pub easy_submit_params : SessionSubmit
  pub hard_submit_params : SessionSubmit
  pub easy_proof_params : SessionProof
  pub hard_first_proof_params : SessionProof
  pub hard_range_proof_params : SessionProof
  pub hard_last_proof_params : SessionProof

abbrev pub header_len : ℕ
header_len = 72

pub data DecodeError : Type 0 where
  input_too_short : ℕ → DecodeError
  decode_rest_bytes : DecodeError

-- `format!("0x{seed}")`
abbrev pub hex_seed : Primitives → Bytes → Bytes
hex_seed c seed = b'0' ∷ b'x' ∷ c.hex_encode seed

module _ (c : Primitives) (borsh : Bytes → Option PartialVerifySession) where
  -- `impl TryFrom<Vec<u8>> for ParamsOfVerifySession`
  unfoldable pub try_from : Bytes → Result DecodeError ParamsOfVerifySession
  try_from bytes = do
    fail_if (ltb (length bytes) header_len) (input_too_short (length bytes))
    rest ← ok_or (borsh (drop header_len bytes)) decode_rest_bytes
    ok (record {
      seed = hex_seed c (slice 0 32 bytes);
      easy_complexity = from_be_bytes (slice 32 36 bytes);
      easy_interval_start = from_be_bytes (slice 36 44 bytes);
      easy_interval_end = from_be_bytes (slice 44 52 bytes);
      hard_complexity = from_be_bytes (slice 52 56 bytes);
      hard_interval_start = from_be_bytes (slice 56 64 bytes);
      hard_interval_end = from_be_bytes (slice 64 72 bytes);
      easy_submit_params = rest.easy_submit_params;
      hard_submit_params = rest.hard_submit_params;
      easy_proof_params = rest.easy_proof_params;
      hard_first_proof_params = rest.hard_first_proof_params;
      hard_range_proof_params = rest.hard_range_proof_params;
      hard_last_proof_params = rest.hard_last_proof_params;
    })
