-- ===== src/Miner/Submission.antt =====
-- bee_miner/src/wasm/worker.rs: what a worker sends to the miner contract, `submit_session_root` and
-- `submit_session_proof` up to the encoding of the message.
use bee_engine.Base.{ℕ, ◌-◌, ◌%◌, ◌^◌, Result, ok, ◌>>=◌, map_err}
use bee_engine.Base.Lists.{length}
use bee_engine.Shared.Leaf.{Primitives}
use bee_engine.Shared.Request.{SessionSubmit, SessionProof}
use bee_engine.Miner.Merkle.{MerkleTree, WindowError}
use bee_engine.Miner.Context.{MiningCore, ResultOfGetMerkleSnapshot, ResultOfGetProof, get_proof}

-- `SessionIntervalData`, an event of the contract.
pub record SessionInterval : Type 0 where
  pub easy_start : ℕ
  pub easy_end : ℕ
  pub hard_start : ℕ
  pub hard_end : ℕ

-- `as usize`, which has 32 bits in the browser build.
abbrev pub as_usize : ℕ → ℕ
as_usize n = n % 2 ^ 32

pub data SubmitError : Type 0 where
  get_easy_proof get_hard_first_proof get_hard_range_proof get_hard_last_proof :
      WindowError → SubmitError

pub record SessionProofs : Type 0 where
  pub easy : SessionProof
  pub hard_first : SessionProof
  pub hard_range : SessionProof
  pub hard_last : SessionProof

unfoldable pub session_submit : ResultOfGetMerkleSnapshot → SessionSubmit
session_submit tree = record { root = tree.root; leaves_count = length tree.leaves }

abbrev pub session_proof : ResultOfGetProof → SessionProof
session_proof r = record {
  proof = r.proof;
  leaves_tree = r.selected_leaves;
  leaves_data = r.selected_leaves_data;
}

module _ (c : Primitives) (m : MerkleTree) where
  open m use {Tree}

  unfoldable pub submit_session_proof :
      MiningCore Tree
      → MiningCore Tree
      → ResultOfGetMerkleSnapshot
      → SessionInterval
      → Result SubmitError SessionProofs
  submit_session_proof easy_core hard_core hard_tree interval = do
    easy ←
        map_err get_easy_proof
          (get_proof c m easy_core (as_usize interval.easy_start) (as_usize interval.easy_end))
    hard_first ← map_err get_hard_first_proof (get_proof c m hard_core 0 1)
    hard_range ←
        map_err get_hard_range_proof
          (get_proof c m hard_core (as_usize interval.hard_start) (as_usize interval.hard_end))
    hard_last ←
        map_err get_hard_last_proof
          (get_proof c m hard_core (length hard_tree.leaves - 1) (length hard_tree.leaves))
    ok (record {
      easy = session_proof easy;
      hard_first = session_proof hard_first;
      hard_range = session_proof hard_range;
      hard_last = session_proof hard_last;
    })
