-- ===== src/Miner/Context.antt =====
-- bee_miner/src/core/context.rs: a mining session (`MiningCore`).
-- `compute` takes the fuel of the nonce search: the outer `none` of its result means that the search
-- ran out of it. Times are milliseconds below 2 ^ 64.
pub mod Session
pub mod Timeline
pub mod Window
use bee_engine.Base.{
  ℕ, ◌+◌, ◌-◌, ◌^◌, ◌≡◌, Bool, true, false, Option, none, some, List, [], ◌∷◌, ◌++◌, Result, ok,
  err, ◌>>=◌, ltb, leb, if◌then◌else◌, min,
}
use bee_engine.Base.Bytes.{Bytes}
use bee_engine.Base.Lists.{length, slice}
use bee_engine.Shared.Leaf.{Primitives, ComputedLeaf}
use bee_engine.Miner.Merkle.{
  MerkleTree, WindowError, get_merkle_root, get_merkle_leaves, get_proof_in_window,
}
use bee_engine.Miner.Processor.{ParamsOfCalcHash, calc_hash_blake}

abbrev pub u64_max : ℕ
u64_max = 2 ^ 64 - 1

pub record ParamsOfCompute : Type 0 where
  pub x : ℕ
  pub y : ℕ
  pub now_ms : ℕ

pub record ResultOfGetMerkleSnapshot : Type 0 where
  pub root : Bytes
  pub leaves : List Bytes

pub record ResultOfGetProof : Type 0 where
  pub proof : Bytes
  pub selected_leaves : List Bytes
  pub selected_leaves_data : List ComputedLeaf

pub record MiningCore (Tree : Type 0) : Type 0 where
  pub tree : Tree
  pub target_bits : ℕ
  pub seed : Bytes
  pub committed : Bool
  pub completed : List ComputedLeaf
  pub ends_at_ms : Option ℕ
  pub duration_ms : ℕ
  pub last_now_ms : Option ℕ

unfoldable pub deadline_reached_ms : Option ℕ → ℕ → Bool
deadline_reached_ms none now = false
deadline_reached_ms (some end) now = leb end now

-- `params.now_ms < prev`
unfoldable pub runs_backwards : Option ℕ → ℕ → Bool
runs_backwards none now = false
runs_backwards (some prev) now = ltb now prev

module _ {Tree : Type 0} where
  -- The deadline is set by the first job.
  unfoldable pub set_deadline : ℕ → MiningCore Tree → MiningCore Tree
  set_deadline now s = elim s.ends_at_ms [
    | none ↦ record s { ends_at_ms = some (min (now + s.duration_ms) u64_max) }
    | some e ↦ s
  ]

  unfoldable pub calc_params : MiningCore Tree → ParamsOfCompute → ParamsOfCalcHash
  calc_params s p = record {
    seed = s.seed;
    idx = length s.completed;
    x = p.x;
    y = p.y;
    timestamp = p.now_ms;
    complexity = s.target_bits;
  }

-- The calls that change a session, and a history of them. A call whose search ran out of fuel has
-- no state after it.
pub data Call : Type 0 where
  tap : ℕ → ParamsOfCompute → Call
  take_merkle : Call
  restart : Call

module _ (c : Primitives) (m : MerkleTree) where
  open m use {Tree}

  unfoldable pub new_core : Bytes → ℕ → ℕ → MiningCore Tree
  new_core seed duration_ms target_bits = record {
    tree = m.new;
    target_bits = target_bits;
    seed = seed;
    committed = false;
    completed = [];
    ends_at_ms = none;
    duration_ms = duration_ms;
    last_now_ms = none;
  }

  -- The accepted job: hash, and keep the leaf.
  unfoldable pub run_job :
      ℕ → MiningCore Tree → ParamsOfCompute → Option (MiningCore Tree × Option ComputedLeaf)
  run_job fuel s p = elim (calc_hash_blake c m fuel s.tree (calc_params s p)) [
    | none ↦ none
    | some (l, t) ↦ some (record s { tree = t; completed = s.completed ++ l ∷ [] }, some l)
  ]

  unfoldable pub compute :
      ℕ → MiningCore Tree → ParamsOfCompute → Option (MiningCore Tree × Option ComputedLeaf)
  compute fuel s0 p =
      let s = set_deadline p.now_ms s0 in
      if deadline_reached_ms s.ends_at_ms p.now_ms
      then some (s, none)
      else (if s.committed
          then some (s, none)
          else (if runs_backwards s.last_now_ms p.now_ms
              then some (s, none)
              else run_job fuel (record s { last_now_ms = some p.now_ms }) p))

  unfoldable pub commit_once : MiningCore Tree → MiningCore Tree
  commit_once s = if s.committed then s else record s { tree = m.commit s.tree; committed = true }

  unfoldable pub get_merkle : MiningCore Tree → MiningCore Tree × ResultOfGetMerkleSnapshot
  unfolding commit_once
  get_merkle s0 =
      let s = commit_once s0 in
      (s, record { root = get_merkle_root c m s.tree; leaves = get_merkle_leaves c m s.tree })

  unfoldable pub completed_in_window : MiningCore Tree → ℕ → ℕ → List ComputedLeaf
  completed_in_window s start_index end_index = slice start_index end_index s.completed

  unfoldable pub get_proof : MiningCore Tree → ℕ → ℕ → Result WindowError ResultOfGetProof
  unfolding completed_in_window
  get_proof s start_index end_index = do
    found ← get_proof_in_window c m s.tree start_index end_index
    ok (record {
      proof = found.0;
      selected_leaves = found.1;
      selected_leaves_data = completed_in_window s start_index end_index;
    })

  unfoldable pub reset : MiningCore Tree → MiningCore Tree
  reset s = record s {
    tree = m.new;
    completed = [];
    committed = false;
    ends_at_ms = none;
    last_now_ms = none;
  }

  unfoldable pub step : MiningCore Tree → Call → Option (MiningCore Tree)
  step s (tap fuel p) = elim (compute fuel s p) [ none ↦ none | some (t, _) ↦ some t ]
  step s take_merkle = some (get_merkle s).0
  step s restart = some (reset s)

  unfoldable pub run : MiningCore Tree → List Call → Option (MiningCore Tree)
  run s [] = some s
  run s (k ∷ ks) = elim (step s k) [ none ↦ none | some t ↦ run t ks ]
