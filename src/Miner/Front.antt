-- ===== src/Miner/Front.antt =====
-- bee_miner/src/wasm/miner.rs and worker.rs: the miner's queue of seeds, its workers, and the tasks
-- that run them. A task runs until it waits, so each step below is what happens between two waits.
-- The channel of a worker is not kept: a task may receive any command at any time, and what is sent
-- is a result. Callbacks to JavaScript have no effect on the state and are left out.
pub mod Advance
pub mod Touched
pub mod Steps
pub mod Submitting
pub mod Entries
pub mod Sending
pub mod Alone
pub mod Seeds
pub mod Starting
pub mod Sessions
pub mod Soundness
use bee_engine.Base.{
  ℕ, ◌+◌, ◌≡◌, Bool, true, false, not, ◌&&◌, ◌||◌, List, [], ◌∷◌, ◌++◌, map, Option, none, some,
  Result, ok, err, is_ok, ◌==◌, leb, if◌then◌else◌,
}
use bee_engine.Base.Bytes.{Bytes, bytes_eq}
use bee_engine.Base.Lists.{any, retain, is_empty}
use bee_engine.Shared.Leaf.{Primitives, ComputedLeaf}
use bee_engine.Miner.Merkle.{MerkleTree}
use bee_engine.Miner.Complexity.{MinerComplexityData, select_session_complexity}
use bee_engine.Miner.Context.{MiningCore, ParamsOfCompute, new_core, compute, get_merkle}
use bee_engine.Miner.Submission.{SessionInterval, submit_session_proof}

pub data MinerStatus : Type 0 where
  queued computing submitting finished : MinerStatus

pub data MinerCommand : Type 0 where
  stop_command : MinerCommand
  queue_tap : ℕ → ℕ → MinerCommand
  send_session_interval : SessionInterval → MinerCommand
  process_session_accepted process_session_rejected : MinerCommand

-- An entry of the miner's list.
pub record MinerWorker : Type 0 where
  pub id : ℕ
  pub status : MinerStatus
  pub seed : Bytes

abbrev pub is_queued : MinerWorker → Bool
is_queued w = elim w.status [
  | queued ↦ true
  | computing ↦ false
  | submitting ↦ false
  | finished ↦ false
]

abbrev pub is_computing : MinerWorker → Bool
is_computing w = elim w.status [
  | queued ↦ false
  | computing ↦ true
  | submitting ↦ false
  | finished ↦ false
]

abbrev pub is_submitting : MinerWorker → Bool
is_submitting w = elim w.status [
  | queued ↦ false
  | computing ↦ false
  | submitting ↦ true
  | finished ↦ false
]

-- What the miner and its tasks share.
pub record Miner : Type 0 where
  pub seeds : List Bytes
  pub complexity : ℕ × ℕ
  pub workers : List MinerWorker

-- The status of the first worker with the id.
unfoldable pub update_worker_status : ℕ → MinerStatus → List MinerWorker → List MinerWorker
update_worker_status id status [] = []
update_worker_status id status (w ∷ ws) =
    let rest = update_worker_status id status ws in
    if w.id == id then record w { status = status } ∷ ws else w ∷ rest

unfoldable pub shutdown_worker : ℕ → List MinerWorker → List MinerWorker
shutdown_worker id ws = retain (λ w. not (w.id == id)) (update_worker_status id finished ws)

unfoldable pub can_start : Miner → Bool
can_start s = not (any is_computing s.workers) && not (is_empty s.seeds)

unfoldable pub remove_seed : Bytes → Miner → Miner
remove_seed seed s = record s { seeds = retain (λ v. not (bytes_eq v seed)) s.seeds }

-- The workers that stay, and the ids of those that are told to stop.
unfoldable pub stop : Miner → Miner × List ℕ
stop s =
    let left = retain (λ w. not (is_queued w)) s.workers in
    (record s { workers = left }, map (λ w. w.id) (retain is_computing left))

-- Events of the contract.
unfoldable pub seed_updated : Bytes → Miner → Miner
seed_updated next_seed s = record s { seeds = s.seeds ++ next_seed ∷ [] }

unfoldable pub complexity_updated : ℕ × ℕ → Miner → Miner
complexity_updated c s = record s { complexity = c }

-- Where a task waits.
pub data Phase (Tree : Type 0) : Type 0 where
  spawned : Phase Tree
  resolving : (session_in_flight : Bool) → Phase Tree
  mining : (start_ms : ℕ) (time_core tap_core : MiningCore Tree) → Phase Tree
  waiting sending_root awaiting_interval : (time_core tap_core : MiningCore Tree) → Phase Tree

pub record Task (Tree : Type 0) : Type 0 where
  pub id : ℕ
  pub seed : Bytes
  pub duration_ms : ℕ
  pub easy_complexity : ℕ
  pub hard_complexity : ℕ
  pub phase : Phase Tree

-- What a task is resumed with, by what it waits for: the account data that it fetched, if it could;
-- the time and the command that it finds; how its messages fared; or just its turn.
pub data Input {Tree : Type 0} : Phase Tree → Type 0 where
  resume : Input spawned
  fetched : {flight : Bool} → Option MinerComplexityData → (now_ms : ℕ) → Input (resolving flight)
  tick :
      {start_ms : ℕ} {a b : MiningCore Tree}
      → (fuel now_ms : ℕ) → Option MinerCommand
      → Input (mining start_ms a b)
  turn : {a b : MiningCore Tree} → Input (waiting a b)
  root_submitted : {a b : MiningCore Tree} → Bool → Input (sending_root a b)
  received :
      {a b : MiningCore Tree}
      → Option MinerCommand
      → (proof_sent : Bool) → Input (awaiting_interval a b)

-- A new worker with its task, on the first seed. The id is random.
unfoldable pub start : {Tree : Type 0} → ℕ → ℕ → Miner → Option (Miner × Task Tree)
start id duration_ms s = if any is_computing s.workers then none else elim s.seeds [
  | [] ↦ none
  | seed ∷ seeds ↦ some (
    record s {
      seeds = seeds;
      workers = s.workers ++ record { id = id; status = queued; seed = seed } ∷ [];
    },
    record {
      id = id;
      seed = seed;
      duration_ms = duration_ms;
      easy_complexity = s.complexity.0;
      hard_complexity = s.complexity.1;
      phase = spawned;
    },
  )
]

-- `get_session_complexity` with the complexity that the source falls back on.
unfoldable pub resolved_complexity :
    {Tree : Type 0} → Task Tree → Bool → Option MinerComplexityData → ℕ × ℕ
resolved_complexity t session_in_flight none = (t.easy_complexity, t.hard_complexity)
resolved_complexity t session_in_flight (some data') =
    elim (select_session_complexity t.seed data' session_in_flight) [
      | none ↦ (t.easy_complexity, t.hard_complexity)
      | some complexity ↦ complexity
    ]

-- The other workers of the list that submit.
unfoldable pub others_submit : ℕ → List MinerWorker → Bool
others_submit id ws = any (λ w. not (w.id == id) && is_submitting w) ws

-- The task is over: its worker is finished and taken off the list.
unfoldable pub end_task : {Tree : Type 0} → Miner → Task Tree → Miner × Option (Task Tree)
end_task s t = (record s { workers = shutdown_worker t.id s.workers }, none)

-- `Miner::new`, once the contract's details are read and a stale session is cancelled.
unfoldable pub new_miner : (stale : Bool) → (seed next_seed : Bytes) → ℕ × ℕ → Miner
new_miner stale seed next_seed complexity = record {
  seeds = if stale then next_seed ∷ [] else seed ∷ next_seed ∷ [];
  complexity = complexity;
  workers = [];
}
