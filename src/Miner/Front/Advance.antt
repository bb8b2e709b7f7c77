-- ===== src/Miner/Front/Advance.antt =====
-- bee_miner/src/wasm/worker.rs: `run`, from one wait to the next.
use bee_engine.Base.{
  ℕ, ◌+◌, Bool, true, false, ◌&&◌, ◌||◌, ◌∷◌, Option, none, some, is_ok, leb, if◌then◌else◌,
}
use bee_engine.Base.Lists.{any, is_empty}
use bee_engine.Shared.Leaf.{Primitives}
use bee_engine.Miner.Merkle.{MerkleTree}
use bee_engine.Miner.Complexity.{MinerComplexityData}
use bee_engine.Miner.Context.{MiningCore, new_core, compute, get_merkle}
use bee_engine.Miner.Submission.{submit_session_proof}
use bee_engine.Miner.Front.{
  computing, submitting, MinerCommand, stop_command, queue_tap, send_session_interval,
  process_session_accepted, process_session_rejected, is_submitting, Miner, update_worker_status,
  Phase, spawned, resolving, mining, waiting, sending_root, awaiting_interval, Task, Input, resume,
  fetched, tick, turn, root_submitted, received, resolved_complexity, others_submit, end_task,
}

module _ (c : Primitives) (m : MerkleTree) where
  open m use {Tree}

  abbrev pub Outcome : Type 0
  Outcome = Option (Miner × Option (Task Tree))

  abbrev at : Miner → Task Tree → Phase Tree → Outcome
  at s t phase = some (s, some (record t { phase = phase }))

  unfoldable pub begin : Miner → Task Tree → Outcome
  begin s t =
      let workers = update_worker_status t.id computing s.workers in
      at (record s { workers = workers }) t (resolving (others_submit t.id workers))

  unfoldable pub resolve : Miner → Task Tree → Bool → Option MinerComplexityData → ℕ → Outcome
  resolve s t session_in_flight data' now_ms =
      let (easy, hard) = resolved_complexity t session_in_flight data' in
      at s t (
        mining now_ms (new_core c m t.seed t.duration_ms easy)
          (new_core c m t.seed t.duration_ms hard))

  -- The trees are taken; if one of them is empty, the seed goes back to the front of the queue.
  unfoldable pub finalize : Miner → Task Tree → MiningCore Tree → MiningCore Tree → Outcome
  finalize s t time_core tap_core =
      let (time_core, time_tree) = get_merkle c m time_core in
      let (tap_core, tap_tree) = get_merkle c m tap_core in
      if is_empty time_tree.leaves || is_empty tap_tree.leaves
      then some (end_task (record s { seeds = t.seed ∷ s.seeds }) t)
      else at s t (waiting time_core tap_core)

  -- The end of a round of the computation loop.
  unfoldable pub next_round :
      Miner → Task Tree → (start_ms now_ms : ℕ) → MiningCore Tree → MiningCore Tree → Outcome
  next_round s t start_ms now_ms time_core tap_core =
      if leb (start_ms + t.duration_ms) now_ms
      then finalize s t time_core tap_core
      else at s t (mining start_ms time_core tap_core)

  -- One round of the computation loop.
  unfoldable pub mine :
      Miner
      → Task Tree
      → (start_ms : ℕ) → MiningCore Tree
      → MiningCore Tree
      → (fuel now_ms : ℕ) → Option MinerCommand
      → Outcome
  mine s t start_ms time_core tap_core fuel now_ms none =
      elim (compute c m fuel time_core (record { x = 0; y = 0; now_ms = now_ms })) [
        | none ↦ none
        | some (core, _) ↦ next_round s t start_ms now_ms core tap_core
      ]
  mine s t start_ms time_core tap_core fuel now_ms (some (queue_tap x y)) =
      elim (compute c m fuel tap_core (record { x = x; y = y; now_ms = now_ms })) [
        | none ↦ none
        | some (core, _) ↦ next_round s t start_ms now_ms time_core core
      ]
  mine s t start_ms time_core tap_core fuel now_ms (some stop_command) =
      finalize s t time_core tap_core
  mine s t start_ms time_core tap_core fuel now_ms (some (send_session_interval i)) =
      next_round s t start_ms now_ms time_core tap_core
  mine s t start_ms time_core tap_core fuel now_ms (some process_session_accepted) =
      next_round s t start_ms now_ms time_core tap_core
  mine s t start_ms time_core tap_core fuel now_ms (some process_session_rejected) =
      next_round s t start_ms now_ms time_core tap_core

  -- The task waits until no worker of the list submits.
  unfoldable pub try_submit : Miner → Task Tree → MiningCore Tree → MiningCore Tree → Outcome
  try_submit s t time_core tap_core =
      if any is_submitting s.workers
      then at s t (waiting time_core tap_core)
      else at (record s { workers = update_worker_status t.id submitting s.workers }) t
          (sending_root time_core tap_core)

  -- What follows a command while the task awaits the contract. The channel may be closed.
  unfoldable pub handle :
      Miner → Task Tree → MiningCore Tree → MiningCore Tree → Option MinerCommand → Bool → Outcome
  handle s t time_core tap_core none proof_sent = some (end_task s t)
  handle s t time_core tap_core (some (send_session_interval i)) proof_sent =
      let tap_tree = (get_merkle c m tap_core).1 in
      if is_ok (submit_session_proof c m time_core tap_core tap_tree i) && proof_sent
      then at s t (awaiting_interval time_core tap_core)
      else some (end_task s t)
  handle s t time_core tap_core (some process_session_accepted) proof_sent = some (end_task s t)
  handle s t time_core tap_core (some process_session_rejected) proof_sent = some (end_task s t)
  handle s t time_core tap_core (some stop_command) proof_sent =
      at s t (awaiting_interval time_core tap_core)
  handle s t time_core tap_core (some (queue_tap x y)) proof_sent =
      at s t (awaiting_interval time_core tap_core)

  -- The root was sent, or not; then the task is over and its seed is used up.
  unfoldable pub after_root : Miner → Task Tree → MiningCore Tree → MiningCore Tree → Bool → Outcome
  after_root s t time_core tap_core true = at s t (awaiting_interval time_core tap_core)
  after_root s t time_core tap_core false = some (end_task s t)

  -- `none` is a search that ran out of fuel.
  unfoldable pub advance : Miner → Task Tree → (phase : Phase Tree) → Input phase → Outcome
  advance s t spawned resume = begin s t
  advance s t (resolving flight) (fetched data' now_ms) = resolve s t flight data' now_ms
  advance s t (mining start_ms a b) (tick fuel now_ms command) =
      mine s t start_ms a b fuel now_ms command
  advance s t (waiting a b) turn = try_submit s t a b
  advance s t (sending_root a b) (root_submitted submitted) = after_root s t a b submitted
  advance s t (awaiting_interval a b) (received command proof_sent) =
      handle s t a b command proof_sent
