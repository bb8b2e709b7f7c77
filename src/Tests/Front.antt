-- ===== src/Tests/Front.antt =====
-- The theorems on the miner's workers at one worker.
use bee_engine.Base.{◌+◌, ◌≤◌, ◌≡◌, refl, false, List, [], ◌∷◌, Option, none, some}
use bee_engine.Shared.Leaf
use bee_engine.Shared.Leaf.{ComputedLeaf, hash_num}
use bee_engine.Miner.Processor.{solves, search_nonce, calc_hash_blake}
use bee_engine.Miner.Merkle.{add_leaf, get_merkle_leaves}
use bee_engine.Miner.Context.{
  MiningCore, new_core, compute, get_merkle, run_job, set_deadline, deadline_reached_ms,
  runs_backwards, calc_params,
}
use bee_engine.Miner.Front.{
  queued, computing, submitting, stop_command, queue_tap, Miner, Task, spawned, resolving, mining,
  waiting, sending_root, resume, fetched, tick, turn, start, new_miner, update_worker_status,
  others_submit, resolved_complexity,
}
use bee_engine.Miner.Front.Advance.{advance, begin, resolve, mine, next_round, finalize, try_submit}
use bee_engine.Miner.Front.Steps.{System, Steps, here, then_step, starts, advances}
use bee_engine.Miner.Front.Submitting.{count}
use bee_engine.Miner.Front.Sending.{sends}
use bee_engine.Miner.Front.Alone.{one_task_sends}
use bee_engine.Miner.Front.Seeds.{held, announced, seeds_held}
use bee_engine.Miner.Front.Soundness.{AllSound, tasks_sound}
use bee_engine.Tests.Toy.{toy, toy_tree, zeros, Lists}

abbrev idle : Miner
idle = record { seeds = zeros ∷ (9 ∷ []) ∷ []; complexity = (10, 12); workers = [] }

abbrev busy : Miner
busy = record {
  seeds = (9 ∷ []) ∷ [];
  complexity = (10, 12);
  workers = record { id = 1; status = queued; seed = zeros } ∷ [];
}

abbrev spawn : Task Lists
spawn = record {
  id = 1;
  seed = zeros;
  duration_ms = 15000;
  easy_complexity = 10;
  hard_complexity = 12;
  phase = spawned;
}

started : start 1 15000 idle ≡ some (busy, spawn)
unfolding start
started = refl

abbrev system : Miner → List (Task Lists) → System Lists
system s ts = record { miner = s; tasks = ts }

abbrev one_start : Steps toy toy_tree (system idle []) (system busy (spawn ∷ []))
one_start = then_step here (starts (system idle []) 1 15000 busy spawn started)

seeds_held_example :
    held zeros (system busy (spawn ∷ []))
    ≤ held zeros (system idle []) + announced toy toy_tree zeros one_start
seeds_held_example = seeds_held toy toy_tree zeros one_start

-- The worker begins, and learns its complexity.
abbrev resolving_now : Task Lists
resolving_now = record spawn { phase = resolving false }

abbrev computing_now : Miner
computing_now = record busy { workers = record { id = 1; status = computing; seed = zeros } ∷ [] }

begins :
    advance toy toy_tree busy spawn spawn.phase resume ≡ some (computing_now, some resolving_now)
unfolding advance begin update_worker_status others_submit
begins = refl

abbrev first_core : MiningCore Lists
first_core = new_core toy toy_tree zeros 15000 10

abbrev second_core : MiningCore Lists
second_core = new_core toy toy_tree zeros 15000 12

abbrev mining_now : Task Lists
mining_now = record spawn { phase = mining 1000 first_core second_core }

resolves :
    advance toy toy_tree computing_now resolving_now resolving_now.phase (fetched none 1000)
    ≡ some (computing_now, some mining_now)
unfolding advance resolve resolved_complexity
resolves = refl

abbrev first_steps :
    Steps toy toy_tree (system busy (spawn ∷ [])) (system computing_now (mining_now ∷ []))
first_steps =
    then_step
      (then_step here (advances busy [] spawn [] resume computing_now (some resolving_now) begins))
      (advances computing_now [] resolving_now [] (fetched none 1000) computing_now
        (some mining_now) resolves)

tasks_sound_example : AllSound toy toy_tree (mining_now ∷ [])
tasks_sound_example = tasks_sound toy toy_tree first_steps (tt, tt)

-- A whole session: a round of time, a tap, the stop command, and the worker's turn.
abbrev or_first : Option (MiningCore Lists × Option ComputedLeaf) → MiningCore Lists
or_first none = first_core
or_first (some r) = r.0

abbrev time_core : MiningCore Lists
time_core = or_first (compute toy toy_tree 1 first_core (record { x = 0; y = 0; now_ms = 2000 }))

abbrev tap_core : MiningCore Lists
tap_core = or_first (compute toy toy_tree 1 second_core (record { x = 1; y = 2; now_ms = 3000 }))

abbrev after_round : Task Lists
after_round = record spawn { phase = mining 1000 time_core second_core }

abbrev after_tap : Task Lists
after_tap = record spawn { phase = mining 1000 time_core tap_core }

abbrev patient : Task Lists
patient = record spawn {
  phase = waiting (get_merkle toy toy_tree time_core).0 (get_merkle toy toy_tree tap_core).0;
}

abbrev sending : Task Lists
sending = record spawn {
  phase = sending_root (get_merkle toy toy_tree time_core).0 (get_merkle toy toy_tree tap_core).0;
}

abbrev submitting_now : Miner
submitting_now = record busy { workers = record { id = 1; status = submitting; seed = zeros } ∷ [] }

time_round :
    advance toy toy_tree computing_now mining_now mining_now.phase (tick 1 2000 none)
    ≡ some (computing_now, some after_round)
unfolding advance mine next_round compute run_job calc_hash_blake search_nonce solves Leaf.compute
    hash_num set_deadline deadline_reached_ms runs_backwards calc_params new_core add_leaf
    Leaf.merkle_hash
time_round = refl

tap_round :
    advance toy toy_tree computing_now after_round after_round.phase
      (tick 1 3000 (some (queue_tap 1 2)))
    ≡ some (computing_now, some after_tap)
unfolding advance mine next_round compute run_job calc_hash_blake search_nonce solves Leaf.compute
    hash_num set_deadline deadline_reached_ms runs_backwards calc_params new_core add_leaf
    Leaf.merkle_hash
tap_round = refl

stop_round :
    advance toy toy_tree computing_now after_tap after_tap.phase (tick 1 4000 (some stop_command))
    ≡ some (computing_now, some patient)
unfolding advance mine finalize compute run_job calc_hash_blake search_nonce solves Leaf.compute
    hash_num set_deadline deadline_reached_ms runs_backwards calc_params new_core add_leaf
    Leaf.merkle_hash get_merkle get_merkle_leaves
stop_round = refl

takes_turn :
    advance toy toy_tree computing_now patient patient.phase turn
    ≡ some (submitting_now, some sending)
unfolding advance try_submit update_worker_status
takes_turn = refl

started_new : start 1 15000 (new_miner false zeros (9 ∷ []) (10, 12)) ≡ some (busy, spawn)
unfolding start new_miner
started_new = refl

abbrev new_system : System Lists
new_system = system (new_miner false zeros (9 ∷ []) (10, 12)) []

abbrev steps_until_mining : Steps toy toy_tree new_system (system computing_now (mining_now ∷ []))
steps_until_mining =
    then_step
      (then_step (then_step here (starts new_system 1 15000 busy spawn started_new))
        (advances busy [] spawn [] resume computing_now (some resolving_now) begins))
      (advances computing_now [] resolving_now [] (fetched none 1000) computing_now
        (some mining_now) resolves)

abbrev steps_until_sending : Steps toy toy_tree new_system (system submitting_now (sending ∷ []))
steps_until_sending =
    then_step
      (then_step
        (then_step
          (then_step steps_until_mining (
            advances computing_now [] mining_now [] (tick 1 2000 none) computing_now
              (some after_round) time_round))
          (advances computing_now [] after_round [] (tick 1 3000 (some (queue_tap 1 2)))
            computing_now (some after_tap) tap_round))
        (advances computing_now [] after_tap [] (tick 1 4000 (some stop_command)) computing_now
          (some patient) stop_round))
      (advances computing_now [] patient [] turn submitting_now (some sending) takes_turn)

one_sends_now : count (sends submitting_now.workers) (sending ∷ []) ≡ 1
one_sends_now = refl

one_task_sends_example : count (sends submitting_now.workers) (sending ∷ []) ≤ 1
one_task_sends_example =
    one_task_sends toy toy_tree false zeros (9 ∷ []) (10, 12) steps_until_sending
      (((((((tt, refl), tt), tt), tt), tt), tt), tt)
