-- ===== src/Tests/Miner.antt =====
-- The miner's theorems at a session of two taps.
use bee_engine.Base.{
  ◌<◌, ◌≤◌, ◌≡◌, refl, true, List, [], ◌∷◌, Option, none, some, arith, is_ok, ◌↔◌,
}
use bee_engine.Base.Bytes.{Bytes}
use bee_engine.Base.Lists.{length}
use bee_engine.Shared.Leaf
use bee_engine.Shared.Leaf.{Leaf, ComputedLeaf, preimage, hash_num, verify}
use bee_engine.Shared.Leaf.Preimage.{InRange, preimage-injective}
use bee_engine.Shared.Leaf.Difficulty.{bit_at, verify-difficulty}
use bee_engine.Miner.Complexity.{MinerComplexityData}
use bee_engine.Miner.Processor.{
  ParamsOfCalcHash, with_nonce, solves, search_nonce, search_nonce_complete, calc_hash_blake,
}
use bee_engine.Miner.Merkle.{add_leaf}
use bee_engine.Miner.Context.{
  MiningCore, Call, tap, take_merkle, new_core, compute, get_merkle, get_proof, run, step, run_job,
  set_deadline, deadline_reached_ms, runs_backwards, calc_params,
}
use bee_engine.Miner.Context.Session.{Inv, run-Inv}
use bee_engine.Miner.Context.Timeline.{Timely, run-Timely}
use bee_engine.Miner.Context.Window.{compute_after_commit, get_proof_iff}
use bee_engine.Shared.Request.{hex_seed}
use bee_engine.Tests.Toy.{toy, toy_tree, zeros}

abbrev leaf : Leaf
leaf = record {
  index = 0;
  nonce = 0;
  seed = b's' ∷ [];
  x = 1;
  y = 2;
  timestamp = 1000;
  complexity = 10;
}

leaf-InRange : InRange leaf
leaf-InRange = omega arith

preimage-injective_example : leaf ≡ leaf
preimage-injective_example = preimage-injective leaf leaf leaf-InRange leaf-InRange refl

computed : ComputedLeaf
computed = Leaf.compute toy leaf

computed_valid : verify toy computed (b's' ∷ []) 10 ≡ true
unfolding computed verify Leaf.compute hash_num
computed_valid = refl

verify-difficulty_example : bit_at computed.hash 9 ≡ some 0
verify-difficulty_example =
    verify-difficulty toy computed (b's' ∷ []) 10 9 computed_valid (omega arith)

abbrev job : ParamsOfCalcHash
job = record { seed = b's' ∷ []; idx = 0; x = 0; y = 0; timestamp = 5; complexity = 10 }

solved : solves toy job 0 ≡ true
unfolding solves Leaf.compute hash_num
solved = refl

search_nonce_complete_example :
    search_nonce toy 1 0 job ≡ some (Leaf.compute toy (with_nonce job 0))
search_nonce_complete_example =
    search_nonce_complete toy 0 0 job (omega arith) (λ k h. absurd (omega arith)) solved

-- Two taps and a snapshot, in a session of 15 seconds.
abbrev history : List Call
history =
    tap 1 (record { x = 1; y = 1; now_ms = 1000 })
    ∷ tap 1 (record { x = 2; y = 2; now_ms = 2000 })
    ∷ take_merkle
    ∷ []

abbrev seed_text : Bytes
seed_text = hex_seed toy zeros

abbrev fresh : MiningCore (List Bytes × List Bytes)
fresh = new_core toy toy_tree seed_text 15000 10

abbrev or_fresh :
    Option (MiningCore (List Bytes × List Bytes)) → MiningCore (List Bytes × List Bytes)
or_fresh none = fresh
or_fresh (some s) = s

unfoldable pub session : MiningCore (List Bytes × List Bytes)
session = or_fresh (run toy toy_tree fresh history)

session_runs : run toy toy_tree fresh history ≡ some session
unfolding session run step compute run_job calc_hash_blake search_nonce solves Leaf.compute hash_num
    set_deadline deadline_reached_ms runs_backwards calc_params new_core get_merkle add_leaf
    Leaf.merkle_hash
session_runs = refl

pub session-Inv : Inv toy toy_tree session
session-Inv = run-Inv toy toy_tree seed_text 15000 10 history session (omega arith) session_runs

run-Inv_example : Inv toy toy_tree session
run-Inv_example = run-Inv toy toy_tree seed_text 15000 10 history session (omega arith) session_runs

pub session-Timely : Timely session
session-Timely = run-Timely toy toy_tree seed_text 15000 10 history session session_runs

run-Timely_example : Timely session
run-Timely_example = run-Timely toy toy_tree seed_text 15000 10 history session session_runs

compute_after_commit_example :
    (t : MiningCore (List Bytes × List Bytes)) × (compute toy toy_tree 1
        (get_merkle toy toy_tree session).0
        (record { x = 3; y = 3; now_ms = 3000 })
      ≡ some (t, none))
    × (t.tree ≡ (get_merkle toy toy_tree session).0.tree)
    × (t.committed ≡ true)
    × (t.completed ≡ (get_merkle toy toy_tree session).0.completed)
    × ((get_merkle toy toy_tree t).1 ≡ (get_merkle toy toy_tree session).1)
compute_after_commit_example =
    compute_after_commit toy toy_tree 1 session (record { x = 3; y = 3; now_ms = 3000 })

pub session_committed : session.committed ≡ true
unfolding session run step compute run_job calc_hash_blake search_nonce solves Leaf.compute hash_num
    set_deadline deadline_reached_ms runs_backwards calc_params new_core get_merkle add_leaf
session_committed = refl

get_proof_iff_example :
    (is_ok (get_proof toy toy_tree session 0 2) ≡ true) ↔ ((0 < 2) × (2 ≤ length session.completed))
get_proof_iff_example = get_proof_iff toy toy_tree session 0 2 session-Inv session_committed

abbrev switched : MinerComplexityData
switched = record {
  seed = 1 ∷ [];
  next_seed = 2 ∷ [];
  easy = 10;
  hard = 12;
  easy_old = 10;
  hard_old = 11;
}
