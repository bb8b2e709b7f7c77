-- ===== src/Tests/Verifier.antt =====
-- The verifier's theorems at the session of two taps.
use bee_engine.Base.{
  is_ok, ◌↔◌, ◌⊎◌, ◌∙◌, ℕ, ◌-◌, ◌/◌, ◌^◌, ◌<◌, ◌≡◌, refl, true, false, List, [], ◌∷◌, Option, none,
  some, ok, arith, inl,
}
use bee_engine.Base.Bytes.{Bytes, le_bytes}
use bee_engine.Base.Lists.{drop, length, slice, first, last}
use bee_engine.Shared.Leaf
use bee_engine.Shared.Leaf.{ComputedLeaf, hash_num}
use bee_engine.Shared.Request.{
  PartialVerifySession, ParamsOfVerifySession, SessionProof, hex_seed, try_from,
}
use bee_engine.Shared.Request.Header.{
  Header, FitsHeader, encode, request, try_from-encode, try_from_fails_iff,
}
use bee_engine.Miner.Merkle.{get_merkle_leaves, add_leaf, get_proof_in_window}
use bee_engine.Miner.Processor.{solves, search_nonce, calc_hash_blake}
use bee_engine.Miner.Context.{
  new_core, compute, get_merkle, get_proof, run, step, run_job, set_deadline, deadline_reached_ms,
  runs_backwards, calc_params, completed_in_window,
}
use bee_engine.Miner.Submission.{
  SessionInterval, session_submit, SessionProofs, submit_session_proof,
}
use bee_engine.Verifier.Checks.{validate_leaves}
use bee_engine.Verifier.Handler.{as_u32, computation_blocks, verify, verify_proof_and_leaves}
use bee_engine.Verifier.Handler.Verdict.{Proven, Accepted, verify_sound, verify_complete}
use bee_engine.Verifier.Handler.Unbound.{leaves_data_unbound}
use bee_engine.Verifier.Handler.Mined.{snapshot, mined-Proven}
use bee_engine.Verifier.Handler.Session.{
  Addressable, Ready, rest_of, header_of, submit-Collected, Collected-Accepted, session_verified,
}
use bee_engine.Tests.Toy.{toy, toy_tree, zeros}
use bee_engine.Tests.Miner.{session, session_committed, session-Inv, session-Timely}

abbrev interval : SessionInterval
interval = record { easy_start = 0; easy_end = 2; hard_start = 0; hard_end = 2 }

interval-Addressable : Addressable interval
interval-Addressable = (omega arith, omega arith, omega arith, omega arith)

abbrev nothing : SessionProof
nothing = record { proof = []; leaves_tree = []; leaves_data = [] }

abbrev window : ℕ → ℕ → SessionProof
window start end = record {
  proof = 1 ∷ [];
  leaves_tree = slice start end (zeros ∷ zeros ∷ []);
  leaves_data = slice start end session.completed;
}

abbrev proofs : SessionProofs
proofs = record {
  easy = window 0 2;
  hard_first = window 0 1;
  hard_range = window 0 2;
  hard_last = window 1 2;
}

submitted :
    submit_session_proof toy toy_tree session session (snapshot toy toy_tree session) interval
    ≡ ok proofs
unfolding submit_session_proof session run step compute run_job calc_hash_blake search_nonce solves
    Leaf.compute hash_num set_deadline deadline_reached_ms runs_backwards calc_params new_core
    get_merkle get_proof get_proof_in_window get_merkle_leaves completed_in_window add_leaf
    Leaf.merkle_hash
submitted = refl

session_short : length session.completed < 2 ^ 32
unfolding session run step compute run_job calc_hash_blake search_nonce solves Leaf.compute hash_num
    set_deadline deadline_reached_ms runs_backwards calc_params new_core get_merkle
session_short = omega arith

session_facts :
    (session.seed ≡ hex_seed toy zeros)
    × (session.target_bits ≡ 10)
    × (session.last_now_ms ≡ some 2000)
unfolding session run step compute run_job calc_hash_blake search_nonce solves Leaf.compute hash_num
    set_deadline deadline_reached_ms runs_backwards calc_params new_core get_merkle
session_facts = (refl, refl, refl)

session-Ready : Ready toy toy_tree session
session-Ready = record {
  inv = session-Inv;
  timely = session-Timely;
  committed = session_committed;
  short = session_short;
  in_range = ground (arith, session_facts.2);
}

header-FitsHeader : FitsHeader (header_of toy toy_tree zeros session session interval)
header-FitsHeader = record {
  seed = refl;
  easy_complexity = ground (arith, session_facts.1);
  easy_interval_start = omega arith;
  easy_interval_end = omega arith;
  hard_complexity = ground (arith, session_facts.1);
  hard_interval_start = omega arith;
  hard_interval_end = omega arith;
}

-- A decoder that knows the rest of one request.
abbrev borsh : Bytes → Option PartialVerifySession
borsh bytes = some (rest_of toy toy_tree session session proofs)

abbrev header : Header
header = header_of toy toy_tree zeros session session interval

try_from-encode_example :
    try_from toy borsh (encode header [])
    ≡ ok (request toy header (rest_of toy toy_tree session session proofs))
try_from-encode_example =
    try_from-encode toy borsh header [] (rest_of toy toy_tree session session proofs)
      header-FitsHeader refl

session_verified_example :
    (f : ComputedLeaf) × (l : ComputedLeaf) × (first session.completed ≡ some f)
    × (last session.completed ≡ some l)
    × (verify toy toy_tree borsh (encode header [])
        ≡ 1 ∷ 1 ∷ le_bytes 4 (as_u32 ((l.timestamp - f.timestamp) / 330)))
session_verified_example =
    session_verified toy toy_tree borsh zeros [] session session interval proofs session-Ready
      session-Ready session_facts.0 session_facts.0 header-FitsHeader refl interval-Addressable
      submitted (inl refl) (inl refl) (inl refl) (inl refl)

abbrev params : ParamsOfVerifySession
params = request toy header (rest_of toy toy_tree session session proofs)

decoded : try_from toy borsh (encode header []) ≡ ok params
decoded =
    try_from-encode toy borsh header [] (rest_of toy toy_tree session session proofs)
      header-FitsHeader refl

params-Accepted : Accepted toy toy_tree params
params-Accepted =
    Collected-Accepted toy toy_tree zeros session session interval proofs
      (submit-Collected toy toy_tree session session interval proofs interval-Addressable submitted)
      session-Ready session-Ready session_facts.0 session_facts.0 (inl refl) (inl refl) (inl refl)
      (inl refl)

verify_complete_example :
    (f : ComputedLeaf) × (l : ComputedLeaf) × (first params.hard_first_proof_params.leaves_data
      ≡ some f)
    × (last params.hard_last_proof_params.leaves_data ≡ some l)
    × (verify toy toy_tree borsh (encode header []) ≡ 1 ∷ 1 ∷ le_bytes 4 (computation_blocks f l))
verify_complete_example =
    verify_complete toy toy_tree borsh (encode header []) params decoded params-Accepted

blocks : Bytes
blocks = le_bytes 4 3

answered : verify toy toy_tree borsh (encode header []) ≡ 1 ∷ 1 ∷ blocks
unfolding blocks session run step compute run_job calc_hash_blake search_nonce solves Leaf.compute
    hash_num set_deadline deadline_reached_ms runs_backwards calc_params new_core get_merkle
    computation_blocks
answered =
    let (f, l, ef, el, answer) =
      verify_complete toy toy_tree borsh (encode header []) params decoded params-Accepted in
    answer ∙ ground (arith, ef, el)

verify_sound_example :
    (p : ParamsOfVerifySession) × (f : ComputedLeaf) × (l : ComputedLeaf) × (try_from toy borsh
        (encode header [])
      ≡ ok p)
    × Accepted toy toy_tree p
    × (first p.hard_first_proof_params.leaves_data ≡ some f)
    × (last p.hard_last_proof_params.leaves_data ≡ some l)
    × (blocks ≡ le_bytes 4 (computation_blocks f l))
verify_sound_example = verify_sound toy toy_tree borsh (encode header []) blocks answered

-- A leaf of another time, which no tree holds.
abbrev forged : List ComputedLeaf
forged =
    Leaf.compute toy (record {
      index = 0;
      nonce = 0;
      seed = hex_seed toy zeros;
      x = 1;
      y = 1;
      timestamp = 990000;
      complexity = 10;
    })
    ∷ []

forged_valid :
    validate_leaves toy (record { seed = session.seed; complexity = 10; leaves = forged }) ≡ true
unfolding validate_leaves session run step compute run_job calc_hash_blake search_nonce solves
    Leaf.compute Leaf.verify hash_num set_deadline deadline_reached_ms runs_backwards calc_params
    new_core get_merkle
forged_valid = refl

session_valid :
    validate_leaves toy
      (record { seed = session.seed; complexity = 10; leaves = session.completed })
    ≡ true
unfolding validate_leaves session run step compute run_job calc_hash_blake search_nonce solves
    Leaf.compute Leaf.verify hash_num set_deadline deadline_reached_ms runs_backwards calc_params
    new_core get_merkle
session_valid = refl

leaves_data_unbound_example :
    verify_proof_and_leaves toy toy_tree borsh session.seed 10
      (0, 2)
      (session_submit (snapshot toy toy_tree session))
      (record (window 0 2) { leaves_data = forged })
    ≡ verify_proof_and_leaves toy toy_tree borsh session.seed 10
        (0, 2)
        (session_submit (snapshot toy toy_tree session))
        (record (window 0 2) { leaves_data = session.completed })
leaves_data_unbound_example =
    leaves_data_unbound toy toy_tree borsh session.seed 10 (0, 2)
      (session_submit (snapshot toy toy_tree session))
      (record (window 0 2) { leaves_data = session.completed }) forged session_valid forged_valid

made :
    get_proof toy toy_tree session 0 2
    ≡ ok (record {
      proof = 1 ∷ [];
      selected_leaves = zeros ∷ zeros ∷ [];
      selected_leaves_data = session.completed;
    })
unfolding session run step compute run_job calc_hash_blake search_nonce solves Leaf.compute hash_num
    set_deadline deadline_reached_ms runs_backwards calc_params new_core get_merkle get_proof
    get_proof_in_window get_merkle_leaves completed_in_window add_leaf Leaf.merkle_hash
made = refl

mined-Proven_example :
    Proven toy toy_tree session.seed session.target_bits
      (0, 2)
      (session_submit (snapshot toy toy_tree session))
      (record { proof = 1 ∷ []; leaves_tree = zeros ∷ zeros ∷ []; leaves_data = session.completed })
mined-Proven_example =
    mined-Proven toy toy_tree session 0 2
      (record {
        proof = 1 ∷ [];
        selected_leaves = zeros ∷ zeros ∷ [];
        selected_leaves_data = session.completed;
      })
      session-Inv session_committed session_short made (inl refl)

abbrev short_request : Bytes
short_request = 1 ∷ 2 ∷ []

try_from_fails_iff_example :
    (is_ok (try_from toy borsh short_request) ≡ false)
    ↔ ((length short_request < 72) ⊎ (borsh (drop 72 short_request) ≡ none))
try_from_fails_iff_example = try_from_fails_iff toy borsh short_request
