-- ===== src/Miner/Complexity.antt =====
-- bee_miner/src/core/session_complexity.rs
use bee_engine.Base.{ℕ, ◌≡◌, ◌≢◌, Bool, true, false, Option, none, some, if◌then◌else◌, arith}
use bee_engine.Base.Bytes.{Bytes, bytes_eq, bytes_eq_iff}

pub record MinerComplexityData : Type 0 where
  pub seed : Bytes
  pub next_seed : Bytes
  pub easy : ℕ
  pub hard : ℕ
  pub easy_old : ℕ
  pub hard_old : ℕ

unfoldable pub select_session_complexity : Bytes → MinerComplexityData → Bool → Option (ℕ × ℕ)
select_session_complexity seed data' session_in_flight =
    if bytes_eq seed data'.seed
    then some (data'.easy_old, data'.hard_old)
    else (if bytes_eq seed data'.next_seed
        then (if session_in_flight
            then some (data'.easy, data'.hard)
            else some (data'.easy_old, data'.hard_old))
        else none)

-- The contract's two transitions that make the next seed current: a session is accepted, or a
-- stale commit is cancelled. The seed after the next one is the contract's choice.
abbrev pub accept_session : Bytes → MinerComplexityData → MinerComplexityData
accept_session fresh d = record d {
  seed = d.next_seed;
  next_seed = fresh;
  easy_old = d.easy;
  hard_old = d.hard;
}

abbrev pub cancel_commit : Bytes → MinerComplexityData → MinerComplexityData
cancel_commit fresh d = record d { seed = d.next_seed; next_seed = fresh }

-- What the contract verifies the current seed with.
abbrev pub verified_with : MinerComplexityData → ℕ × ℕ
verified_with d = (d.easy_old, d.hard_old)

-- The choice made for the next seed is the one that the contract verifies with once that seed is
-- current: through an accepted session if one is in flight, through a cancelled commit if not.
select_session_complexity-next :
    (d : MinerComplexityData) (fresh : Bytes)
    → d.next_seed ≢ d.seed
    → (select_session_complexity d.next_seed d true ≡ some (verified_with (accept_session fresh d)))
      × (select_session_complexity d.next_seed d false
          ≡ some (verified_with (cancel_commit fresh d)))
unfolding select_session_complexity
select_session_complexity-next d fresh ne =
    ground (arith, bytes_eq_iff d.next_seed d.seed, bytes_eq_iff d.next_seed d.next_seed)

-- For the current seed the choice does not depend on the session in flight, and there is no choice
-- for exactly the seeds that the contract no longer knows.
select_session_complexity-current :
    (d : MinerComplexityData) (seed : Bytes) (in_flight : Bool)
    → (select_session_complexity d.seed d in_flight ≡ some (verified_with d))
      × (select_session_complexity seed d in_flight ≡ none → (seed ≢ d.seed) × (seed ≢ d.next_seed))
      × (seed ≢ d.seed → seed ≢ d.next_seed → select_session_complexity seed d in_flight ≡ none)
unfolding select_session_complexity
select_session_complexity-current d seed in_flight =
    ground
      (arith, bytes_eq_iff d.seed d.seed, bytes_eq_iff seed d.seed, bytes_eq_iff seed d.next_seed)
