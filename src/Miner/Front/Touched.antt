-- ===== src/Miner/Front/Touched.antt =====
-- What one step of a task can do to the miner.
use bee_engine.Base.{
  ℕ, ◌+◌, ◌≡◌, refl, ap, subst, Bool, true, false, ◌||◌, ◌&&◌, List, [], ◌∷◌, ◌++◌, Option, none,
  some, arith, Bool-cases, Option-cases, inl, inr, is_ok, leb,
}
use bee_engine.Base.Bytes.{Bytes}
use bee_engine.Base.Lists.{any, is_empty}
use bee_engine.Shared.Leaf.{Primitives}
use bee_engine.Miner.Merkle.{MerkleTree}
use bee_engine.Miner.Context.{MiningCore, new_core, compute, get_merkle}
use bee_engine.Miner.Submission.{submit_session_proof}
use bee_engine.Miner.Front.{
  start, queued, MinerWorker, computing, submitting, MinerCommand, stop_command, queue_tap,
  send_session_interval, process_session_accepted, process_session_rejected, is_submitting, Miner,
  update_worker_status, Phase, spawned, resolving, mining, waiting, sending_root, awaiting_interval,
  Task, Input, resume, fetched, tick, turn, root_submitted, others_submit, resolved_complexity,
  received, end_task,
}
use bee_engine.Miner.Front.Advance.{
  Outcome, begin, resolve, finalize, next_round, mine, try_submit, handle, after_root, advance,
}

-- Whether a task has sent the root, or is about to, and has not yet heard the end of it.
abbrev pub is_sending : {Tree : Type 0} → Phase Tree → Bool
is_sending spawned = false
is_sending (resolving flight) = false
is_sending (mining start_ms a b) = false
is_sending (waiting a b) = false
is_sending (sending_root a b) = true
is_sending (awaiting_interval a b) = true

-- The task goes on, perhaps with a new status of its worker, which is `submitting` only where no
-- worker was; or it is over, and its seed is used up or back at the front of the queue. A task that
-- was not sending sends only with that status.
pub data Touched {Tree : Type 0} (s : Miner) (t : Task Tree) (was : Bool)
    : Miner → Option (Task Tree) → Type 0 where
  goes_on :
      (phase : Phase Tree)
      → (is_sending phase ≡ true → was ≡ true)
      → Touched s t was s (some (record t { phase = phase }))
  computes :
      (phase : Phase Tree)
      → is_sending phase ≡ false
      → Touched s t was
          (record s { workers = update_worker_status t.id computing s.workers })
          (some (record t { phase = phase }))
  submits :
      (phase : Phase Tree)
      → any is_submitting s.workers ≡ false
      → Touched s t was
          (record s { workers = update_worker_status t.id submitting s.workers })
          (some (record t { phase = phase }))
  ends : Touched s t was (end_task s t).0 none
  gives_back : Touched s t was (end_task (record s { seeds = t.seed ∷ s.seeds }) t).0 none

-- What a start takes and what it adds.
pub start_workers :
    {Tree : Type 0} (id duration_ms : ℕ) (seeds : List Bytes) (complexity : ℕ × ℕ)
    (ws : List MinerWorker) (after : Miner) (t : Task Tree)
    → start id duration_ms (record { seeds = seeds; complexity = complexity; workers = ws })
      ≡ some (after, t)
    → (seed : Bytes) × (rest : List Bytes) × (seeds ≡ seed ∷ rest)
      × (after.seeds ≡ rest)
      × (t.seed ≡ seed)
      × (after.workers ≡ ws ++ record { id = id; status = queued; seed = seed } ∷ [])
unfolding start
start_workers id duration_ms [] complexity ws after t h = absurd (ground arith)
start_workers id duration_ms (seed ∷ rest) complexity ws after t h =
    (seed, rest, refl, ground arith, ground arith, ground arith)

module _ (c : Primitives) (m : MerkleTree) where
  open m use {Tree}

  abbrev pub Leads : Miner → Task Tree → Bool → Outcome c m → Type 0
  Leads s t was o =
      (after : Miner) (left : Option (Task Tree))
      → o ≡ some (after, left)
      → Touched s t was after left

  to :
      (s : Miner) (t : Task Tree) {was : Bool} (after : Miner) (left : Option (Task Tree))
      → Touched s t was after left
      → Leads s t was (some (after, left))
  to s t {was} after left touched after' left' h =
      subst (λ (x : Miner × Option (Task Tree)). Touched s t was x.0 x.1)
        (ap (pair_of (after, left)) h) touched
    where
      pair_of : Miner × Option (Task Tree) → Outcome c m → Miner × Option (Task Tree)
      pair_of d none = d
      pair_of d (some p) = p

  nowhere : (s : Miner) (t : Task Tree) → Leads s t false none
  nowhere s t after left h = absurd (ground arith)

  finalize_lem :
      (s : Miner) (t : Task Tree) (a b : MiningCore Tree) → Leads s t false (finalize c m s t a b)
  unfolding finalize end_task
  finalize_lem s t a b =
      elim (Bool-cases
        (is_empty (get_merkle c m a).1.leaves || is_empty (get_merkle c m b).1.leaves)) [
          | inl e ↦
              rw (e, finalize)
                (to s t (end_task (record s { seeds = t.seed ∷ s.seeds }) t).0 none gives_back)
          | inr e ↦
              let phase = waiting (get_merkle c m a).0 (get_merkle c m b).0 in
              rw (e, finalize)
                (to s t s (some (record t { phase = phase })) (goes_on phase (λ x. absurd (cc))))
        ]

  next_round_lem :
      (s : Miner) (t : Task Tree) (start_ms now_ms : ℕ) (a b : MiningCore Tree)
      → Leads s t false (next_round c m s t start_ms now_ms a b)
  unfolding next_round
  next_round_lem s t start_ms now_ms a b =
      elim (Bool-cases (leb (start_ms + t.duration_ms) now_ms)) [
        | inl e ↦ rw (e, next_round) (finalize_lem s t a b)
        | inr e ↦
            let phase = mining start_ms a b in
            rw (e, next_round)
              (to s t s (some (record t { phase = phase })) (goes_on phase (λ x. absurd (cc))))
      ]

  mine_lem :
      (s : Miner) (t : Task Tree) (start_ms : ℕ) (a b : MiningCore Tree) (fuel now_ms : ℕ)
      (command : Option MinerCommand)
      → Leads s t false (mine c m s t start_ms a b fuel now_ms command)
  unfolding mine
  mine_lem s t start_ms a b fuel now_ms none =
      elim (Option-cases (compute c m fuel a (record { x = 0; y = 0; now_ms = now_ms }))) [
        | inl e ↦ rw (e, mine) (nowhere s t)
        | inr (r, e) ↦ rw (e, mine) (next_round_lem s t start_ms now_ms r.0 b)
      ]
  mine_lem s t start_ms a b fuel now_ms (some (queue_tap x y)) =
      elim (Option-cases (compute c m fuel b (record { x = x; y = y; now_ms = now_ms }))) [
        | inl e ↦ rw (e, mine) (nowhere s t)
        | inr (r, e) ↦ rw (e, mine) (next_round_lem s t start_ms now_ms a r.0)
      ]
  mine_lem s t start_ms a b fuel now_ms (some stop_command) = finalize_lem s t a b
  mine_lem s t start_ms a b fuel now_ms (some (send_session_interval i)) =
      next_round_lem s t start_ms now_ms a b
  mine_lem s t start_ms a b fuel now_ms (some process_session_accepted) =
      next_round_lem s t start_ms now_ms a b
  mine_lem s t start_ms a b fuel now_ms (some process_session_rejected) =
      next_round_lem s t start_ms now_ms a b

  try_submit_lem :
      (s : Miner) (t : Task Tree) (a b : MiningCore Tree) → Leads s t false (try_submit c m s t a b)
  unfolding try_submit
  try_submit_lem s t a b = elim (Bool-cases (any is_submitting s.workers)) [
    | inl e ↦
        let phase = waiting a b in
        rw (e, try_submit)
          (to s t s (some (record t { phase = phase })) (goes_on phase (λ x. absurd (cc))))
    | inr e ↦
        let phase = sending_root a b in
        rw (e, try_submit)
          (to s t (record s { workers = update_worker_status t.id submitting s.workers })
            (some (record t { phase = phase })) (submits phase e))
  ]

  ended : (s : Miner) (t : Task Tree) → Leads s t true (some (end_task s t))
  unfolding end_task
  ended s t = to s t (end_task s t).0 none ends

  awaits :
      (s : Miner) (t : Task Tree) (was : Bool) (phase : Phase Tree)
      → (is_sending phase ≡ true → was ≡ true)
      → Leads s t was (some (s, some (record t { phase = phase })))
  awaits s t was phase same = to s t s (some (record t { phase = phase })) (goes_on phase same)

  handle_lem :
      (s : Miner) (t : Task Tree) (a b : MiningCore Tree) (command : Option MinerCommand)
      (proof_sent : Bool)
      → Leads s t true (handle c m s t a b command proof_sent)
  unfolding handle
  handle_lem s t a b none proof_sent = ended s t
  handle_lem s t a b (some (send_session_interval i)) proof_sent =
      elim (Bool-cases
        (is_ok (submit_session_proof c m a b (get_merkle c m b).1 i) && proof_sent)) [
          | inl e ↦ rw (e, handle) (awaits s t true (awaiting_interval a b) (λ x. refl))
          | inr e ↦ rw (e, handle) (ended s t)
        ]
  handle_lem s t a b (some process_session_accepted) proof_sent = ended s t
  handle_lem s t a b (some process_session_rejected) proof_sent = ended s t
  handle_lem s t a b (some stop_command) proof_sent =
      awaits s t true (awaiting_interval a b) (λ x. refl)
  handle_lem s t a b (some (queue_tap x y)) proof_sent =
      awaits s t true (awaiting_interval a b) (λ x. refl)

  after_root_lem :
      (s : Miner) (t : Task Tree) (a b : MiningCore Tree) (submitted : Bool)
      → Leads s t true (after_root c m s t a b submitted)
  unfolding after_root
  after_root_lem s t a b true = awaits s t true (awaiting_interval a b) (λ x. refl)
  after_root_lem s t a b false = ended s t

  begin_lem : (s : Miner) (t : Task Tree) → Leads s t false (begin c m s t)
  unfolding begin
  begin_lem s t =
      let workers = update_worker_status t.id computing s.workers in
      let phase = resolving (others_submit t.id workers) in
      to s t (record s { workers = workers }) (some (record t { phase = phase }))
        (computes phase refl)

  -- Every step of a task is one of these.
  pub advance-Touched :
      (s : Miner) (t : Task Tree) (phase : Phase Tree) (i : Input phase)
      → Leads s t (is_sending phase) (advance c m s t phase i)
  unfolding advance resolve
  advance-Touched s t spawned resume = begin_lem s t
  advance-Touched s t (resolving flight) (fetched data' now_ms) =
      let (easy, hard) = resolved_complexity t flight data' in
      awaits s t false
        (mining now_ms (new_core c m t.seed t.duration_ms easy)
          (new_core c m t.seed t.duration_ms hard))
        (λ x. absurd (cc))
  advance-Touched s t (mining start_ms a b) (tick fuel now_ms command) =
      mine_lem s t start_ms a b fuel now_ms command
  advance-Touched s t (waiting a b) turn = try_submit_lem s t a b
  advance-Touched s t (sending_root a b) (root_submitted submitted) =
      after_root_lem s t a b submitted
  advance-Touched s t (awaiting_interval a b) (received command proof_sent) =
      handle_lem s t a b command proof_sent
