-- ===== src/Miner/Front/Soundness.antt =====
-- Every step of a task keeps its two sessions as they should be.
use bee_engine.Base.{
  ℕ, ◌+◌, ◌≡◌, refl, sym, ap, subst, ◌∙◌, Bool, true, false, ◌||◌, ◌&&◌, List, [], ◌∷◌, ◌++◌,
  Option, none, some, arith, Bool-cases, Option-cases, inl, inr, is_ok, leb,
}
use bee_engine.Base.Bytes.{Bytes}
use bee_engine.Base.Lists.{any, is_empty, All, All-append}
use bee_engine.Shared.Leaf.{Primitives}
use bee_engine.Miner.Merkle.{MerkleTree}
use bee_engine.Miner.Context.{MiningCore, ParamsOfCompute, new_core, compute, get_merkle}
use bee_engine.Miner.Submission.{submit_session_proof}
use bee_engine.Miner.Front.{
  start, MinerWorker, computing, submitting, MinerCommand, stop_command, queue_tap,
  send_session_interval, process_session_accepted, process_session_rejected, is_submitting, Miner,
  update_worker_status, Phase, spawned, resolving, mining, waiting, sending_root, awaiting_interval,
  Task, Input, resume, fetched, tick, turn, root_submitted, received, others_submit,
  resolved_complexity, end_task,
}
use bee_engine.Miner.Front.Advance.{
  Outcome, begin, resolve, finalize, next_round, mine, try_submit, handle, after_root, advance,
}
use bee_engine.Miner.Front.Steps.{
  System, keep, Step, Steps, here, then_step, starts, stops, removes_seed, updates_seed,
  updates_complexity, advances,
}
use bee_engine.Miner.Front.Sessions.{Mined, Sealed, Sound, tapped, sealed, fresh}

module _ (c : Primitives) (m : MerkleTree) where
  open m use {Tree}

  -- Where an outcome leaves a task, its sessions are as they should be.
  abbrev Goes : Task Tree → Outcome c m → Type 0
  Goes t o =
      (after : Miner) (left : Task Tree) → o ≡ some (after, some left) → Sound c m left left.phase

  to : (s : Miner) (t : Task Tree) → Sound c m t t.phase → Goes t (some (s, some t))
  to s t v after left h = subst (λ x. Sound c m x x.phase) (ap (task_of t) h) v
    where
      task_of : Task Tree → Outcome c m → Task Tree
      task_of d none = d
      task_of d (some (q, none)) = d
      task_of d (some (q, some x)) = x

  over : (s : Miner) (t : Task Tree) → Goes t (some (s, none))
  over s t after left h = absurd (ground arith)

  nowhere : (t : Task Tree) → Goes t none
  nowhere t after left h = absurd (ground arith)

  finalize_sound :
      (s : Miner) (t : Task Tree) (a b : MiningCore Tree)
      → Mined c m t.seed t.duration_ms a
      → Mined c m t.seed t.duration_ms b
      → Goes t (finalize c m s t a b)
  unfolding finalize end_task
  finalize_sound s t a b va vb =
      elim (Bool-cases
        (is_empty (get_merkle c m a).1.leaves || is_empty (get_merkle c m b).1.leaves)) [
          | inl e ↦ rw (e, finalize) (over (end_task (record s { seeds = t.seed ∷ s.seeds }) t).0 t)
          | inr e ↦
              rw (e, finalize)
                (to s (record t { phase = waiting (get_merkle c m a).0 (get_merkle c m b).0 })
                  (
                    sealed c m t.seed t.duration_ms a va (ground arith),
                    sealed c m t.seed t.duration_ms b vb (ground arith),
                  ))
        ]

  next_round_sound :
      (s : Miner) (t : Task Tree) (start_ms now_ms : ℕ) (a b : MiningCore Tree)
      → Mined c m t.seed t.duration_ms a
      → Mined c m t.seed t.duration_ms b
      → Goes t (next_round c m s t start_ms now_ms a b)
  unfolding next_round
  next_round_sound s t start_ms now_ms a b va vb =
      elim (Bool-cases (leb (start_ms + t.duration_ms) now_ms)) [
        | inl e ↦ rw (e, next_round) (finalize_sound s t a b va vb)
        | inr e ↦ rw (e, next_round) (to s (record t { phase = mining start_ms a b }) (va, vb))
      ]

  mine_sound :
      (s : Miner) (t : Task Tree) (start_ms : ℕ) (a b : MiningCore Tree) (fuel now_ms : ℕ)
      (command : Option MinerCommand)
      → Mined c m t.seed t.duration_ms a
      → Mined c m t.seed t.duration_ms b
      → Goes t (mine c m s t start_ms a b fuel now_ms command)
  unfolding mine
  mine_sound s t start_ms a b fuel now_ms none va vb =
      let p : ParamsOfCompute = record { x = 0; y = 0; now_ms = now_ms } in
      elim (Option-cases (compute c m fuel a p)) [
        | inl e ↦ rw (e, mine) (nowhere t)
        | inr (r, e) ↦
            rw (e, mine)
              (next_round_sound s t start_ms now_ms r.0 b
                (tapped c m t.seed t.duration_ms fuel p a r.0 r.1 va e) vb)
      ]
  mine_sound s t start_ms a b fuel now_ms (some (queue_tap x y)) va vb =
      let p : ParamsOfCompute = record { x = x; y = y; now_ms = now_ms } in
      elim (Option-cases (compute c m fuel b p)) [
        | inl e ↦ rw (e, mine) (nowhere t)
        | inr (r, e) ↦
            rw (e, mine)
              (next_round_sound s t start_ms now_ms a r.0 va
                (tapped c m t.seed t.duration_ms fuel p b r.0 r.1 vb e))
      ]
  mine_sound s t start_ms a b fuel now_ms (some stop_command) va vb = finalize_sound s t a b va vb
  mine_sound s t start_ms a b fuel now_ms (some (send_session_interval i)) va vb =
      next_round_sound s t start_ms now_ms a b va vb
  mine_sound s t start_ms a b fuel now_ms (some process_session_accepted) va vb =
      next_round_sound s t start_ms now_ms a b va vb
  mine_sound s t start_ms a b fuel now_ms (some process_session_rejected) va vb =
      next_round_sound s t start_ms now_ms a b va vb

  handle_sound :
      (s : Miner) (t : Task Tree) (a b : MiningCore Tree) (command : Option MinerCommand)
      (proof_sent : Bool)
      → Sealed c m t.seed t.duration_ms a × Sealed c m t.seed t.duration_ms b
      → Goes t (handle c m s t a b command proof_sent)
  unfolding handle end_task
  handle_sound s t a b none proof_sent v = over (end_task s t).0 t
  handle_sound s t a b (some (send_session_interval i)) proof_sent v =
      elim (Bool-cases
        (is_ok (submit_session_proof c m a b (get_merkle c m b).1 i) && proof_sent)) [
          | inl e ↦ rw (e, handle) (to s (record t { phase = awaiting_interval a b }) v)
          | inr e ↦ rw (e, handle) (over (end_task s t).0 t)
        ]
  handle_sound s t a b (some process_session_accepted) proof_sent v = over (end_task s t).0 t
  handle_sound s t a b (some process_session_rejected) proof_sent v = over (end_task s t).0 t
  handle_sound s t a b (some stop_command) proof_sent v =
      to s (record t { phase = awaiting_interval a b }) v
  handle_sound s t a b (some (queue_tap x y)) proof_sent v =
      to s (record t { phase = awaiting_interval a b }) v

  try_submit_sound :
      (s : Miner) (t : Task Tree) (a b : MiningCore Tree)
      → Sealed c m t.seed t.duration_ms a × Sealed c m t.seed t.duration_ms b
      → Goes t (try_submit c m s t a b)
  unfolding try_submit
  try_submit_sound s t a b v = elim (Bool-cases (any is_submitting s.workers)) [
    | inl e ↦ rw (e, try_submit) (to s (record t { phase = waiting a b }) v)
    | inr e ↦
        rw (e, try_submit)
          (to (record s { workers = update_worker_status t.id submitting s.workers })
            (record t { phase = sending_root a b }) v)
  ]

  advance_sound :
      (s : Miner) (t : Task Tree) (phase : Phase Tree) (i : Input phase)
      → Sound c m t phase
      → Goes t (advance c m s t phase i)
  unfolding advance begin resolve after_root end_task
  advance_sound s t spawned resume v =
      let workers = update_worker_status t.id computing s.workers in
      to (record s { workers = workers })
        (record t { phase = resolving (others_submit t.id workers) }) tt
  advance_sound s t (resolving flight) (fetched data' now_ms) v =
      let (easy, hard) = resolved_complexity t flight data' in
      to s
        (record t {
          phase =
              mining now_ms (new_core c m t.seed t.duration_ms easy)
                (new_core c m t.seed t.duration_ms hard);
        })
        (fresh c m t.seed t.duration_ms easy, fresh c m t.seed t.duration_ms hard)
  advance_sound s t (mining start_ms a b) (tick fuel now_ms command) v =
      mine_sound s t start_ms a b fuel now_ms command v.0 v.1
  advance_sound s t (waiting a b) turn v = try_submit_sound s t a b v
  advance_sound s t (sending_root a b) (root_submitted true) v =
      to s (record t { phase = awaiting_interval a b }) v
  advance_sound s t (sending_root a b) (root_submitted false) v = over (end_task s t).0 t
  advance_sound s t (awaiting_interval a b) (received command proof_sent) v =
      handle_sound s t a b command proof_sent v

  started-Sound :
      (id duration_ms : ℕ) (seeds : List Bytes) (complexity : ℕ × ℕ) (ws : List MinerWorker)
      (after : Miner) (t : Task Tree)
      → start id duration_ms (record { seeds = seeds; complexity = complexity; workers = ws })
        ≡ some (after, t)
      → Sound c m t t.phase
  unfolding start
  started-Sound id duration_ms [] complexity ws after t h = absurd (ground arith)
  started-Sound id duration_ms (seed ∷ rest) complexity ws after t h =
      let idle : t.phase ≡ spawned = ground arith in subst (Sound c m t) (sym idle) tt

  abbrev pub AllSound : List (Task Tree) → Type 0
  AllSound ts = All (λ t. Sound c m t t.phase) ts

  replaced :
      (before : List (Task Tree)) (t : Task Tree) (others : List (Task Tree))
      (left : Option (Task Tree))
      → ((x : Task Tree) → left ≡ some x → Sound c m x x.phase)
      → AllSound (before ++ t ∷ others)
      → AllSound (before ++ keep left others)
  replaced [] t others none v h = h.1
  replaced [] t others (some x) v h = (v x refl, h.1)
  replaced (b ∷ before) t others left v h = (h.0, replaced before t others left v h.1)

  middle :
      (before : List (Task Tree)) (t : Task Tree) (others : List (Task Tree))
      → AllSound (before ++ t ∷ others)
      → Sound c m t t.phase
  middle [] t others h = h.0
  middle (b ∷ before) t others h = middle before t others h.1

  Step-AllSound : {s t : System Tree} → Step c m s t → AllSound s.tasks → AllSound t.tasks
  Step-AllSound (starts s id duration_ms after t h) v =
      All-append _ s.tasks (t ∷ []) v (
        started-Sound id duration_ms s.miner.seeds s.miner.complexity s.miner.workers after t h,
        tt,
      )
  Step-AllSound (stops s) v = v
  Step-AllSound (removes_seed s seed) v = v
  Step-AllSound (updates_seed s seed) v = v
  Step-AllSound (updates_complexity s complexity) v = v
  Step-AllSound (advances miner before t others i after left h) v =
      replaced before t others left
        (λ x e.
          advance_sound miner t t.phase i (middle before t others v) after x
            (h ∙ ap (λ l. some (after, l)) e))
        v

  -- In every interleaving, the two sessions of a task that mines are histories of a fresh session on
  -- its seed; and from the moment it waits for its turn to submit, both are committed and have a
  -- leaf; if that was so at the beginning.
  pub tasks_sound : {s t : System Tree} → Steps c m s t → AllSound s.tasks → AllSound t.tasks
  tasks_sound here v = v
  tasks_sound (then_step before last) v = Step-AllSound last (tasks_sound before v)
