-- ===== src/Miner/Context/Timeline.antt =====
-- The times of a session's leaves.
use bee_engine.Base.{
  ℕ, ◌+◌, ◌≤◌, ◌<◌, ◌≡◌, refl, ap, subst, ◌∙◌, true, false, Option, none, some, List, [], ◌∷◌, ◌++◌,
  arith, Option-cases, inl, inr, min, ◌≢◌,
}
use bee_engine.Base.Bytes.{Bytes}
use bee_engine.Base.Lists.{All, All-append}
use bee_engine.Shared.Leaf.{Primitives, ComputedLeaf}
use bee_engine.Shared.Leaf
use bee_engine.Miner.Merkle.{MerkleTree}
use bee_engine.Miner.Processor.{with_nonce, calc_hash_blake, calc_hash_blake_sound}
use bee_engine.Miner.Context.{
  MiningCore, ParamsOfCompute, Call, tap, take_merkle, restart, u64_max, set_deadline,
  deadline_reached_ms, runs_backwards, calc_params, new_core, run_job, compute, commit_once,
  get_merkle, reset, step, run,
}

-- The times do not fall along the list, and none is above `bound`.
abbrev pub Chronological : List ComputedLeaf → ℕ → Type 0
Chronological [] bound = Unit {0}
Chronological (l ∷ ls) bound =
    (l.timestamp ≤ bound) × All (λ k. l.timestamp ≤ k.timestamp) ls × Chronological ls bound

Chronological-snoc :
    (ls : List ComputedLeaf) (l : ComputedLeaf) (bound : ℕ)
    → Chronological ls bound
    → bound ≤ l.timestamp
    → Chronological (ls ++ l ∷ []) l.timestamp
Chronological-snoc [] l bound h le = (omega arith, tt, tt)
Chronological-snoc (k ∷ ls) l bound h le = (
  omega arith,
  All-append _ ls (l ∷ []) h.1 (omega arith, tt),
  Chronological-snoc ls l bound h.2 le,
)

-- The time of the last accepted job, or 0.
abbrev pub watermark : Option ℕ → ℕ
watermark none = 0
watermark (some t) = t

-- The times of the leaves lie before the deadline, if one is set.
abbrev pub BeforeEnd : List ComputedLeaf → Option ℕ → Type 0
BeforeEnd ls none = ls ≡ []
BeforeEnd ls (some end) = All (λ l. l.timestamp < end) ls

pub record Timely {Tree : Type 0} (s : MiningCore Tree) : Type 0 where
  pub ordered : Chronological s.completed (watermark s.last_now_ms)
  pub in_time : BeforeEnd s.completed s.ends_at_ms

module _ (c : Primitives) (m : MerkleTree) where
  open m use {Tree}

  deadline_set :
      (now duration : ℕ) (ls : List ComputedLeaf)
      → ls ≡ []
      → BeforeEnd ls (some (min (now + duration) u64_max))
  deadline_set now duration [] e = tt
  deadline_set now duration (l ∷ ls) e = cc

  set_deadline-Timely : (now : ℕ) (s : MiningCore Tree) → Timely s → Timely (set_deadline now s)
  unfolding set_deadline
  set_deadline-Timely now s v = elim (Option-cases s.ends_at_ms) [
    | inl e ↦
        rw (e, set_deadline)
          (record {
            ordered = v.ordered;
            in_time = deadline_set now s.duration_ms s.completed (rw e at v.in_time);
          })
    | inr (end, e) ↦ rw (e, set_deadline) v
  ]

  forward_le : (prev : Option ℕ) (now : ℕ) → runs_backwards prev now ≡ false → watermark prev ≤ now
  unfolding runs_backwards
  forward_le none now h = omega arith
  forward_le (some t) now h = ground arith

  in_time-snoc :
      (ls : List ComputedLeaf) (l : ComputedLeaf) (end : Option ℕ)
      → end ≢ none
      → BeforeEnd ls end
      → deadline_reached_ms end l.timestamp ≡ false
      → BeforeEnd (ls ++ l ∷ []) end
  unfolding deadline_reached_ms
  in_time-snoc ls l none set h early = absurd (set refl)
  in_time-snoc ls l (some end) set h early = All-append _ ls (l ∷ []) h (ground arith, tt)

  run_job-Timely :
      (fuel : ℕ) (s : MiningCore Tree) (p : ParamsOfCompute) (t : MiningCore Tree)
      (r : Option ComputedLeaf)
      → Timely s
      → s.ends_at_ms ≢ none
      → deadline_reached_ms s.ends_at_ms p.now_ms ≡ false
      → runs_backwards s.last_now_ms p.now_ms ≡ false
      → run_job c m fuel (record s { last_now_ms = some p.now_ms }) p ≡ some (t, r)
      → Timely t
  unfolding run_job Leaf.compute calc_params
  run_job-Timely fuel s p t r v set early forward h =
      elim (Option-cases (calc_hash_blake c m fuel s.tree (calc_params stamped p))) [
        | inl dry ↦ absurd (ground arith)
        | inr ((l, tree), e) ↦
            let (n, computed, _, _) =
              calc_hash_blake_sound c m fuel s.tree (calc_params stamped p) l tree e in
            let time : l.timestamp ≡ p.now_ms = ap (λ k. k.timestamp) computed ∙ stamp n in
            let same : record stamped { tree = tree; completed = s.completed ++ l ∷ [] } ≡ t =
              ground arith in
            subst Timely same (record {
              ordered = rw (← time) (
                  Chronological-snoc s.completed l (watermark s.last_now_ms) v.ordered
                    (rw time (forward_le s.last_now_ms p.now_ms forward)));
              in_time = in_time-snoc s.completed l s.ends_at_ms set v.in_time (rw time early);
            })
      ]
    where
      stamped : MiningCore Tree
      stamped = record s { last_now_ms = some p.now_ms }

      stamp : (n : ℕ) → (Leaf.compute c (with_nonce (calc_params stamped p) n)).timestamp ≡ p.now_ms
      stamp n = refl

  deadline_is_set : (now : ℕ) (s : MiningCore Tree) → (set_deadline now s).ends_at_ms ≢ none
  unfolding set_deadline
  deadline_is_set now s = elim (Option-cases s.ends_at_ms) [
    | inl e ↦ λ h. ground arith
    | inr (end, e) ↦ λ h. ground arith
  ]

  compute-Timely :
      (fuel : ℕ) (s : MiningCore Tree) (p : ParamsOfCompute) (t : MiningCore Tree)
      (r : Option ComputedLeaf)
      → Timely s
      → compute c m fuel s p ≡ some (t, r)
      → Timely t
  unfolding compute
  compute-Timely fuel s p t r v h = ground (
    arith,
    set_deadline-Timely p.now_ms s v,
    run_job-Timely fuel (set_deadline p.now_ms s) p t r (set_deadline-Timely p.now_ms s v)
        (deadline_is_set p.now_ms s),
  )

  step-Timely :
      (s : MiningCore Tree) (k : Call) (t : MiningCore Tree)
      → Timely s
      → step c m s k ≡ some t
      → Timely t
  unfolding step get_merkle reset
  step-Timely s (tap fuel p) t v h = elim (Option-cases (compute c m fuel s p)) [
    | inl e ↦ absurd (ground arith)
    | inr ((u, r), e) ↦
        let same : u ≡ t = ground arith in subst Timely same (compute-Timely fuel s p u r v e)
  ]
  step-Timely s take_merkle t v h =
      subst Timely {x = commit_once c m s} (ground arith) (ground (arith, sealed))
    where
      sealed : Timely (record s { tree = m.commit s.tree; committed = true })
      sealed = record { ordered = v.ordered; in_time = v.in_time }
  step-Timely s restart t v h =
      subst Timely {x = reset c m s} (ground arith) (record { ordered = tt; in_time = refl })

  run_from-Timely :
      (s : MiningCore Tree) (ks : List Call) (t : MiningCore Tree)
      → Timely s
      → run c m s ks ≡ some t
      → Timely t
  unfolding run
  run_from-Timely s [] t v h = let same : s ≡ t = ground arith in subst Timely same v
  run_from-Timely s (k ∷ ks) t v h = elim (Option-cases (step c m s k)) [
    | inl e ↦ absurd (ground arith)
    | inr (u, e) ↦ run_from-Timely u ks t (step-Timely s k u v e) (ground arith)
  ]

  -- After any history of a fresh session the times of the completed leaves do not fall along the
  -- list, none is above the time of the last accepted job, and all lie before the session's deadline;
  -- a session with no deadline set has no leaf.
  pub run-Timely :
      (seed : Bytes) (duration_ms target_bits : ℕ) (ks : List Call) (t : MiningCore Tree)
      → run c m (new_core c m seed duration_ms target_bits) ks ≡ some t
      → Timely t
  unfolding new_core
  run-Timely seed duration_ms target_bits ks t h =
      run_from-Timely (new_core c m seed duration_ms target_bits) ks t
        (record { ordered = tt; in_time = refl }) h
