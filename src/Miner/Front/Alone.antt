-- ===== src/Miner/Front/Alone.antt =====
-- No two tasks send, of those whose workers are in the list.
use bee_engine.Base.{
  ℕ, ◌≤◌, ◌≡◌, refl, Bool, true, false, not, List, [], ◌∷◌, ◌++◌, Option, some, arith, ◌==◌,
}
use bee_engine.Base.Bytes.{Bytes}
use bee_engine.Base.Lists.{any, retain}
use bee_engine.Shared.Leaf.{Primitives}
use bee_engine.Miner.Merkle.{MerkleTree}
use bee_engine.Miner.Front.{
  queued, MinerWorker, is_queued, Miner, new_miner, stop, start, remove_seed, seed_updated,
  complexity_updated, Task,
}
use bee_engine.Miner.Front.Touched.{is_sending, start_workers, Touched, advance-Touched}
use bee_engine.Miner.Front.Steps.{
  System, keep, Step, Steps, here, then_step, starts, stops, removes_seed, updates_seed,
  updates_complexity, advances,
}
use bee_engine.Miner.Front.Submitting.{count, count-append, none_counted, submitters, Step-one}
use bee_engine.Miner.Front.Sending.{
  added_stray, one_sends, own_pass, stray, others_pass, keep_append, started, same_id, own_ids,
  count_others, not_stray, count_all, still_stray, sends,
}

-- The ids of the tasks differ, and no task is stray.
record Alone {Tree : Type 0} (s : System Tree) : Type 0 where
  one : submitters s.miner.workers ≤ 1
  distinct : (i : ℕ) → count (same_id i) s.tasks ≤ 1
  strays : count (stray s.miner.workers) s.tasks ≡ 0

module _ (c : Primitives) (m : MerkleTree) where
  open m use {Tree}

  -- A new worker has an id that no task has.
  abbrev pub Fresh : {s t : System Tree} → Step c m s t → Type 0
  Fresh (starts s id duration_ms after t h) = any (same_id id) s.tasks ≡ false
  Fresh (stops s) = Unit {0}
  Fresh (removes_seed s seed) = Unit {0}
  Fresh (updates_seed s seed) = Unit {0}
  Fresh (updates_complexity s complexity) = Unit {0}
  Fresh (advances miner before t others i after left h) = Unit {0}

  abbrev pub AllFresh : {s t : System Tree} → Steps c m s t → Type 0
  AllFresh here = Unit {0}
  AllFresh (then_step before last) = AllFresh before × Fresh last

  starts-Alone :
      (s : System Tree) (id duration_ms : ℕ) (after : Miner) (t : Task Tree)
      (h : start id duration_ms s.miner ≡ some (after, t))
      → any (same_id id) s.tasks ≡ false
      → Alone s
      → Alone (record { miner = after; tasks = s.tasks ++ t ∷ [] })
  starts-Alone s id duration_ms after t h fresh v =
      let (same, quiet) =
        started id duration_ms s.miner.seeds s.miner.complexity s.miner.workers after t h in
      let (seed, _, _, _, _, workers) =
        start_workers id duration_ms s.miner.seeds s.miner.complexity s.miner.workers after t h in
      let nobody = none_counted (same_id id) s.tasks fresh in
      record {
        one = Step-one c m (starts s id duration_ms after t h) v.one;
        distinct = λ i.
            ground (arith, v.distinct i, count-append (same_id i) s.tasks (t ∷ []), nobody, same);
        strays =
            let entry : MinerWorker = record { id = id; status = queued; seed = seed } in
            omega (
              arith,
              v.strays,
              count-append (stray after.workers) s.tasks (t ∷ []),
              not_stray after.workers t quiet,
              count_others (stray after.workers) (stray s.miner.workers) id s.tasks nobody
                  (λ t' other h'. added_stray s.miner.workers entry t' other (rw workers at h')),
            );
      }

  advances-Alone :
      (miner : Miner) (before : List (Task Tree)) (t : Task Tree) (others : List (Task Tree))
      (after : Miner) (left : Option (Task Tree))
      → Touched miner t (is_sending t.phase) after left
      → submitters after.workers ≤ 1
      → Alone (record { miner = miner; tasks = before ++ t ∷ others })
      → Alone (record { miner = after; tasks = before ++ keep left others })
  advances-Alone miner before t others after left touched one v = record {
    one = one;
    distinct = λ i. omega (
      arith,
      v.distinct i,
      count-append (same_id i) before (t ∷ others),
      count-append (same_id i) before (keep left others),
      keep_append (same_id i) left others,
      own_ids miner t after left i touched,
    );
    strays =
        let here_once = v.distinct t.id in
        let same : (t.id == t.id) ≡ true = ground arith in
        let apart = count-append (same_id t.id) before (t ∷ others) in
        let before_differ : count (same_id t.id) before ≡ 0 = ground arith in
        let others_differ : count (same_id t.id) others ≡ 0 = ground arith in
        let pass = others_pass miner t after left touched in
        omega (
          arith,
          v.strays,
          count-append (stray after.workers) before (keep left others),
          keep_append (stray after.workers) left others,
          count-append (stray miner.workers) before (t ∷ others),
          own_pass miner t after left touched,
          count_others (stray after.workers) (stray miner.workers) t.id before before_differ pass,
          count_others (stray after.workers) (stray miner.workers) t.id others others_differ pass,
        );
  }

  Step-Alone : {s t : System Tree} (step : Step c m s t) → Fresh step → Alone s → Alone t
  unfolding stop remove_seed seed_updated complexity_updated
  Step-Alone (starts s id duration_ms after t h) fresh v =
      starts-Alone s id duration_ms after t h fresh v
  Step-Alone (stops s) fresh v = record {
    one = Step-one c m (stops s) v.one;
    distinct = v.distinct;
    strays = omega (
      arith,
      v.strays,
      count_all (stray (retain (λ w. not (is_queued w)) s.miner.workers)) (stray s.miner.workers)
          s.tasks (still_stray s.miner.workers),
    );
  }
  Step-Alone (removes_seed s seed) fresh v = record {
    one = v.one;
    distinct = v.distinct;
    strays = v.strays;
  }
  Step-Alone (updates_seed s seed) fresh v = record {
    one = v.one;
    distinct = v.distinct;
    strays = v.strays;
  }
  Step-Alone (updates_complexity s complexity) fresh v = record {
    one = v.one;
    distinct = v.distinct;
    strays = v.strays;
  }
  Step-Alone (advances miner before t others i after left h) fresh v =
      let touched = advance-Touched c m miner t t.phase i after left h in
      advances-Alone miner before t others after left touched
        (Step-one c m (advances miner before t others i after left h) v.one) v

  Steps-Alone : {s t : System Tree} (steps : Steps c m s t) → AllFresh steps → Alone s → Alone t
  Steps-Alone here fresh v = v
  Steps-Alone (then_step before last) (fresh, new) v =
      Step-Alone last new (Steps-Alone before fresh v)

  -- However the tasks of the workers, the calls from JavaScript and the events of the contract
  -- interleave from a new miner, if each new worker gets an id that no task has: of the tasks whose
  -- worker is in the list of workers, at most one is sending its root or waits, with the root sent,
  -- for what the contract answers. A task whose worker `stop` took off the list is not counted.
  pub one_task_sends :
      {t : System Tree} (stale : Bool) (seed next_seed : Bytes) (complexity : ℕ × ℕ)
      (steps : Steps c m
        (record { miner = new_miner stale seed next_seed complexity; tasks = [] })
        t)
      → AllFresh steps
      → count (sends t.miner.workers) t.tasks ≤ 1
  unfolding new_miner
  one_task_sends {t} stale seed next_seed complexity steps fresh =
      let alone : Alone (record { miner = new_miner stale seed next_seed complexity; tasks = [] }) =
        record { one = omega arith; distinct = λ i. omega arith; strays = refl } in
      let v : Alone t = Steps-Alone steps fresh alone in
      one_sends t.miner.workers t.tasks v.one v.distinct v.strays
