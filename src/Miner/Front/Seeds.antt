-- ===== src/Miner/Front/Seeds.antt =====
-- Where a seed is: in the queue, or with a task.
use bee_engine.Base.{
  ℕ, ◌+◌, ◌≤◌, ◌≡◌, ap, Bool, not, List, [], ◌∷◌, ◌++◌, map, Option, some, arith, if◌then◌else◌,
}
use bee_engine.Base.Bytes.{Bytes, bytes_eq}
use bee_engine.Shared.Leaf.{Primitives}
use bee_engine.Miner.Merkle.{MerkleTree}
use bee_engine.Miner.Front.{
  Miner, Task, start, stop, remove_seed, seed_updated, complexity_updated, end_task,
}
use bee_engine.Miner.Front.Touched.{
  start_workers, Touched, goes_on, computes, submits, ends, gives_back, advance-Touched,
}
use bee_engine.Miner.Front.Steps.{
  System, keep, Step, Steps, here, then_step, starts, stops, removes_seed, updates_seed,
  updates_complexity, advances,
}
use bee_engine.Miner.Front.Submitting.{count, count-retain, count-append}

abbrev pub occurrences : Bytes → List Bytes → ℕ
occurrences x seeds = count (bytes_eq x) seeds

abbrev pub task_seeds : {Tree : Type 0} → List (Task Tree) → List Bytes
task_seeds ts = map (λ t. t.seed) ts

-- How often a seed is in the queue or with a task.
abbrev pub held : {Tree : Type 0} → Bytes → System Tree → ℕ
held x s = occurrences x s.miner.seeds + occurrences x (task_seeds s.tasks)

occurrences-tasks :
    {Tree : Type 0} (x : Bytes) (before others : List (Task Tree))
    → occurrences x (task_seeds (before ++ others))
      ≡ occurrences x (task_seeds before) + occurrences x (task_seeds others)
occurrences-tasks x [] others = omega arith
occurrences-tasks x (t ∷ before) others = omega (arith, occurrences-tasks x before others)

Touched-held :
    {Tree : Type 0} (x : Bytes) (s : Miner) (t : Task Tree) (others : List (Task Tree)) {was : Bool}
    (after : Miner) (left : Option (Task Tree))
    → Touched s t was after left
    → occurrences x after.seeds + occurrences x (task_seeds (keep left others))
      ≤ occurrences x s.seeds + occurrences x (task_seeds (t ∷ others))
unfolding end_task
Touched-held x s t others after left (goes_on phase same) = omega arith
Touched-held x s t others after left (computes phase plain) = omega arith
Touched-held x s t others after left (submits phase e) = omega arith
Touched-held x s t others after left ends = omega arith
Touched-held x s t others after left gives_back = omega arith

module _ (c : Primitives) (m : MerkleTree) where
  open m use {Tree}

  -- How often a step or a history announces a seed.
  abbrev pub announces : {s t : System Tree} → Bytes → Step c m s t → ℕ
  announces x (starts s id duration_ms after t h) = 0
  announces x (stops s) = 0
  announces x (removes_seed s seed) = 0
  announces x (updates_seed s seed) = if bytes_eq x seed then 1 else 0
  announces x (updates_complexity s complexity) = 0
  announces x (advances miner before t others i after left h) = 0

  abbrev pub announced : {s t : System Tree} → Bytes → Steps c m s t → ℕ
  announced x here = 0
  announced x (then_step before last) = announced x before + announces x last

  started_held :
      (x : Bytes) (s : System Tree) (id duration_ms : ℕ) (after : Miner) (t : Task Tree)
      → start id duration_ms s.miner ≡ some (after, t)
      → held x (record { miner = after; tasks = s.tasks ++ t ∷ [] }) ≤ held x s
  started_held x s id duration_ms after t h =
      let (seed, rest, seeds_eq, after_eq, seed_eq, _) =
        start_workers id duration_ms s.miner.seeds s.miner.complexity s.miner.workers after t h in
      omega (
        arith,
        occurrences-tasks x s.tasks (t ∷ []),
        ap (occurrences x) seeds_eq,
        ap (occurrences x) after_eq,
        ap (λ y. occurrences x (y ∷ [])) seed_eq,
      )

  Step-held :
      {s t : System Tree} (x : Bytes) (step : Step c m s t) → held x t ≤ held x s + announces x step
  unfolding stop remove_seed seed_updated complexity_updated
  Step-held x (starts s id duration_ms after t h) =
      omega (arith, started_held x s id duration_ms after t h)
  Step-held x (stops s) = omega arith
  Step-held x (removes_seed s seed) =
      omega (arith, count-retain (bytes_eq x) (λ v. not (bytes_eq v seed)) s.miner.seeds)
  Step-held x (updates_seed s seed) =
      omega (arith, count-append (bytes_eq x) s.miner.seeds (seed ∷ []))
  Step-held x (updates_complexity s complexity) = omega arith
  Step-held x (advances miner before t others i after left h) = omega (
    arith,
    occurrences-tasks x before (t ∷ others),
    occurrences-tasks x before (keep left others),
    Touched-held x miner t others after left (advance-Touched c m miner t t.phase i after left h),
  )

  -- A seed is in the queue or with a task no more often than it was at the beginning and has been
  -- announced since, in every interleaving. So a seed that was nowhere at the beginning and was
  -- announced once is not with two tasks, nor in the queue while a task has it.
  pub seeds_held :
      {s t : System Tree} (x : Bytes) (steps : Steps c m s t)
      → held x t ≤ held x s + announced x steps
  seeds_held x here = omega arith
  seeds_held x (then_step before last) = omega (arith, seeds_held x before, Step-held x last)
