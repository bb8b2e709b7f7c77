-- ===== src/Miner/Front/Starting.antt =====
-- When a worker can be started.
use bee_engine.Base.{
  ℕ, ◌≡◌, ◌≢◌, ◌↔◌, refl, ap, Bool, true, false, ◌||◌, List, [], ◌∷◌, ◌++◌, none, some, arith,
}
use bee_engine.Base.Bytes.{Bytes}
use bee_engine.Base.Lists.{any, is_empty}
use bee_engine.Miner.Front.{Miner, MinerWorker, queued, Task, is_computing, can_start, start}
use bee_engine.Miner.Front.Touched.{start_workers}

any-append :
    (p : MinerWorker → Bool) (xs ys : List MinerWorker) → any p (xs ++ ys) ≡ (any p xs || any p ys)
any-append p [] ys = refl
any-append p (x ∷ xs) ys = ground (arith, any-append p xs ys)

starts_iff :
    {Tree : Type 0} (id duration_ms : ℕ) (seeds : List Bytes) (complexity : ℕ × ℕ)
    (ws : List MinerWorker)
    → (start {Tree = Tree} id duration_ms
          (record { seeds = seeds; complexity = complexity; workers = ws })
        ≢ none)
      ↔ (can_start (record { seeds = seeds; complexity = complexity; workers = ws }) ≡ true)
unfolding start can_start
starts_iff id duration_ms [] complexity ws = ground arith
starts_iff id duration_ms (seed ∷ seeds) complexity ws = ground arith

idle_before :
    {Tree : Type 0} (id duration_ms : ℕ) (s after : Miner) (t : Task Tree)
    → start id duration_ms s ≡ some (after, t)
    → any is_computing s.workers ≡ false
unfolding start
idle_before id duration_ms s after t h = ground arith

-- A worker starts exactly where the miner says that it can. A worker that has just been started does
-- not count: where a seed is left, another can start at once, before the first has begun to compute.
can_start_iff :
    {Tree : Type 0} (id duration_ms : ℕ) (s : Miner)
    → ((start {Tree = Tree} id duration_ms s ≢ none) ↔ (can_start s ≡ true))
      × ((after : Miner) (t : Task Tree)
          → start id duration_ms s ≡ some (after, t)
          → (can_start after ≡ true) ↔ (is_empty after.seeds ≡ false))
unfolding can_start
can_start_iff {Tree = Tree} id duration_ms s =
    (starts_iff id duration_ms s.seeds s.complexity s.workers, again)
  where
    again :
        (after : Miner) (t : Task Tree)
        → start id duration_ms s ≡ some (after, t)
        → (can_start after ≡ true) ↔ (is_empty after.seeds ≡ false)
    again after t h =
        let (seed, rest, _, _, _, workers) =
          start_workers id duration_ms s.seeds s.complexity s.workers after t h in
        let idle = idle_before id duration_ms s after t h in
        ground (
          arith,
          ap (any is_computing) workers,
          any-append is_computing s.workers (record { id = id; status = queued; seed = seed } ∷ []),
        )
