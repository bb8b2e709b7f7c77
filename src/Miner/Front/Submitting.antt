-- ===== src/Miner/Front/Submitting.antt =====
-- The entries of the miner's list with the status `submitting`.
use bee_engine.Base.{
  ℕ, ◌+◌, ◌≤◌, ◌≡◌, refl, ap, Bool, false, not, List, [], ◌∷◌, ◌++◌, Option, some, arith, ◌==◌,
  if◌then◌else◌,
}
use bee_engine.Base.Bytes.{Bytes}
use bee_engine.Base.Lists.{any, retain}
use bee_engine.Shared.Leaf.{Primitives}
use bee_engine.Miner.Merkle.{MerkleTree}
use bee_engine.Miner.Front.{
  MinerStatus, queued, computing, submitting, finished, MinerWorker, is_submitting, is_queued,
  Miner, update_worker_status, shutdown_worker, stop, start, remove_seed, seed_updated,
  complexity_updated, Task, end_task,
}
use bee_engine.Miner.Front.Touched.{
  start_workers, Touched, goes_on, computes, submits, ends, gives_back, advance-Touched,
}
use bee_engine.Miner.Front.Steps.{
  System, Step, starts, stops, removes_seed, updates_seed, updates_complexity, advances,
}

-- How many elements pass a test.
abbrev pub count {ℓ} : {A : Type ℓ} → (A → Bool) → List A → ℕ
count p [] = 0
count p (x ∷ xs) = (if p x then 1 else 0) + count p xs

-- How many workers of a list submit.
abbrev pub submitters : List MinerWorker → ℕ
submitters ws = count is_submitting ws

pub none_counted : {A : Type 0} (p : A → Bool) (xs : List A) → any p xs ≡ false → count p xs ≡ 0
none_counted p [] h = refl
none_counted p (x ∷ xs) h = ground (arith, none_counted p xs (ground arith))

pub count-retain : {A : Type 0} (p q : A → Bool) (xs : List A) → count p (retain q xs) ≤ count p xs
count-retain p q [] = omega arith
count-retain p q (x ∷ xs) = ground (arith, count-retain p q xs)

pub count-append :
    {A : Type 0} (p : A → Bool) (xs ys : List A) → count p (xs ++ ys) ≡ count p xs + count p ys
count-append p [] ys = omega arith
count-append p (x ∷ xs) ys = omega (arith, count-append p xs ys)

update_one_more :
    (id : ℕ) (status : MinerStatus) (ws : List MinerWorker)
    → submitters (update_worker_status id status ws) ≤ submitters ws + 1
unfolding update_worker_status
update_one_more id status [] = omega arith
update_one_more id status (w ∷ ws) = ground (arith, update_one_more id status ws)

update_no_more :
    (id : ℕ) (status : MinerStatus) (ws : List MinerWorker)
    → is_submitting (record { id = id; status = status; seed = [] }) ≡ false
    → submitters (update_worker_status id status ws) ≤ submitters ws
unfolding update_worker_status
update_no_more id status [] h = omega arith
update_no_more id status (w ∷ ws) h = ground (arith, update_no_more id status ws h)

shutdown_no_more :
    (id : ℕ) (ws : List MinerWorker) → submitters (shutdown_worker id ws) ≤ submitters ws
unfolding shutdown_worker
shutdown_no_more id ws = omega (
  arith,
  update_no_more id finished ws refl,
  count-retain is_submitting (λ w. not (w.id == id)) (update_worker_status id finished ws),
)

Touched-one :
    {Tree : Type 0} (s : Miner) (t : Task Tree) {was : Bool} (after : Miner)
    (left : Option (Task Tree))
    → Touched s t was after left
    → submitters s.workers ≤ 1
    → submitters after.workers ≤ 1
unfolding end_task
Touched-one s t after left (goes_on phase same) h = h
Touched-one s t after left (computes phase plain) h =
    omega (arith, update_no_more t.id computing s.workers refl)
Touched-one s t after left (submits phase e) h =
    omega (arith, update_one_more t.id submitting s.workers, none_counted is_submitting s.workers e)
Touched-one s t after left ends h = omega (arith, shutdown_no_more t.id s.workers)
Touched-one s t after left gives_back h = omega (arith, shutdown_no_more t.id s.workers)

queued_one :
    (id : ℕ) (seed : Bytes) (ws : List MinerWorker)
    → submitters (ws ++ record { id = id; status = queued; seed = seed } ∷ []) ≡ submitters ws
queued_one id seed ws =
    omega
      (arith, count-append is_submitting ws (record { id = id; status = queued; seed = seed } ∷ []))

start_one :
    {Tree : Type 0} (id duration_ms : ℕ) (s after : Miner) (t : Task Tree)
    → start id duration_ms s ≡ some (after, t)
    → submitters s.workers ≤ 1
    → submitters after.workers ≤ 1
start_one id duration_ms s after t h le =
    let (seed, _, _, _, _, workers) =
      start_workers id duration_ms s.seeds s.complexity s.workers after t h in
    omega (arith, ap submitters workers, queued_one id seed s.workers)

module _ (c : Primitives) (m : MerkleTree) where
  open m use {Tree}

  -- A step leaves at most one entry that submits.
  pub Step-one :
      {s t : System Tree}
      → Step c m s t
      → submitters s.miner.workers ≤ 1
      → submitters t.miner.workers ≤ 1
  unfolding stop remove_seed seed_updated complexity_updated
  Step-one (starts s id duration_ms after t h) le = start_one id duration_ms s.miner after t h le
  Step-one (stops s) le =
      omega (arith, count-retain is_submitting (λ w. not (is_queued w)) s.miner.workers)
  Step-one (removes_seed s seed) le = le
  Step-one (updates_seed s seed) le = le
  Step-one (updates_complexity s complexity) le = le
  Step-one (advances miner before t others i after left h) le =
      Touched-one miner t after left (advance-Touched c m miner t t.phase i after left h) le
