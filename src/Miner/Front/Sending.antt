-- ===== src/Miner/Front/Sending.antt =====
-- The tasks that send, of those whose workers are in the list.
use bee_engine.Base.{
  ℕ, ◌+◌, ◌≤◌, ◌≡◌, refl, ap, Bool, true, false, not, ◌&&◌, List, [], ◌∷◌, ◌++◌, Option, none, some,
  arith, ◌==◌, Bool-cases, inl, inr,
}
use bee_engine.Base.Bytes.{Bytes}
use bee_engine.Base.Lists.{retain}
use bee_engine.Miner.Front.{
  submitting, computing, MinerWorker, is_submitting, is_queued, Miner, start, Task, spawned,
  end_task,
}
use bee_engine.Miner.Front.Touched.{
  is_sending, Touched, goes_on, computes, submits, ends, gives_back,
}
use bee_engine.Miner.Front.Steps.{keep}
use bee_engine.Miner.Front.Submitting.{count, submitters}
use bee_engine.Miner.Front.Entries.{
  has, listed, has-append, has-update_worker_status, has-shutdown_worker, told, stop_listed,
  stop_submitting, two_entries,
}

-- The task sends, and its worker is in the list.
abbrev pub sends : {Tree : Type 0} → List MinerWorker → Task Tree → Bool
sends ws t = is_sending t.phase && listed t.id ws

-- Such a task, whose worker does not have the status.
abbrev pub stray : {Tree : Type 0} → List MinerWorker → Task Tree → Bool
stray ws t = sends ws t && not (has is_submitting t.id ws)

abbrev pub same_id : {Tree : Type 0} → ℕ → Task Tree → Bool
same_id i t = t.id == i

-- `stop` makes no task stray.
pub still_stray :
    {Tree : Type 0} (ws : List MinerWorker) (t : Task Tree)
    → stray (retain (λ w. not (is_queued w)) ws) t ≡ true
    → stray ws t ≡ true
still_stray ws t h =
    let entry = stop_submitting t.id ws in
    let before = stop_listed t.id ws in ground (arith, entry, before)

-- Nor does a new entry, but for tasks with its id.
pub added_stray :
    {Tree : Type 0} (ws : List MinerWorker) (w : MinerWorker) (t : Task Tree)
    → (t.id == w.id) ≡ false
    → stray (ws ++ w ∷ []) t ≡ true
    → stray ws t ≡ true
added_stray ws w t other h =
    let listed_before = has-append (λ w. true) t.id ws (w ∷ []) in
    let entry_before = has-append is_submitting t.id ws (w ∷ []) in
    let differ : (w.id == t.id) ≡ false = ground arith in
    ground (arith, listed_before, entry_before, differ)

pub not_stray :
    {Tree : Type 0} (ws : List MinerWorker) (t : Task Tree)
    → is_sending t.phase ≡ false
    → count (stray ws) (t ∷ []) ≡ 0
not_stray ws t quiet = ground (arith, quiet)

-- A test that others than the tasks with an id pass only if they passed another before.
pub count_others :
    {Tree : Type 0} (p q : Task Tree → Bool) (id : ℕ) (ts : List (Task Tree))
    → count (same_id id) ts ≡ 0
    → ((t : Task Tree) → (t.id == id) ≡ false → p t ≡ true → q t ≡ true)
    → count p ts ≤ count q ts
count_others p q id [] none_same pass = omega arith
count_others p q id (t ∷ ts) none_same pass =
    let other : (t.id == id) ≡ false = ground arith in
    let passes = pass t other in ground (arith, count_others p q id ts (ground arith) pass, passes)

pub count_all :
    {Tree : Type 0} (p q : Task Tree → Bool) (ts : List (Task Tree))
    → ((t : Task Tree) → p t ≡ true → q t ≡ true)
    → count p ts ≤ count q ts
count_all p q [] pass = omega arith
count_all p q (t ∷ ts) pass = let passes = pass t in ground (arith, count_all p q ts pass, passes)

-- With one task that sends no other does.
none_else :
    {Tree : Type 0} (ws : List MinerWorker) (i : ℕ) (ts : List (Task Tree))
    → submitters ws ≤ 1
    → has is_submitting i ws ≡ true
    → count (same_id i) ts ≡ 0
    → count (stray ws) ts ≡ 0
    → count (sends ws) ts ≡ 0
none_else ws i [] one entry differ strays = refl
none_else ws i (t ∷ ts) one entry differ strays = elim (Bool-cases (sends ws t)) [
  | inr quiet ↦ ground (arith, none_else ws i ts one entry (ground arith) (ground arith))
  | inl sending ↦
      let other : (i == t.id) ≡ false = ground arith in
      let entry' : has is_submitting t.id ws ≡ true = ground arith in
      absurd (omega (arith, two_entries i t.id ws other entry entry'))
]

pub one_sends :
    {Tree : Type 0} (ws : List MinerWorker) (ts : List (Task Tree))
    → submitters ws ≤ 1
    → ((i : ℕ) → count (same_id i) ts ≤ 1)
    → count (stray ws) ts ≡ 0
    → count (sends ws) ts ≤ 1
one_sends ws [] one distinct strays = omega arith
one_sends ws (t ∷ ts) one distinct strays = elim (Bool-cases (sends ws t)) [
  | inr quiet ↦
      let distinct' : (i : ℕ) → count (same_id i) ts ≤ 1 = λ i. omega (arith, distinct i) in
      ground (arith, one_sends ws ts one distinct' (ground arith))
  | inl sending ↦
      let entry : has is_submitting t.id ws ≡ true = ground arith in
      let same : (t.id == t.id) ≡ true = ground arith in
      let differ : count (same_id t.id) ts ≡ 0 = ground (arith, distinct t.id, same) in
      ground (arith, none_else ws t.id ts one entry differ (ground arith))
]

pub started :
    {Tree : Type 0} (id duration_ms : ℕ) (seeds : List Bytes) (complexity : ℕ × ℕ)
    (ws : List MinerWorker) (after : Miner) (t : Task Tree)
    → start id duration_ms (record { seeds = seeds; complexity = complexity; workers = ws })
      ≡ some (after, t)
    → (t.id ≡ id) × (is_sending t.phase ≡ false)
unfolding start
started id duration_ms [] complexity ws after t h = absurd (ground arith)
started id duration_ms (seed ∷ seeds) complexity ws after t h =
    let same : t.id ≡ id = ground arith in
    let phase : t.phase ≡ spawned = ground arith in (same, ap is_sending phase)

-- What a step of a task does to the tasks with other ids.
pub others_pass :
    {Tree : Type 0} (s : Miner) (t : Task Tree) {was : Bool} (after : Miner)
    (left : Option (Task Tree))
    → Touched s t was after left
    → (t' : Task Tree) → (t'.id == t.id) ≡ false
    → stray after.workers t' ≡ true
    → stray s.workers t' ≡ true
unfolding end_task
others_pass s t after left (goes_on phase same) t' other h = h
others_pass s t after left (computes phase plain) t' other h =
    rw⁻¹
      (
        has-update_worker_status (λ w. true) t'.id t.id computing s.workers other,
        has-update_worker_status is_submitting t'.id t.id computing s.workers other,
      )
      h
others_pass s t after left (submits phase e) t' other h =
    rw⁻¹
      (
        has-update_worker_status (λ w. true) t'.id t.id submitting s.workers other,
        has-update_worker_status is_submitting t'.id t.id submitting s.workers other,
      )
      h
others_pass s t after left ends t' other h =
    rw⁻¹
      (
        has-shutdown_worker (λ w. true) t'.id t.id s.workers other,
        has-shutdown_worker is_submitting t'.id t.id s.workers other,
      )
      h
others_pass s t after left gives_back t' other h =
    rw⁻¹
      (
        has-shutdown_worker (λ w. true) t'.id t.id s.workers other,
        has-shutdown_worker is_submitting t'.id t.id s.workers other,
      )
      h

-- What it does to its own task.
pub own_pass :
    {Tree : Type 0} (s : Miner) (t : Task Tree) (after : Miner) (left : Option (Task Tree))
    → Touched s t (is_sending t.phase) after left
    → count (stray after.workers) (keep left []) ≤ count (stray s.workers) (t ∷ [])
own_pass s t after left (goes_on phase same) = ground (arith, same)
own_pass s t after left (computes phase plain) = ground (arith, plain)
own_pass s t after left (submits phase e) = ground (arith, told t.id s.workers)
own_pass s t after left ends = omega arith
own_pass s t after left gives_back = omega arith

pub own_ids :
    {Tree : Type 0} (s : Miner) (t : Task Tree) {was : Bool} (after : Miner)
    (left : Option (Task Tree)) (i : ℕ)
    → Touched s t was after left
    → count (same_id i) (keep left []) ≤ count (same_id i) (t ∷ [])
own_ids s t after left i (goes_on phase same) = omega arith
own_ids s t after left i (computes phase plain) = omega arith
own_ids s t after left i (submits phase e) = omega arith
own_ids s t after left i ends = omega arith
own_ids s t after left i gives_back = omega arith

pub keep_append :
    {Tree : Type 0} (p : Task Tree → Bool) (left : Option (Task Tree)) (ts : List (Task Tree))
    → count p (keep left ts) ≡ count p (keep left []) + count p ts
keep_append p none ts = omega arith
keep_append p (some t) ts = omega arith
