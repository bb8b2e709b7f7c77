-- ===== src/Miner/Front/Entries.antt =====
-- Which workers of the miner's list have an id and a status.
use bee_engine.Base.{
  ℕ, ◌≤◌, ◌≡◌, refl, ap, ◌∙◌, Bool, true, false, not, ◌&&◌, ◌||◌, List, [], ◌∷◌, ◌++◌, arith, ◌==◌,
  Bool-cases, inl, inr,
}
use bee_engine.Base.Bytes.{Bytes}
use bee_engine.Base.Lists.{any, retain}
use bee_engine.Miner.Front.{
  MinerStatus, queued, submitting, finished, computing, MinerWorker, is_submitting, is_queued,
  update_worker_status, shutdown_worker,
}
use bee_engine.Miner.Front.Submitting.{submitters}

-- Whether a worker with the id passes the test.
abbrev pub has : (MinerWorker → Bool) → ℕ → List MinerWorker → Bool
has f i ws = any (λ w. (w.id == i) && f w) ws

abbrev pub listed : ℕ → List MinerWorker → Bool
listed i ws = has (λ w. true) i ws

pub has-append :
    (f : MinerWorker → Bool) (i : ℕ) (ws vs : List MinerWorker)
    → has f i (ws ++ vs) ≡ (has f i ws || has f i vs)
has-append f i [] vs = refl
has-append f i (w ∷ ws) vs = ground (arith, has-append f i ws vs)

pub has-update_worker_status :
    (f : MinerWorker → Bool) (i id : ℕ) (status : MinerStatus) (ws : List MinerWorker)
    → (i == id) ≡ false
    → has f i (update_worker_status id status ws) ≡ has f i ws
unfolding update_worker_status
has-update_worker_status f i id status [] other = refl
has-update_worker_status f i id status (w ∷ ws) other = elim (Bool-cases (w.id == id)) [
  | inl same ↦ let differ : (w.id == i) ≡ false = ground arith in rw (same, differ) refl
  | inr differ ↦
      rw differ
        (ap (λ b. ((w.id == i) && f w) || b) (has-update_worker_status f i id status ws other))
]

has-retain :
    (f : MinerWorker → Bool) (i id : ℕ) (ws : List MinerWorker)
    → (i == id) ≡ false
    → has f i (retain (λ w. not (w.id == id)) ws) ≡ has f i ws
has-retain f i id [] other = refl
has-retain f i id (w ∷ ws) other = elim (Bool-cases (w.id == id)) [
  | inl same ↦
      let differ : (w.id == i) ≡ false = ground arith in
      rw (same, differ, retain) (has-retain f i id ws other)
  | inr differ ↦
      rw (differ, retain) (ap (λ b. ((w.id == i) && f w) || b) (has-retain f i id ws other))
]

pub has-shutdown_worker :
    (f : MinerWorker → Bool) (i id : ℕ) (ws : List MinerWorker)
    → (i == id) ≡ false
    → has f i (shutdown_worker id ws) ≡ has f i ws
unfolding shutdown_worker
has-shutdown_worker f i id ws other =
    has-retain f i id (update_worker_status id finished ws) other
    ∙ has-update_worker_status f i id finished ws other

-- A worker of the list that is told to submit does.
pub told :
    (id : ℕ) (ws : List MinerWorker)
    → listed id (update_worker_status id submitting ws) ≡ true
    → has is_submitting id (update_worker_status id submitting ws) ≡ true
unfolding update_worker_status
told id [] h = h
told id (w ∷ ws) h = elim (Bool-cases (w.id == id)) [
  | inl same ↦ rw (same, same) refl
  | inr differ ↦ rw (differ, differ) (told id ws (rw (differ, differ) at h))
]

-- What `stop` takes off the list.
pub stop_listed :
    (i : ℕ) (ws : List MinerWorker)
    → listed i (retain (λ w. not (is_queued w)) ws) ≡ true
    → listed i ws ≡ true
stop_listed i [] h = h
stop_listed i (w ∷ ws) h = elim (Bool-cases (is_queued w)) [
  | inl waits ↦ let later = stop_listed i ws (rw (waits, retain) at h) in ground (arith, later)
  | inr stays ↦ let h' = rw (stays, retain) at h in ground (arith, h', stop_listed i ws)
]

queued_not_submitting :
    (id : ℕ) (status : MinerStatus) (seed : Bytes)
    → is_queued (record { id = id; status = status; seed = seed }) ≡ true
    → is_submitting (record { id = id; status = status; seed = seed }) ≡ false
queued_not_submitting id queued seed h = refl
queued_not_submitting id computing seed h = refl
queued_not_submitting id submitting seed h = absurd (cc)
queued_not_submitting id finished seed h = refl

pub stop_submitting :
    (i : ℕ) (ws : List MinerWorker)
    → has is_submitting i (retain (λ w. not (is_queued w)) ws) ≡ has is_submitting i ws
stop_submitting i [] = refl
stop_submitting i (w ∷ ws) = elim (Bool-cases (is_queued w)) [
  | inl waits ↦
      let quiet : is_submitting w ≡ false = queued_not_submitting w.id w.status w.seed waits in
      let later = stop_submitting i ws in rw (waits, retain) (ground arith)
  | inr stays ↦ let later = stop_submitting i ws in rw (stays, retain) (ground arith)
]

-- Two workers that submit.
one_entry : (i : ℕ) (ws : List MinerWorker) → has is_submitting i ws ≡ true → 1 ≤ submitters ws
one_entry i [] h = absurd (cc)
one_entry i (w ∷ ws) h = elim (Bool-cases (has is_submitting i ws)) [
  | inl later ↦ omega (arith, one_entry i ws later)
  | inr no_more ↦ ground arith
]

pub two_entries :
    (i j : ℕ) (ws : List MinerWorker)
    → (i == j) ≡ false
    → has is_submitting i ws ≡ true
    → has is_submitting j ws ≡ true
    → 2 ≤ submitters ws
two_entries i j [] differ hi hj = absurd (cc)
two_entries i j (w ∷ ws) differ hi hj = elim (Bool-cases (has is_submitting i ws)) [
  | inl i_later ↦ elim (Bool-cases (has is_submitting j ws)) [
    | inl j_later ↦ omega (arith, two_entries i j ws differ i_later j_later)
    | inr j_here ↦ ground (arith, one_entry i ws i_later)
  ]
  | inr i_here ↦ elim (Bool-cases (has is_submitting j ws)) [
    | inl j_later ↦ ground (arith, one_entry j ws j_later)
    | inr j_here ↦ absurd (ground arith)
  ]
]
