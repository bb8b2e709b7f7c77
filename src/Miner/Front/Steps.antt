-- ===== src/Miner/Front/Steps.antt =====
-- The miner and all of its tasks, in any interleaving of their steps.
use bee_engine.Base.{ℕ, ◌≡◌, List, [], ◌∷◌, ◌++◌, Option, none, some}
use bee_engine.Base.Bytes.{Bytes}
use bee_engine.Shared.Leaf.{Primitives}
use bee_engine.Miner.Merkle.{MerkleTree}
use bee_engine.Miner.Front.{
  Miner, Task, Input, start, stop, remove_seed, seed_updated, complexity_updated,
}
use bee_engine.Miner.Front.Advance.{advance}

pub record System (Tree : Type 0) : Type 0 where
  pub miner : Miner
  pub tasks : List (Task Tree)

abbrev pub keep : {Tree : Type 0} → Option (Task Tree) → List (Task Tree) → List (Task Tree)
keep none ts = ts
keep (some t) ts = t ∷ ts

module _ (c : Primitives) (m : MerkleTree) where
  open m use {Tree}

  -- A call from JavaScript, an event of the contract, or a task that goes on.
  pub data Step : System Tree → System Tree → Type 0 where
    starts :
        (s : System Tree) (id duration_ms : ℕ) (after : Miner) (t : Task Tree)
        → start id duration_ms s.miner ≡ some (after, t)
        → Step s (record { miner = after; tasks = s.tasks ++ t ∷ [] })
    stops : (s : System Tree) → Step s (record s { miner = (stop s.miner).0 })
    removes_seed :
        (s : System Tree) (seed : Bytes) → Step s (record s { miner = remove_seed seed s.miner })
    updates_seed :
        (s : System Tree) (seed : Bytes) → Step s (record s { miner = seed_updated seed s.miner })
    updates_complexity :
        (s : System Tree) (complexity : ℕ × ℕ)
        → Step s (record s { miner = complexity_updated complexity s.miner })
    advances :
        (miner : Miner) (before : List (Task Tree)) (t : Task Tree) (others : List (Task Tree))
        (i : Input t.phase) (after : Miner) (left : Option (Task Tree))
        → advance c m miner t t.phase i ≡ some (after, left)
        → Step
            (record { miner = miner; tasks = before ++ t ∷ others })
            (record { miner = after; tasks = before ++ keep left others })

  pub data Steps (s : System Tree) : System Tree → Type 0 where
    here : Steps s s
    then_step : {t u : System Tree} → Steps s t → Step t u → Steps s u
