-- ===== src/Miner/Front/Sessions.antt =====
-- The sessions that tasks hold are histories of a fresh session.
use bee_engine.Base.{
  ℕ, ◌≡◌, refl, true, false, List, [], ◌∷◌, ◌++◌, Option, some, arith, Option-cases, inl, inr,
}
use bee_engine.Base.Bytes.{Bytes}
use bee_engine.Base.Lists.{is_empty}
use bee_engine.Shared.Leaf.{Primitives, ComputedLeaf}
use bee_engine.Miner.Merkle.{MerkleTree, get_merkle_leaves}
use bee_engine.Miner.Context.{
  MiningCore, ParamsOfCompute, Call, tap, take_merkle, new_core, compute, commit_once, get_merkle,
  step, run,
}
use bee_engine.Miner.Front.{
  Phase, spawned, resolving, mining, waiting, sending_root, awaiting_interval, Task,
}

module _ (c : Primitives) (m : MerkleTree) where
  open m use {Tree}

  -- The core is what some history makes of a fresh session on the seed.
  pub record Mined (seed : Bytes) (duration_ms : ℕ) (core : MiningCore Tree) : Type 0 where
    pub bits : ℕ
    pub history : List Call
    pub ran : run c m (new_core c m seed duration_ms bits) history ≡ some core

  -- Moreover it is committed, and has a leaf.
  pub record Sealed (seed : Bytes) (duration_ms : ℕ) (core : MiningCore Tree) : Type 0 where
    pub mined : Mined seed duration_ms core
    pub committed : core.committed ≡ true
    pub filled : is_empty (get_merkle_leaves c m core.tree) ≡ false

  abbrev pub Sound : Task Tree → Phase Tree → Type 0
  Sound t spawned = Unit {0}
  Sound t (resolving flight) = Unit {0}
  Sound t (mining start_ms a b) = Mined t.seed t.duration_ms a × Mined t.seed t.duration_ms b
  Sound t (waiting a b) = Sealed t.seed t.duration_ms a × Sealed t.seed t.duration_ms b
  Sound t (sending_root a b) = Sealed t.seed t.duration_ms a × Sealed t.seed t.duration_ms b
  Sound t (awaiting_interval a b) = Sealed t.seed t.duration_ms a × Sealed t.seed t.duration_ms b

  run-snoc :
      (s : MiningCore Tree) (ks : List Call) (k : Call) (t u : MiningCore Tree)
      → run c m s ks ≡ some t
      → step c m t k ≡ some u
      → run c m s (ks ++ k ∷ []) ≡ some u
  unfolding run
  run-snoc s [] k t u h e = let same : s ≡ t = ground arith in rw (same, e, run) refl
  run-snoc s (j ∷ ks) k t u h e = elim (Option-cases (step c m s j)) [
    | inl dry ↦ absurd (ground arith)
    | inr (v, first) ↦ rw (first, run) (run-snoc v ks k t u (ground arith) e)
  ]

  pub tapped :
      (seed : Bytes) (duration_ms fuel : ℕ) (p : ParamsOfCompute) (a b : MiningCore Tree)
      (r : Option ComputedLeaf)
      → Mined seed duration_ms a
      → compute c m fuel a p ≡ some (b, r)
      → Mined seed duration_ms b
  unfolding step
  tapped seed duration_ms fuel p a b r v h = record {
    bits = v.bits;
    history = v.history ++ tap fuel p ∷ [];
    ran =
        run-snoc (new_core c m seed duration_ms v.bits) v.history (tap fuel p) a b v.ran
          (rw (h, step) refl);
  }

  pub sealed :
      (seed : Bytes) (duration_ms : ℕ) (a : MiningCore Tree)
      → Mined seed duration_ms a
      → is_empty (get_merkle c m a).1.leaves ≡ false
      → Sealed seed duration_ms (get_merkle c m a).0
  unfolding step get_merkle commit_once
  sealed seed duration_ms a v h = record {
    mined = record {
      bits = v.bits;
      history = v.history ++ take_merkle ∷ [];
      ran =
          run-snoc (new_core c m seed duration_ms v.bits) v.history take_merkle a
            (get_merkle c m a).0 v.ran refl;
    };
    committed = ground arith;
    filled = h;
  }

  pub fresh :
      (seed : Bytes) (duration_ms bits : ℕ)
      → Mined seed duration_ms (new_core c m seed duration_ms bits)
  unfolding run
  fresh seed duration_ms bits = record { bits = bits; history = []; ran = refl }
