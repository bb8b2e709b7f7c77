-- ===== src/Miner/Context/Window.antt =====
-- Snapshots and proofs of a session.
use bee_engine.Base.{
  ℕ, ◌-◌, ◌≤◌, ◌<◌, ◌≡◌, refl, sym, ap, ◌∙◌, true, false, none, some, List, ◌++◌, map, arith, ok,
  ◌↔◌, is_ok,
}
use bee_engine.Base.Lists.{length, slice, range, length-map, take-map, drop-map, take, drop}
use bee_engine.Shared.Leaf.{Primitives, ComputedLeaf, merkle_hash}
use bee_engine.Miner.Merkle.{
  MerkleTree, get_merkle_leaves, get_proof_in_window, get_merkle_leaves_lem,
}
use bee_engine.Miner.Context.{
  MiningCore, ParamsOfCompute, ResultOfGetProof, set_deadline, compute, commit_once, get_merkle,
  get_proof,
}
use bee_engine.Miner.Context.Session.{Inv}
use mathlib.Core.List.{append-nil}

module _ (c : Primitives) (m : MerkleTree) where
  open m use {Tree}

  set_deadline_keeps :
      (now : ℕ) (s : MiningCore Tree)
      → ((set_deadline now s).tree ≡ s.tree)
        × ((set_deadline now s).committed ≡ s.committed)
        × ((set_deadline now s).completed ≡ s.completed)
  unfolding set_deadline
  set_deadline_keeps now s = ground arith

  -- A session that has been committed takes no job: whatever the time, `compute` needs no search,
  -- returns no leaf, and leaves the tree, its commitment and the completed leaves as they were; and a
  -- later snapshot is the one taken before.
  pub compute_after_commit :
      (fuel : ℕ) (s : MiningCore Tree) (p : ParamsOfCompute)
      → let sealed = (get_merkle c m s).0 in
        (t : MiningCore Tree) × (compute c m fuel sealed p ≡ some (t, none))
        × (t.tree ≡ sealed.tree)
        × (t.committed ≡ true)
        × (t.completed ≡ sealed.completed)
        × ((get_merkle c m t).1 ≡ (get_merkle c m s).1)
  unfolding compute get_merkle
  compute_after_commit fuel s p =
      let u = commit_once c m s in
      let (keeps_tree, keeps_flag, keeps_leaves) = set_deadline_keeps p.now_ms u in
      let flag : u.committed ≡ true = ground arith in
      let flag' : (set_deadline p.now_ms u).committed ≡ true = keeps_flag ∙ flag in
      let same : (commit_once c m (set_deadline p.now_ms u)).tree ≡ u.tree =
        ground (arith, keeps_tree) in
      (set_deadline p.now_ms u, ground arith, keeps_tree, flag', keeps_leaves, rw same refl)

  pub committed_lem :
      (s : MiningCore Tree)
      → Inv c m s
      → s.committed ≡ true
      → m.committed s.tree ≡ map (merkle_hash c) s.completed
  committed_lem s v e =
      sym (append-nil _) ∙ ap (λ ls. m.committed s.tree ++ ls) (sym (v.closed e)) ∙ v.lists

  pub slice-map :
      (start end : ℕ) (ls : List ComputedLeaf)
      → slice start end (map (merkle_hash c) ls) ≡ map (merkle_hash c) (slice start end ls)
  slice-map start end ls =
      ap (take (end - start)) (drop-map (merkle_hash c) start ls)
      ∙ take-map (merkle_hash c) (end - start) (drop start ls)

  -- Of a committed session whose tree and leaves agree (`Inv`), a proof is made exactly for the
  -- non-empty windows of the completed leaves.
  pub get_proof_iff :
      (s : MiningCore Tree) (start_index end_index : ℕ)
      → Inv c m s
      → s.committed ≡ true
      → (is_ok (get_proof c m s start_index end_index) ≡ true)
        ↔ ((start_index < end_index) × (end_index ≤ length s.completed))
  unfolding get_proof get_proof_in_window
  get_proof_iff s start_index end_index v e =
      let count : length (get_merkle_leaves c m s.tree) ≡ length s.completed =
        ap length (get_merkle_leaves_lem c m s.tree ∙ committed_lem s v e)
        ∙ length-map (merkle_hash c) s.completed in
      ground (arith, count)

  -- A proof comes with the data of its window, and the selected hashes are those of that data.
  pub get_proof_selects :
      (s : MiningCore Tree) (start_index end_index : ℕ) (r : ResultOfGetProof)
      → Inv c m s
      → s.committed ≡ true
      → get_proof c m s start_index end_index ≡ ok r
      → (r.selected_leaves_data ≡ slice start_index end_index s.completed)
        × (r.selected_leaves ≡ map (merkle_hash c) r.selected_leaves_data)
        × (r.proof ≡ m.proof s.tree (range start_index (end_index - start_index)))
  unfolding get_proof get_proof_in_window
  get_proof_selects s start_index end_index r v e h =
      let shown : get_merkle_leaves c m s.tree ≡ map (merkle_hash c) s.completed =
        get_merkle_leaves_lem c m s.tree ∙ committed_lem s v e in
      ground
        (arith, ap (slice start_index end_index) shown, slice-map start_index end_index s.completed)

  -- Before the first snapshot every window is refused.
  pub get_proof_before_commit :
      (s : MiningCore Tree) (start_index end_index : ℕ)
      → Inv c m s
      → s.committed ≡ false
      → is_ok (get_proof c m s start_index end_index) ≡ false
  unfolding get_proof get_proof_in_window
  get_proof_before_commit s start_index end_index v e =
      let count : length (get_merkle_leaves c m s.tree) ≡ 0 =
        ap length (get_merkle_leaves_lem c m s.tree ∙ v.waiting e) in
      ground (arith, count)
