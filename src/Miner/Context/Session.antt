-- ===== src/Miner/Context/Session.antt =====
-- What holds of a session's leaves and of its tree between two calls.
use mathlib.Core.List.{map-append, append_assoc, append-nil}
use bee_engine.Base.{
  ℕ, suc, ◌<◌, ◌≡◌, refl, sym, ap, subst, ◌∙◌, true, false, Option, some, List, [], ◌∷◌, ◌++◌, map,
  arith, Option-cases, inl, inr,
}
use bee_engine.Base.Bytes.{Bytes}
use bee_engine.Base.Lists.{length, length-append, range, range-snoc, All, All-append}
use bee_engine.Shared.Leaf.{Primitives, ComputedLeaf, verify, merkle_hash, hash_num}
use bee_engine.Shared.Leaf
use bee_engine.Shared.Leaf.Verify.{compute-verify}
use bee_engine.Miner.Merkle.{MerkleTree, add_leaf}
use bee_engine.Miner.Processor.{with_nonce, solves, calc_hash_blake, calc_hash_blake_sound}
use bee_engine.Miner.Context.{
  MiningCore, ParamsOfCompute, Call, tap, take_merkle, restart, set_deadline, calc_params, new_core,
  run_job, compute, get_merkle, reset, step, run,
}

module _ (c : Primitives) (m : MerkleTree) where
  open m use {Tree}

  -- The tree holds the hashes of the completed leaves in order, all waiting or all committed; every
  -- completed leaf passes the verifier's check; the leaves are numbered from 0.
  pub record Inv (s : MiningCore Tree) : Type 0 where
    pub lists : m.committed s.tree ++ m.pending s.tree ≡ map (merkle_hash c) s.completed
    pub waiting : s.committed ≡ false → m.committed s.tree ≡ []
    pub closed : s.committed ≡ true → m.pending s.tree ≡ []
    pub proven : All (λ l. verify c l s.seed s.target_bits ≡ true) s.completed
    pub numbered : map (λ l. l.index) s.completed ≡ range 0 (length s.completed)
    pub feasible : s.target_bits < 128

  pub new_core-Inv :
      (seed : Bytes) (duration_ms target_bits : ℕ)
      → target_bits < 128
      → Inv (new_core c m seed duration_ms target_bits)
  unfolding new_core
  new_core-Inv seed duration_ms target_bits h = record {
    lists = ap (λ ls. ls ++ m.pending m.new) m.new_lists.0 ∙ m.new_lists.1;
    waiting = λ _. m.new_lists.0;
    closed = λ _. m.new_lists.1;
    proven = tt;
    numbered = refl;
    feasible = h;
  }

  -- A solution passes the verifier's check.
  solution-verify :
      (s : MiningCore Tree) (p : ParamsOfCompute) (n : ℕ)
      → s.target_bits < 128
      → solves c (calc_params s p) n ≡ true
      → verify c (Leaf.compute c (with_nonce (calc_params s p) n)) s.seed s.target_bits ≡ true
  unfolding solves calc_params
  solution-verify s p n small hit =
      compute-verify c (with_nonce (calc_params s p) n) small (ground arith)

  solution-index :
      (s : MiningCore Tree) (p : ParamsOfCompute) (n : ℕ)
      → (Leaf.compute c (with_nonce (calc_params s p) n)).index ≡ length s.completed
  unfolding calc_params Leaf.compute
  solution-index s p n = refl

  push-Inv :
      (s : MiningCore Tree) (l : ComputedLeaf)
      → Inv s
      → s.committed ≡ false
      → verify c l s.seed s.target_bits ≡ true
      → l.index ≡ length s.completed
      → Inv (record s { tree = add_leaf c m s.tree l; completed = s.completed ++ l ∷ [] })
  unfolding add_leaf
  push-Inv s l v unsealed good index = record {
    lists =
        ap₂-append
        ∙ sym (append_assoc (m.committed s.tree) (m.pending s.tree) (merkle_hash c l ∷ []))
        ∙ ap (λ ls. ls ++ merkle_hash c l ∷ []) v.lists
        ∙ sym (map-append (merkle_hash c) s.completed (l ∷ []));
    waiting = λ u. (m.insert_lists s.tree (merkle_hash c l)).0 ∙ v.waiting u;
    closed = λ u. cc;
    proven = All-append _ s.completed (l ∷ []) v.proven (good, tt);
    numbered =
        map-append (λ k. k.index) s.completed (l ∷ [])
        ∙ ap (λ ls. ls ++ l.index ∷ []) v.numbered
        ∙ ap (λ k. range 0 (length s.completed) ++ k ∷ []) (index ∙ omega arith)
        ∙ range-snoc 0 (length s.completed)
        ∙ ap (range 0) {x = suc (length s.completed)}
            (omega (arith, length-append s.completed (l ∷ [])));
    feasible = v.feasible;
  }
    where
      ap₂-append :
          m.committed (m.insert s.tree (merkle_hash c l))
            ++ m.pending (m.insert s.tree (merkle_hash c l))
          ≡ m.committed s.tree ++ (m.pending s.tree ++ merkle_hash c l ∷ [])
      ap₂-append =
          rw
            (
              (m.insert_lists s.tree (merkle_hash c l)).0,
              (m.insert_lists s.tree (merkle_hash c l)).1,
            )
            refl

  run_job-Inv :
      (fuel : ℕ) (s : MiningCore Tree) (p : ParamsOfCompute) (t : MiningCore Tree)
      (r : Option ComputedLeaf)
      → Inv s
      → s.committed ≡ false
      → run_job c m fuel s p ≡ some (t, r)
      → Inv t
  unfolding run_job
  run_job-Inv fuel s p t r v unsealed h =
      elim (Option-cases (calc_hash_blake c m fuel s.tree (calc_params s p))) [
        | inl dry ↦ absurd (ground arith)
        | inr ((l, tree), e) ↦
            let (n, computed, hit, added) =
              calc_hash_blake_sound c m fuel s.tree (calc_params s p) l tree e in
            let pushed =
              push-Inv s l v unsealed (rw computed (solution-verify s p n v.feasible hit))
                (rw computed (solution-index s p n)) in
            let same : record s { tree = add_leaf c m s.tree l; completed = s.completed ++ l ∷ [] }
                ≡ t =
              ground arith in
            subst Inv same pushed
      ]

  set_deadline-Inv : (now : ℕ) (s : MiningCore Tree) → Inv s → Inv (set_deadline now s)
  unfolding set_deadline
  set_deadline-Inv now s v = elim (Option-cases s.ends_at_ms) [
    | inl e ↦
        rw (e, set_deadline)
          (record {
            lists = v.lists;
            waiting = v.waiting;
            closed = v.closed;
            proven = v.proven;
            numbered = v.numbered;
            feasible = v.feasible;
          })
    | inr (end, e) ↦ rw (e, set_deadline) v
  ]

  stamp-Inv : (now : Option ℕ) (s : MiningCore Tree) → Inv s → Inv (record s { last_now_ms = now })
  stamp-Inv now s v = record {
    lists = v.lists;
    waiting = v.waiting;
    closed = v.closed;
    proven = v.proven;
    numbered = v.numbered;
    feasible = v.feasible;
  }

  pub compute-Inv :
      (fuel : ℕ) (s : MiningCore Tree) (p : ParamsOfCompute) (t : MiningCore Tree)
      (r : Option ComputedLeaf)
      → Inv s
      → compute c m fuel s p ≡ some (t, r)
      → Inv t
  unfolding compute
  compute-Inv fuel s p t r v h = ground (
    arith,
    set_deadline-Inv p.now_ms s v,
    stamp-Inv (some p.now_ms) (set_deadline p.now_ms s) (set_deadline-Inv p.now_ms s v),
    run_job-Inv fuel (record (set_deadline p.now_ms s) { last_now_ms = some p.now_ms }) p t r,
  )

  seal-Inv :
      (s : MiningCore Tree) → Inv s → Inv (record s { tree = m.commit s.tree; committed = true })
  seal-Inv s v = record {
    lists = rw ((m.commit_lists s.tree).0, (m.commit_lists s.tree).1) (append-nil _ ∙ v.lists);
    waiting = λ u. cc;
    closed = λ _. (m.commit_lists s.tree).1;
    proven = v.proven;
    numbered = v.numbered;
    feasible = v.feasible;
  }

  pub get_merkle-Inv : (s : MiningCore Tree) → Inv s → Inv (get_merkle c m s).0
  unfolding get_merkle
  get_merkle-Inv s v = ground (arith, seal-Inv s v)

  pub reset-Inv : (s : MiningCore Tree) → Inv s → Inv (reset c m s)
  unfolding reset
  reset-Inv s v = record {
    lists = ap (λ ls. ls ++ m.pending m.new) m.new_lists.0 ∙ m.new_lists.1;
    waiting = λ _. m.new_lists.0;
    closed = λ _. m.new_lists.1;
    proven = tt;
    numbered = refl;
    feasible = v.feasible;
  }

  pub step-Inv :
      (s : MiningCore Tree) (k : Call) (t : MiningCore Tree) → Inv s → step c m s k ≡ some t → Inv t
  unfolding step
  step-Inv s (tap fuel p) t v h = elim (Option-cases (compute c m fuel s p)) [
    | inl e ↦ absurd (ground arith)
    | inr ((u, r), e) ↦
        let same : u ≡ t = ground arith in subst Inv same (compute-Inv fuel s p u r v e)
  ]
  step-Inv s take_merkle t v h =
      let same : (get_merkle c m s).0 ≡ t = ground arith in subst Inv same (get_merkle-Inv s v)
  step-Inv s restart t v h =
      let same : reset c m s ≡ t = ground arith in subst Inv same (reset-Inv s v)

  run_from-Inv :
      (s : MiningCore Tree) (ks : List Call) (t : MiningCore Tree)
      → Inv s
      → run c m s ks ≡ some t
      → Inv t
  unfolding run
  run_from-Inv s [] t v h = let same : s ≡ t = ground arith in subst Inv same v
  run_from-Inv s (k ∷ ks) t v h = elim (Option-cases (step c m s k)) [
    | inl e ↦ absurd (ground arith)
    | inr (u, e) ↦ run_from-Inv u ks t (step-Inv s k u v e) (ground arith)
  ]

  -- After any history of taps, snapshots and resets of a fresh session with a complexity below 128,
  -- the tree holds the hashes of the completed leaves in order, all of them waiting before the first
  -- snapshot and all of them committed from it on; every completed leaf passes the verifier's check
  -- for the session's seed and complexity; and the leaves are numbered from 0 without gaps.
  pub run-Inv :
      (seed : Bytes) (duration_ms target_bits : ℕ) (ks : List Call) (t : MiningCore Tree)
      → target_bits < 128
      → run c m (new_core c m seed duration_ms target_bits) ks ≡ some t
      → Inv t
  run-Inv seed duration_ms target_bits ks t small h =
      run_from-Inv (new_core c m seed duration_ms target_bits) ks t
        (new_core-Inv seed duration_ms target_bits small) h
