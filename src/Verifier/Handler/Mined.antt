-- ===== src/Verifier/Handler/Mined.antt =====
-- The verifier accepts what the miner submits.
use bee_engine.Base.{
  ℕ, ◌+◌, ◌-◌, ◌^◌, ◌≤◌, ◌<◌, ◌≡◌, refl, sym, ap, subst, ◌∙◌, ◌⊎◌, inl, inr, true, false, List, [],
  ◌∷◌, map, some, ok, arith, is_ok, ap₂, ◌==◌,
}
use bee_engine.Base.Bytes.{Bytes, bytes_eq_refl}
use bee_engine.Base.Lists.{length, is_empty, slice, range, All, All-slice, length-slice, length-map}
use bee_engine.Shared.Leaf.{Primitives, ComputedLeaf, merkle_hash}
use bee_engine.Shared.Leaf
use bee_engine.Shared.Leaf.Verify.{length-merkle_hash}
use bee_engine.Shared.Request.{SessionProof}
use bee_engine.Miner.Merkle.{MerkleTree, get_merkle_root, get_merkle_leaves, get_merkle_leaves_lem}
use bee_engine.Miner.Context.{MiningCore, ResultOfGetMerkleSnapshot, ResultOfGetProof, get_proof}
use bee_engine.Miner.Context.Session.{Inv}
use bee_engine.Miner.Context.Window.{get_proof_iff, get_proof_selects, committed_lem, slice-map}
use bee_engine.Miner.Submission.{session_submit, session_proof}
use bee_engine.Verifier.Checks.{lone_leaf, convert_leaves_lem, check_proof, validate_proof}
use bee_engine.Verifier.Handler.{as_u32, indices}
use bee_engine.Verifier.Handler.Verdict.{Proven}

module _ (c : Primitives) (m : MerkleTree) where
  open m use {Tree}

  -- What a worker reads of a committed session.
  abbrev pub snapshot : MiningCore Tree → ResultOfGetMerkleSnapshot
  snapshot s = record { root = get_merkle_root c m s.tree; leaves = get_merkle_leaves c m s.tree }

  -- The verifier reads an empty proof as that of a tree with one leaf, which is its root.
  abbrev pub Presentable : MiningCore Tree → SessionProof → Type 0
  Presentable s p = (is_empty p.proof ≡ false) ⊎ (p.leaves_tree ≡ get_merkle_root c m s.tree ∷ [])

  hashes_convert : (ls : List ComputedLeaf) → All (λ h. length h ≡ 32) (map (merkle_hash c) ls)
  hashes_convert [] = tt
  hashes_convert (l ∷ ls) = (length-merkle_hash c l, hashes_convert ls)

  check_passes :
      (root proof : Bytes) (count : ℕ) (chunk : List Bytes) (is : List ℕ) (p : m.Proof)
      → m.parse_proof proof ≡ some p
      → length root ≡ 32
      → All (λ l. length l ≡ 32) chunk
      → m.verify p root is chunk count ≡ true
      → check_proof m (record {
        root = root;
        proof = proof;
        leaves_count = count;
        leaves_chunk = chunk;
        leaves_indices = is;
      })
        ≡ ok true
  unfolding check_proof
  check_passes root proof count chunk is p parsed size sizes verified =
      let sized : (length root == 32) ≡ true = ground arith in
      rw (parsed, sized, convert_leaves_lem 0 chunk sizes, verified) refl

  -- A proof that the tree makes for a window passes the verifier's Merkle check.
  window_checks :
      (s : MiningCore Tree) (start end : ℕ) (r : ResultOfGetProof)
      → Inv c m s
      → s.committed ≡ true
      → start < end
      → end ≤ length s.completed
      → get_proof c m s start end ≡ ok r
      → check_proof m (record {
        root = get_merkle_root c m s.tree;
        proof = r.proof;
        leaves_count = length s.completed;
        leaves_chunk = r.selected_leaves;
        leaves_indices = range start (end - start);
      })
        ≡ ok true
  unfolding check_proof get_merkle_root
  window_checks s start end r v e lt le h =
      let n = end - start in
      let back : start + n ≡ end = omega arith in
      let count : length (m.committed s.tree) ≡ length s.completed =
        ap length (committed_lem c m s v e) ∙ length-map (merkle_hash c) s.completed in
      let (data_eq, leaves_eq, proof_eq) = get_proof_selects c m s start end r v e h in
      let (root, root_eq, size) = m.root_lem s.tree (omega arith) in
      let (p, parsed, verified) =
        m.proof-verify s.tree start n root root_eq (omega arith) (omega arith) in
      let shown : get_merkle_root c m s.tree ≡ root = rw (root_eq, get_merkle_root) refl in
      let window : slice start (start + n) (m.committed s.tree) ≡ r.selected_leaves = rw back (
        ap (slice start end) (committed_lem c m s v e)
        ∙ slice-map c m start end s.completed
        ∙ ap (map (merkle_hash c)) (sym data_eq)
        ∙ sym leaves_eq) in
      let sizes =
        subst (All (λ l. length l ≡ 32)) (sym leaves_eq) (hashes_convert r.selected_leaves_data) in
      let moved = ap₂ (λ ls k. m.verify p root (range start n) ls k) window count in
      subst
        (λ t.
          check_proof m (record {
            root = t;
            proof = r.proof;
            leaves_count = length s.completed;
            leaves_chunk = r.selected_leaves;
            leaves_indices = range start n;
          })
          ≡ ok true)
        (sym shown)
        (check_passes root r.proof (length s.completed) r.selected_leaves (range start n) p
          (ap m.parse_proof proof_eq ∙ parsed) size sizes (sym moved ∙ verified))

  -- Leaves that passed the session's check make up a window that passes it.
  window_worked :
      (s : MiningCore Tree) (start end : ℕ) (r : ResultOfGetProof)
      → Inv c m s
      → r.selected_leaves_data ≡ slice start end s.completed
      → All (λ l. Leaf.verify c l s.seed s.target_bits ≡ true) r.selected_leaves_data
  window_worked s start end r v data_eq =
      subst (All (λ l. Leaf.verify c l s.seed s.target_bits ≡ true)) (sym data_eq)
        (All-slice _ start end s.completed v.proven)

  nonempty : {A : Type 0} (ls : List A) → 0 < length ls → is_empty ls ≡ false
  nonempty [] h = absurd (omega arith)
  nonempty (l ∷ ls) h = refl

  lone_lem : (root : Bytes) → lone_leaf (root ∷ []) root ≡ true
  unfolding lone_leaf
  lone_lem root = bytes_eq_refl root

  presented :
      (s : MiningCore Tree) (r : ResultOfGetProof) (count : ℕ) (is : List ℕ)
      → Presentable s (session_proof r)
      → check_proof m (record {
        root = get_merkle_root c m s.tree;
        proof = r.proof;
        leaves_count = count;
        leaves_chunk = r.selected_leaves;
        leaves_indices = is;
      })
        ≡ ok true
      → validate_proof m (record {
        root = get_merkle_root c m s.tree;
        proof = r.proof;
        leaves_count = count;
        leaves_chunk = r.selected_leaves;
        leaves_indices = is;
      })
        ≡ ok true
  unfolding validate_proof
  presented s r count is (inl filled) fits = rw filled fits
  presented s r count is (inr lone) fits = ground (
    arith,
    lone_lem (get_merkle_root c m s.tree),
    ap (λ ls. lone_leaf ls (get_merkle_root c m s.tree)) lone,
  )

  -- The proof that a committed session of fewer than 2 ^ 32 leaves, whose tree and leaves agree
  -- (`Inv`), makes for a window of its leaves is in order for the verifier, for the session's seed and
  -- complexity, the window, and the root and the number of leaves that the session submits; provided
  -- the proof is not empty, or the window is the root alone.
  pub mined-Proven :
      (s : MiningCore Tree) (start end : ℕ) (r : ResultOfGetProof)
      → Inv c m s
      → s.committed ≡ true
      → length s.completed < 2 ^ 32
      → get_proof c m s start end ≡ ok r
      → Presentable s (session_proof r)
      → Proven c m s.seed s.target_bits (start, end) (session_submit (snapshot s)) (session_proof r)
  unfolding validate_proof session_submit
  mined-Proven s start end r v e small h presentable =
      let (lt, le) = (get_proof_iff c m s start end v e).0 (ap is_ok h) in
      let (data_eq, leaves_eq, _) = get_proof_selects c m s start end r v e h in
      let count : length (get_merkle_leaves c m s.tree) ≡ length s.completed =
        ap length (get_merkle_leaves_lem c m s.tree ∙ committed_lem c m s v e)
        ∙ length-map (merkle_hash c) s.completed in
      let narrow : as_u32 (length (get_merkle_leaves c m s.tree)) ≡ length s.completed =
        omega arith in
      let window : indices (start, end) ≡ range start (end - start) =
        let low : as_u32 start ≡ start = omega arith in
        let high : as_u32 end ≡ end = omega arith in ap₂ (λ a b. range a (b - a)) low high in
      let fits = window_checks s start end r v e lt le h in
      record {
        merkle =
            ap₂
              (λ k is. validate_proof m (record {
                root = get_merkle_root c m s.tree;
                proof = r.proof;
                leaves_count = k;
                leaves_chunk = r.selected_leaves;
                leaves_indices = is;
              }))
              narrow window
            ∙ presented s r (length s.completed) (range start (end - start)) presentable fits;
        some_leaf =
            nonempty r.selected_leaves_data
              (omega (arith, ap length data_eq, length-slice start end s.completed le));
        worked = window_worked s start end r v data_eq;
      }
