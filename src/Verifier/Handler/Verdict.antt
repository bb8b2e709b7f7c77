-- ===== src/Verifier/Handler/Verdict.antt =====
-- What the six bytes of the verifier's answer say.
use bee_engine.Base.{
  ok_or-eq-ok, ℕ, ◌≡◌, ◌≢◌, refl, sym, ap, ◌∙◌, ◌↔◌, Bool, true, false, ◌&&◌, List, [], ◌∷◌, Option,
  some, Result, ok, err, ◌>>=◌, arith, Result-cases, inl, inr, >>=-eq-ok,
}
use bee_engine.Base.Bytes.{Bytes, le_bytes, length-le_bytes}
use bee_engine.Base.Lists.{length, is_empty, first, last, All}
use bee_engine.Shared.Leaf.{Primitives, ComputedLeaf}
use bee_engine.Shared.Leaf
use bee_engine.Shared.Request.{
  SessionSubmit, SessionProof, PartialVerifySession, ParamsOfVerifySession, try_from,
}
use bee_engine.Miner.Merkle.{MerkleTree}
use bee_engine.Verifier.Checks.{
  LibError, code_number, error_bytes, validate_proof, validate_leaves_iff,
}
use bee_engine.Verifier.Handler.{
  as_u32, sub_u64, indices, computation_blocks, verdict_bytes, verify_proof_and_leaves,
  verify_params, verify_request, verify,
}

pub first_exists :
    (ls : List ComputedLeaf) → is_empty ls ≡ false → (l : ComputedLeaf) × (first ls ≡ some l)
first_exists [] h = cc
first_exists (l ∷ ls) h = (l, refl)

pub last_exists :
    (ls : List ComputedLeaf) → is_empty ls ≡ false → (l : ComputedLeaf) × (last ls ≡ some l)
last_exists [] h = cc
last_exists (l ∷ []) h = (l, refl)
last_exists (l ∷ k ∷ ls) h = last_exists (k ∷ ls) refl

error_zero : (x : LibError) (tail : Bytes) → error_bytes x ≢ 1 ∷ 1 ∷ tail
unfolding error_bytes
error_zero x tail h = ground arith

module _ (c : Primitives) (m : MerkleTree) where
  -- One proof is in order: the Merkle proof verifies for the interval under the submitted root, there
  -- is a leaf, and every leaf carries its work.
  pub record Proven (seed : Bytes) (complexity : ℕ) (interval : ℕ × ℕ) (s : SessionSubmit)
      (p : SessionProof) : Type 0 where
    pub merkle :
        validate_proof m (record {
          root = s.root;
          proof = p.proof;
          leaves_count = as_u32 s.leaves_count;
          leaves_chunk = p.leaves_tree;
          leaves_indices = indices interval;
        })
        ≡ ok true
    pub some_leaf : is_empty p.leaves_data ≡ false
    pub worked : All (λ l. Leaf.verify c l seed complexity ≡ true) p.leaves_data

  -- All four proofs of a request are in order.
  pub record Accepted (p : ParamsOfVerifySession) : Type 0 where
    pub easy :
        Proven p.seed p.easy_complexity
          (p.easy_interval_start, p.easy_interval_end)
          p.easy_submit_params
          p.easy_proof_params
    pub hard_first :
        Proven p.seed p.hard_complexity (0, 1) p.hard_submit_params p.hard_first_proof_params
    pub hard_range :
        Proven p.seed p.hard_complexity
          (p.hard_interval_start, p.hard_interval_end)
          p.hard_submit_params
          p.hard_range_proof_params
    pub hard_last :
        Proven p.seed p.hard_complexity
          (sub_u64 p.hard_submit_params.leaves_count 1, p.hard_submit_params.leaves_count)
          p.hard_submit_params
          p.hard_last_proof_params

module _ (c : Primitives) (m : MerkleTree) (borsh : Bytes → Option PartialVerifySession) where
  both_true :
      (r : Result LibError Bool) (b : Bool)
      → ((r >>= λ v. ok (v && b)) ≡ ok true) ↔ ((r ≡ ok true) × (b ≡ true))
  both_true (ok true) b = ground arith
  both_true (ok false) b = ground arith
  both_true (err e) b = ground arith

  -- The check of one proof returns true exactly when the proof is in order.
  pub verify_proof_and_leaves_iff :
      (seed : Bytes) (complexity : ℕ) (interval : ℕ × ℕ) (s : SessionSubmit) (p : SessionProof)
      → (verify_proof_and_leaves c m borsh seed complexity interval s p ≡ ok true)
        ↔ Proven c m seed complexity interval s p
  unfolding verify_proof_and_leaves
  verify_proof_and_leaves_iff seed complexity interval s p = (
    λ h.
        let (merkle, leaves) = (both_true _ _).0 h in
        let (some_leaf, worked) = (validate_leaves_iff c _).0 leaves in
        record { merkle = merkle; some_leaf = some_leaf; worked = worked },
    λ v. (both_true _ _).1 (v.merkle, (validate_leaves_iff c _).1 (v.some_leaf, v.worked)),
  )

  -- What stands behind an answer that is not an error.
  record Answered (p : ParamsOfVerifySession) (answer : Bytes) : Type 0 where
    easy : Bool
    hard_first : Bool
    hard_range : Bool
    hard_last : Bool
    first_leaf : ComputedLeaf
    last_leaf : ComputedLeaf
    easy_eq :
        verify_proof_and_leaves c m borsh p.seed p.easy_complexity
          (p.easy_interval_start, p.easy_interval_end)
          p.easy_submit_params
          p.easy_proof_params
        ≡ ok easy
    hard_first_eq :
        verify_proof_and_leaves c m borsh p.seed p.hard_complexity
          (0, 1)
          p.hard_submit_params
          p.hard_first_proof_params
        ≡ ok hard_first
    hard_range_eq :
        verify_proof_and_leaves c m borsh p.seed p.hard_complexity
          (p.hard_interval_start, p.hard_interval_end)
          p.hard_submit_params
          p.hard_range_proof_params
        ≡ ok hard_range
    hard_last_eq :
        verify_proof_and_leaves c m borsh p.seed p.hard_complexity
          (sub_u64 p.hard_submit_params.leaves_count 1, p.hard_submit_params.leaves_count)
          p.hard_submit_params
          p.hard_last_proof_params
        ≡ ok hard_last
    first_eq : first p.hard_first_proof_params.leaves_data ≡ some first_leaf
    last_eq : last p.hard_last_proof_params.leaves_data ≡ some last_leaf
    answer_eq :
        answer
        ≡ verdict_bytes
            (easy && hard_first && hard_range && hard_last)
            (computation_blocks first_leaf last_leaf)

  Answered-of_ok :
      (p : ParamsOfVerifySession) (answer : Bytes)
      → verify_params c m borsh p ≡ ok answer
      → Answered p answer
  unfolding verify_params
  Answered-of_ok p answer h =
      let (easy, easy_eq, h1) = >>=-eq-ok _ _ h in
      let (hard_first, hard_first_eq, h2) = >>=-eq-ok _ _ h1 in
      let (hard_range, hard_range_eq, h3) = >>=-eq-ok _ _ h2 in
      let (hard_last, hard_last_eq, h4) = >>=-eq-ok _ _ h3 in
      let (first_leaf, first_eq, h5) = >>=-eq-ok _ _ h4 in
      let (last_leaf, last_eq, h6) = >>=-eq-ok _ _ h5 in
      record {
        easy = easy;
        hard_first = hard_first;
        hard_range = hard_range;
        hard_last = hard_last;
        first_leaf = first_leaf;
        last_leaf = last_leaf;
        easy_eq = easy_eq;
        hard_first_eq = hard_first_eq;
        hard_range_eq = hard_range_eq;
        hard_last_eq = hard_last_eq;
        first_eq = ok_or-eq-ok _ _ first_eq;
        last_eq = ok_or-eq-ok _ _ last_eq;
        answer_eq = ground (arith, h6);
      }

  -- The request decodes, and its answer is the handler's.
  decoded_of_ok :
      (req answer : Bytes)
      → verify_request c m borsh req ≡ ok answer
      → (p : ParamsOfVerifySession) × (try_from c borsh req ≡ ok p)
        × (verify_params c m borsh p ≡ ok answer)
  unfolding verify_request
  decoded_of_ok req answer h = elim (Result-cases (try_from c borsh req)) [
    | inl (p, e) ↦ (p, e, ground arith)
    | inr (x, e) ↦ absurd (ground arith)
  ]

  length-verdict_bytes : (valid : Bool) (blocks : ℕ) → length (verdict_bytes valid blocks) ≡ 6
  unfolding verdict_bytes
  length-verdict_bytes valid blocks = omega (arith, length-le_bytes 4 blocks)

  length-error_bytes : (e : LibError) → length (error_bytes e) ≡ 6
  unfolding error_bytes
  length-error_bytes e = omega (arith, length-le_bytes 4 (code_number e.code))

  -- Every answer has six bytes, whatever the request.
  length-verify : (req : Bytes) → length (verify c m borsh req) ≡ 6
  unfolding verify
  length-verify req = elim (Result-cases (verify_request c m borsh req)) [
    | inl (answer, e) ↦
        let (p, _, answered) = decoded_of_ok req answer e in
        let a = Answered-of_ok p answer answered in
        rw (e, verify, a.answer_eq) (length-verdict_bytes _ _)
    | inr (x, e) ↦ rw (e, verify) (length-error_bytes x)
  ]

  verdict_bytes-valid :
      (valid : Bool) (blocks : ℕ) (rest : Bytes)
      → verdict_bytes valid blocks ≡ 1 ∷ 1 ∷ rest
      → (valid ≡ true) × (rest ≡ le_bytes 4 blocks)
  unfolding verdict_bytes
  verdict_bytes-valid true blocks rest h = (refl, cc)
  verdict_bytes-valid false blocks rest h = ground arith

  four_true :
      (a b d e : Bool)
      → (a && b && d && e) ≡ true
      → (a ≡ true) × (b ≡ true) × (d ≡ true) × (e ≡ true)
  four_true a b d e h = ground arith

  -- An answer that begins with two ones is given only to a request that decodes and whose four proofs
  -- are all in order; its other bytes are the blocks between the first and the last leaf given.
  pub verify_sound :
      (req rest : Bytes)
      → verify c m borsh req ≡ 1 ∷ 1 ∷ rest
      → (p : ParamsOfVerifySession) × (f : ComputedLeaf) × (l : ComputedLeaf) × (try_from c borsh
            req
          ≡ ok p)
        × Accepted c m p
        × (first p.hard_first_proof_params.leaves_data ≡ some f)
        × (last p.hard_last_proof_params.leaves_data ≡ some l)
        × (rest ≡ le_bytes 4 (computation_blocks f l))
  unfolding verify
  verify_sound req rest h = elim (Result-cases (verify_request c m borsh req)) [
    | inl (answer, e) ↦
        let (p, decoded, answered) = decoded_of_ok req answer e in
        let a = Answered-of_ok p answer answered in
        let same : answer ≡ 1 ∷ 1 ∷ rest = rw (e, verify) at h in
        let (valid, tail) = verdict_bytes-valid _ _ rest (sym a.answer_eq ∙ same) in
        let (ea, eb, ed, ee) = four_true _ _ _ _ valid in
        let check = verify_proof_and_leaves_iff in
        (
          p,
          a.first_leaf,
          a.last_leaf,
          decoded,
          record {
            easy = (check _ _ _ _ _).0 (a.easy_eq ∙ ap ok ea);
            hard_first = (check _ _ _ _ _).0 (a.hard_first_eq ∙ ap ok eb);
            hard_range = (check _ _ _ _ _).0 (a.hard_range_eq ∙ ap ok ed);
            hard_last = (check _ _ _ _ _).0 (a.hard_last_eq ∙ ap ok ee);
          },
          a.first_eq,
          a.last_eq,
          tail,
        )
    | inr (x, e) ↦
        let same : error_bytes x ≡ 1 ∷ 1 ∷ rest = rw (e, verify) at h in
        absurd (error_zero x rest same)
  ]

  params_complete :
      (p : ParamsOfVerifySession) (f l : ComputedLeaf)
      → Accepted c m p
      → first p.hard_first_proof_params.leaves_data ≡ some f
      → last p.hard_last_proof_params.leaves_data ≡ some l
      → verify_params c m borsh p ≡ ok (verdict_bytes true (computation_blocks f l))
  unfolding verify_params
  params_complete p f l a ef el =
      let check = verify_proof_and_leaves_iff in
      rw
        (
          (check _ _ _ _ _).1 a.easy,
          (check _ _ _ _ _).1 a.hard_first,
          (check _ _ _ _ _).1 a.hard_range,
          (check _ _ _ _ _).1 a.hard_last,
          ef,
          el,
        )
        refl

  -- When all four proofs are in order, the answer is two ones and the blocks between the times of the
  -- first leaf given and of the last leaf given.
  pub verify_complete :
      (req : Bytes) (p : ParamsOfVerifySession)
      → try_from c borsh req ≡ ok p
      → Accepted c m p
      → (f : ComputedLeaf) × (l : ComputedLeaf) × (first p.hard_first_proof_params.leaves_data
          ≡ some f)
        × (last p.hard_last_proof_params.leaves_data ≡ some l)
        × (verify c m borsh req ≡ 1 ∷ 1 ∷ le_bytes 4 (computation_blocks f l))
  unfolding verify verify_request verdict_bytes
  verify_complete req p decoded a =
      let (f, ef) = first_exists p.hard_first_proof_params.leaves_data a.hard_first.some_leaf in
      let (l, el) = last_exists p.hard_last_proof_params.leaves_data a.hard_last.some_leaf in
      (f, l, ef, el, ground (arith, params_complete p f l a ef el))
