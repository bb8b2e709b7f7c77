-- ===== src/Verifier/Handler/Session.antt =====
-- A whole session: two committed cores, the request built of their proofs, and the answer.
use bee_engine.Base.{
  ℕ, ◌-◌, ◌/◌, ◌^◌, ◌≤◌, ◌<◌, ◌≡◌, refl, sym, ap, subst, ◌∙◌, true, ◌∷◌, Option, some, ok,
  map_err-eq-ok, arith, >>=-eq-ok, is_ok,
}
use bee_engine.Base.Bytes.{Bytes, le_bytes}
use bee_engine.Base.Lists.{length, slice, first, last, length-map}
use bee_engine.Shared.Leaf.{Primitives, ComputedLeaf, merkle_hash}
use bee_engine.Shared.Request.{SessionSubmit, SessionProof, PartialVerifySession, hex_seed}
use bee_engine.Shared.Request.Header.{Header, FitsHeader, encode, request, try_from-encode}
use bee_engine.Miner.Merkle.{MerkleTree, get_merkle_leaves_lem}
use bee_engine.Miner.Context.{MiningCore, ResultOfGetProof, get_proof}
use bee_engine.Miner.Context.Session.{Inv}
use bee_engine.Miner.Context.Timeline.{Timely, watermark}
use bee_engine.Miner.Context.Window.{get_proof_selects, get_proof_iff, committed_lem}
use bee_engine.Miner.Submission.{
  SessionInterval, as_usize, SessionProofs, session_submit, session_proof, submit_session_proof,
}
use bee_engine.Verifier.Handler.{as_u32, sub_u64, computation_blocks, verify}
use bee_engine.Verifier.Handler.Verdict.{Proven, Accepted, verify_complete}
use bee_engine.Verifier.Handler.Mined.{snapshot, Presentable, mined-Proven}
use bee_engine.Verifier.Handler.Ends.{first_window, last_window, last-bounded, first-le-last}

-- The bounds of the contract's intervals are below 2 ^ 32.
abbrev pub Addressable : SessionInterval → Type 0
Addressable i =
    (i.easy_start < 2 ^ 32)
    × (i.easy_end < 2 ^ 32)
    × (i.hard_start < 2 ^ 32)
    × (i.hard_end < 2 ^ 32)

as_usize_lem : (n : ℕ) → n < 2 ^ 32 → as_usize n ≡ n
as_usize_lem n small = omega arith

module _ (c : Primitives) (m : MerkleTree) where
  open m use {Tree}

  -- A core as `run` leaves it for the submission.
  pub record Ready (s : MiningCore Tree) : Type 0 where
    pub inv : Inv c m s
    pub timely : Timely s
    pub committed : s.committed ≡ true
    pub short : length s.completed < 2 ^ 32
    pub in_range : watermark s.last_now_ms < 2 ^ 64

  -- The four proofs, each of them made by `get_proof` and none of them unpresentable.
  pub record Collected (easy hard : MiningCore Tree) (i : SessionInterval) (ps : SessionProofs)
      : Type 0 where
    pub easy_proof : ResultOfGetProof
    pub first_proof : ResultOfGetProof
    pub range_proof : ResultOfGetProof
    pub last_proof : ResultOfGetProof
    pub easy_made : get_proof c m easy i.easy_start i.easy_end ≡ ok easy_proof
    pub first_made : get_proof c m hard 0 1 ≡ ok first_proof
    pub range_made : get_proof c m hard i.hard_start i.hard_end ≡ ok range_proof
    pub last_made :
        get_proof c m hard
          (length (snapshot c m hard).leaves - 1)
          (length (snapshot c m hard).leaves)
        ≡ ok last_proof
    pub proofs : ps ≡ record {
      easy = session_proof easy_proof;
      hard_first = session_proof first_proof;
      hard_range = session_proof range_proof;
      hard_last = session_proof last_proof;
    }

  exact :
      (s : MiningCore Tree) (start end : ℕ) (r : ResultOfGetProof)
      → start < 2 ^ 32
      → end < 2 ^ 32
      → get_proof c m s (as_usize start) (as_usize end) ≡ ok r
      → get_proof c m s start end ≡ ok r
  exact s start end r small small' h = rw (as_usize_lem start small, as_usize_lem end small') at h

  pub submit-Collected :
      (easy hard : MiningCore Tree) (i : SessionInterval) (ps : SessionProofs)
      → Addressable i
      → submit_session_proof c m easy hard (snapshot c m hard) i ≡ ok ps
      → Collected easy hard i ps
  unfolding submit_session_proof
  submit-Collected easy hard i ps (a1, a2, a3, a4) h =
      let (e, e_eq, h1) = >>=-eq-ok _ _ h in
      let (f, f_eq, h2) = >>=-eq-ok _ _ h1 in
      let (r, r_eq, h3) = >>=-eq-ok _ _ h2 in
      let (l, l_eq, h4) = >>=-eq-ok _ _ h3 in
      record {
        easy_proof = e;
        first_proof = f;
        range_proof = r;
        last_proof = l;
        easy_made = exact easy i.easy_start i.easy_end e a1 a2 (map_err-eq-ok _ _ _ e_eq);
        first_made = map_err-eq-ok _ _ _ f_eq;
        range_made = exact hard i.hard_start i.hard_end r a3 a4 (map_err-eq-ok _ _ _ r_eq);
        last_made = map_err-eq-ok _ _ _ l_eq;
        proofs = ground (arith, h4);
      }

  -- The borsh part of the request.
  abbrev pub rest_of : MiningCore Tree → MiningCore Tree → SessionProofs → PartialVerifySession
  rest_of easy hard ps = record {
    easy_submit_params = session_submit (snapshot c m easy);
    hard_submit_params = session_submit (snapshot c m hard);
    easy_proof_params = ps.easy;
    hard_first_proof_params = ps.hard_first;
    hard_range_proof_params = ps.hard_range;
    hard_last_proof_params = ps.hard_last;
  }

  -- The header that the contract puts in front, for the session's seed.
  abbrev pub header_of : Bytes → MiningCore Tree → MiningCore Tree → SessionInterval → Header
  header_of seed easy hard i = record {
    seed = seed;
    easy_complexity = easy.target_bits;
    easy_interval_start = i.easy_start;
    easy_interval_end = i.easy_end;
    hard_complexity = hard.target_bits;
    hard_interval_start = i.hard_start;
    hard_interval_end = i.hard_end;
  }

  count_lem : (s : MiningCore Tree) → Ready s → length (snapshot c m s).leaves ≡ length s.completed
  count_lem s v =
      ap length (get_merkle_leaves_lem c m s.tree ∙ committed_lem c m s v.inv v.committed)
      ∙ length-map (merkle_hash c) s.completed

  moved :
      {seed seed' : Bytes} (bits : ℕ) {i i' : ℕ × ℕ} (sub : SessionSubmit) {p p' : SessionProof}
      → seed ≡ seed'
      → i ≡ i'
      → p ≡ p'
      → Proven c m seed bits i sub p
      → Proven c m seed' bits i' sub p'
  moved {seed' = seed'} bits {i = i} {i' = i'} sub {p = p} es ei ep h =
      subst (λ x. Proven c m seed' bits i' sub x) ep
        (subst (λ x. Proven c m seed' bits x sub p) ei
          (subst (λ x. Proven c m x bits i sub p) es h))

  -- The last interval, where the session has a leaf.
  last_interval : (n : ℕ) → 0 < n → n < 2 ^ 32 → ◌≡◌ {A = ℕ × ℕ} (n - 1, n) (sub_u64 n 1, n)
  last_interval n pos small = let e : n - 1 ≡ sub_u64 n 1 = omega arith in ap (λ k. (k, n)) e

  pub Collected-Accepted :
      (seed : Bytes) (easy hard : MiningCore Tree) (i : SessionInterval) (ps : SessionProofs)
      (g : Collected easy hard i ps)
      → Ready easy
      → Ready hard
      → easy.seed ≡ hex_seed c seed
      → hard.seed ≡ hex_seed c seed
      → Presentable c m easy ps.easy
      → Presentable c m hard ps.hard_first
      → Presentable c m hard ps.hard_range
      → Presentable c m hard ps.hard_last
      → Accepted c m (request c (header_of seed easy hard i) (rest_of easy hard ps))
  unfolding session_submit
  Collected-Accepted seed easy hard i ps g ve vh se sh pe pf pr pl =
      let count = count_lem hard vh in
      let some_leaf = (get_proof_iff c m hard 0 1 vh.inv vh.committed).0 (ap is_ok g.first_made) in
      record {
        easy = moved easy.target_bits _ se refl (sym (ap (λ q. q.easy) g.proofs)) (
            mined-Proven c m easy _ _ g.easy_proof ve.inv ve.committed ve.short g.easy_made
              (subst (Presentable c m easy) (ap (λ q. q.easy) g.proofs) pe));
        hard_first = moved hard.target_bits _ sh refl (sym (ap (λ q. q.hard_first) g.proofs)) (
            mined-Proven c m hard _ _ g.first_proof vh.inv vh.committed vh.short g.first_made
              (subst (Presentable c m hard) (ap (λ q. q.hard_first) g.proofs) pf));
        hard_range = moved hard.target_bits _ sh refl (sym (ap (λ q. q.hard_range) g.proofs)) (
            mined-Proven c m hard _ _ g.range_proof vh.inv vh.committed vh.short g.range_made
              (subst (Presentable c m hard) (ap (λ q. q.hard_range) g.proofs) pr));
        hard_last =
            moved hard.target_bits _ sh
              (last_interval (length (snapshot c m hard).leaves) (omega arith)
                (omega (arith, vh.short)))
              (sym (ap (λ q. q.hard_last) g.proofs))
              (mined-Proven c m hard _ _ g.last_proof vh.inv vh.committed vh.short g.last_made
                (subst (Presentable c m hard) (ap (λ q. q.hard_last) g.proofs) pl));
      }

  blocks_lem :
      (f l : ComputedLeaf)
      → f.timestamp ≤ l.timestamp
      → l.timestamp < 2 ^ 64
      → computation_blocks f l ≡ as_u32 ((l.timestamp - f.timestamp) / 330)
  unfolding computation_blocks
  blocks_lem f l le small =
      let e : sub_u64 l.timestamp f.timestamp ≡ l.timestamp - f.timestamp = omega arith in
      ap (λ t. as_u32 (t / 330)) e

  -- A request made of two committed sessions on one seed, with the four proofs that the worker
  -- collects for the contract's intervals and the header that the contract puts in front, is answered
  -- with two ones and the number of 330 ms blocks between the first and the last leaf of the hard
  -- session. The sessions are as every history leaves them (`Inv` and `Timely`), have fewer than
  -- 2 ^ 32 leaves and times below 2 ^ 64; the header's fields are in range, and the bounds of the
  -- intervals below 2 ^ 32, where the cast to the browser's usize keeps them; the decoder reads the
  -- rest of the request back; and none of the four proofs is empty, unless its one leaf is the root.
  pub session_verified :
      (borsh : Bytes → Option PartialVerifySession) (seed rest : Bytes)
      (easy hard : MiningCore Tree) (i : SessionInterval) (ps : SessionProofs)
      → Ready easy
      → Ready hard
      → easy.seed ≡ hex_seed c seed
      → hard.seed ≡ hex_seed c seed
      → FitsHeader (header_of seed easy hard i)
      → borsh rest ≡ some (rest_of easy hard ps)
      → Addressable i
      → submit_session_proof c m easy hard (snapshot c m hard) i ≡ ok ps
      → Presentable c m easy ps.easy
      → Presentable c m hard ps.hard_first
      → Presentable c m hard ps.hard_range
      → Presentable c m hard ps.hard_last
      → (f : ComputedLeaf) × (l : ComputedLeaf) × (first hard.completed ≡ some f)
        × (last hard.completed ≡ some l)
        × (verify c m borsh (encode (header_of seed easy hard i) rest)
            ≡ 1 ∷ 1 ∷ le_bytes 4 (as_u32 ((l.timestamp - f.timestamp) / 330)))
  session_verified borsh seed rest easy hard i ps ve vh se sh fits decoded small made pe pf pr pl =
      let g = submit-Collected easy hard i ps small made in
      let accepted = Collected-Accepted seed easy hard i ps g ve vh se sh pe pf pr pl in
      let read =
        try_from-encode c borsh (header_of seed easy hard i) rest (rest_of easy hard ps) fits
          decoded in
      let (f, l, ef, el, answer) = verify_complete c m borsh _ _ read accepted in
      let (first_data, _, _) =
        get_proof_selects c m hard 0 1 g.first_proof vh.inv vh.committed g.first_made in
      let (last_data, _, _) =
        get_proof_selects c m hard _ _ g.last_proof vh.inv vh.committed g.last_made in
      let ef' : first hard.completed ≡ some f =
        sym (first_window hard.completed)
        ∙ sym (ap first first_data)
        ∙ sym (ap (λ q. first q.hard_first.leaves_data) g.proofs)
        ∙ ef in
      let el' : last hard.completed ≡ some l =
        sym (last_window hard.completed)
        ∙ sym (ap (λ n. last (slice (n - 1) n hard.completed)) (count_lem hard vh))
        ∙ sym (ap last last_data)
        ∙ sym (ap (λ q. last q.hard_last.leaves_data) g.proofs)
        ∙ el in
      let ordered = vh.timely.ordered in
      let le = first-le-last hard.completed _ f l ordered ef' el' in
      let bound = last-bounded hard.completed _ l ordered el' in
      (
        f,
        l,
        ef',
        el',
        answer
            ∙ ap (λ b. 1 ∷ 1 ∷ le_bytes 4 b)
                (blocks_lem f l le (omega (arith, bound, vh.in_range))),
      )
