-- ===== src/Shared/Leaf/Difficulty.antt =====
-- The work that an accepted leaf shows: the leading bits of its hash.
use native.Mathlib.Nat.{
  pow-suc, pow-le-pow_right, div-eq_of_lt, div-mul-le_self, mul_assoc, mul_comm, mul-le-mul_right,
}
use bee_engine.Base.{
  ℕ, zero, suc, ◌+◌, ◌-◌, ◌*◌, ◌/◌, ◌%◌, ◌^◌, ◌≤◌, ◌<◌, ◌≡◌, refl, sym, ap, ◌∙◌, true, false, List,
  [], ◌∷◌, Option, none, some, arith, ltb, Bool-cases, inl, inr,
}
use bee_engine.Base.Bytes.{Bytes, from_be_onto, from_be_bytes}
use bee_engine.Base.Lists.{length, take, get_elem?, length-take}
use bee_engine.Shared.Leaf.{Primitives, ComputedLeaf, u128_max, hash_num, verify}
use bee_engine.Shared.Leaf.Verify.{verify_iff}

-- The bit of a byte string at a position, the highest bit of the first byte at 0.
abbrev pub bit_at : Bytes → ℕ → Option ℕ
bit_at bytes i = elim (get_elem? bytes (i / 8)) [
  | none ↦ none
  | some b ↦ some (b / 2 ^ (7 - i % 8) % 2)
]

get_elem-take {ℓ} :
    {A : Type ℓ} (n i : ℕ) (xs : List A)
    → i < n
    → i < length xs
    → (x : A) × (get_elem? xs i ≡ some x) × (get_elem? (take n xs) i ≡ some x)
get_elem-take zero i xs h h' = absurd (omega arith)
get_elem-take (suc n) i [] h h' = absurd (omega arith)
get_elem-take (suc n) zero (x ∷ xs) h h' = (x, refl, refl)
get_elem-take (suc n) (suc i) (x ∷ xs) h h' = get_elem-take n i xs (omega arith) (omega arith)

pow_add : (a b : ℕ) → 2 ^ (a + b) ≡ 2 ^ a * 2 ^ b
pow_add a zero = let e : a + 0 ≡ a = omega arith in ap (λ n. 2 ^ n) e ∙ grind arith
pow_add a (suc b) =
    let e : a + suc b ≡ suc (a + b) = omega arith in
    ap (λ n. 2 ^ n) e ∙ grind (arith, pow_add a b, pow-suc 2 (a + b), pow-suc 2 b)

pow_bytes : (n : ℕ) → 256 ^ n ≡ 2 ^ (8 * n)
pow_bytes zero = refl
pow_bytes (suc n) =
    let e : 8 * suc n ≡ 8 * n + 8 = omega arith in
    let more : 256 ^ suc n ≡ 2 ^ (8 * n + 8) =
      grind (arith, pow-suc 256 n, pow_bytes n, pow_add (8 * n) 8) in
    more ∙ sym (ap (λ k. 2 ^ k) e)

add_below : (acc b : ℕ) → acc * 256 ≤ acc * 256 + b
add_below acc b = omega arith

acc_le : (acc : ℕ) (bs : Bytes) → acc * 256 ^ length bs ≤ from_be_onto acc bs
unfolding from_be_onto
acc_le acc [] = omega arith
acc_le acc (b ∷ bs) =
    let power : 256 ^ suc (length bs) ≡ 256 ^ length bs * 256 = pow-suc 256 (length bs) in
    let grown : acc * 256 * 256 ^ length bs ≤ (acc * 256 + b) * 256 ^ length bs =
      mul-le-mul_right (256 ^ length bs) (add_below acc b) in
    let same : acc * 256 ^ suc (length bs) ≡ acc * 256 * 256 ^ length bs =
      ap (λ n. acc * n) (power ∙ mul_comm (256 ^ length bs) 256)
      ∙ sym (mul_assoc acc 256 (256 ^ length bs)) in
    let later : (acc * 256 + b) * 256 ^ length bs ≤ from_be_onto (acc * 256 + b) bs =
      acc_le (acc * 256 + b) bs in
    omega arith

-- What a byte adds to the number that a byte string spells.
byte_le :
    (acc i n : ℕ) (bs : Bytes) (b : ℕ)
    → get_elem? bs i ≡ some b
    → suc (i + n) ≡ length bs
    → b * 256 ^ n ≤ from_be_onto acc bs
unfolding from_be_onto
byte_le acc i n [] b h e = absurd (cc)
byte_le acc zero n (x ∷ bs) b h e =
    let same : x ≡ b = ground arith in
    let count : n ≡ length bs = omega arith in
    let more : b ≤ acc * 256 + x = omega arith in
    let grown : b * 256 ^ n ≤ (acc * 256 + x) * 256 ^ n = mul-le-mul_right (256 ^ n) more in
    let whole : (acc * 256 + x) * 256 ^ n ≤ from_be_onto (acc * 256 + x) bs =
      rw count (acc_le (acc * 256 + x) bs) in
    omega arith
byte_le acc (suc i) n (x ∷ bs) b h e = byte_le (acc * 256 + x) i n bs b h (omega arith)

-- A byte of a small number is small.
byte_small :
    (b n v k complexity : ℕ)
    → b * 256 ^ n ≤ v
    → v * 2 ^ complexity < 2 ^ 128
    → 128 ≤ k + 8 * n + complexity
    → b < 2 ^ k
byte_small b n v k complexity le small far = elim (Bool-cases (ltb b (2 ^ k))) [
  | inl below ↦ ground arith
  | inr above ↦
      let power : 2 ^ k * 256 ^ n * 2 ^ complexity ≡ 2 ^ (k + 8 * n + complexity) =
        ap (λ x. 2 ^ k * x * 2 ^ complexity) (pow_bytes n)
        ∙ ap (λ x. x * 2 ^ complexity) (sym (pow_add k (8 * n)))
        ∙ sym (pow_add (k + 8 * n) complexity) in
      let large : 2 ^ 128 ≤ 2 ^ (k + 8 * n + complexity) = pow-le-pow_right (omega arith) far in
      let first : 2 ^ k * 256 ^ n ≤ b * 256 ^ n = mul-le-mul_right (256 ^ n) (ground arith) in
      let second : 2 ^ k * 256 ^ n ≤ v = omega arith in
      let third : 2 ^ k * 256 ^ n * 2 ^ complexity ≤ v * 2 ^ complexity =
        mul-le-mul_right (2 ^ complexity) second in
      absurd (omega arith)
]

module _ (c : Primitives) where
  -- Work: the first bits of the hash of an accepted leaf, as many as its complexity says, are zero.
  pub verify-difficulty :
      (l : ComputedLeaf) (seed : Bytes) (complexity i : ℕ)
      → verify c l seed complexity ≡ true
      → i < complexity
      → bit_at l.hash i ≡ some 0
  unfolding hash_num from_be_bytes
  verify-difficulty l seed complexity i h lt =
      let (_, _, short, hashed, below) = (verify_iff c l seed complexity).0 h in
      let size : length l.hash ≡ 32 = ap length hashed ∙ c.length-blake3 _ in
      let long : ltb (length l.hash) 16 ≡ false = ground arith in
      let value : hash_num l ≡ from_be_onto 0 (take 16 l.hash) = rw long refl in
      let small : hash_num l * 2 ^ complexity < 2 ^ 128 =
        grind (arith, below, div-mul-le_self u128_max (2 ^ complexity)) in
      let (b, here, there) = get_elem-take 16 (i / 8) l.hash (omega arith) (omega arith) in
      let count : suc (i / 8 + (15 - i / 8)) ≡ length (take 16 l.hash) =
        omega (arith, length-take 16 l.hash) in
      let spelled = byte_le 0 (i / 8) (15 - i / 8) (take 16 l.hash) b there count in
      let b_small =
        byte_small b (15 - i / 8) (hash_num l) (7 - i % 8) complexity (omega arith) small
          (omega arith) in
      rw (here, bit_at, div-eq_of_lt b_small) refl
