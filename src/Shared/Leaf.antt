-- ===== src/Shared/Leaf.antt =====
-- bee_shared/src/miner/leaf.rs: a unit of mining work, its hash, and the check of both.
-- A string is its bytes. Integers are natural numbers; the ranges of their types are hypotheses.
pub mod Difficulty
pub mod Preimage
pub mod Verify
use bee_engine.Base.{
  ℕ, zero, suc, ◌+◌, ◌-◌, ◌/◌, ◌%◌, ◌^◌, ◌≡◌, Bool, true, false, not, ◌&&◌, ◌||◌, List, [], ◌∷◌,
  ◌++◌, ltb, leb, ◌==◌, if◌then◌else◌,
}
use bee_engine.Base.Bytes.{Bytes, be_bytes, from_be_bytes, bytes_eq}
use bee_engine.Base.Lists.{length, take}

-- The crates `blake3` and `hex`. A BLAKE3 hash has 32 bytes.
pub record Primitives : Type 0 where
  pub blake3 : Bytes → Bytes
  pub hex_encode : Bytes → Bytes
  pub length-blake3 : (data' : Bytes) → length (blake3 data') ≡ 32

pub record Leaf : Type 0 where
  pub index : ℕ
  pub nonce : ℕ
  pub seed : Bytes
  pub x : ℕ
  pub y : ℕ
  pub timestamp : ℕ
  pub complexity : ℕ

pub record ComputedLeaf : Type 0 where
  pub index : ℕ
  pub nonce : ℕ
  pub seed : Bytes
  pub x : ℕ
  pub y : ℕ
  pub timestamp : ℕ
  pub complexity : ℕ
  pub hash : Bytes

abbrev pub u128_max : ℕ
u128_max = 2 ^ 128 - 1

-- `impl From<ComputedLeaf> for Leaf`
abbrev pub to_leaf : ComputedLeaf → Leaf
to_leaf l = record {
  index = l.index;
  nonce = l.nonce;
  seed = l.seed;
  x = l.x;
  y = l.y;
  timestamp = l.timestamp;
  complexity = l.complexity;
}

-- What `Leaf::compute` feeds to the hasher, in order.
unfoldable pub preimage : Leaf → Bytes
preimage l =
    be_bytes 4 l.x
    ++ (be_bytes 4 l.y
        ++ (be_bytes 8 l.timestamp
            ++ (be_bytes 4 l.complexity
                ++ (l.seed ++ (be_bytes 16 l.index ++ be_bytes 8 l.nonce)))))

-- The decimal digits of a number, as `{}` prints it; `fuel` above the number is enough.
digits_onto : ℕ → ℕ → Bytes → Bytes
digits_onto zero n rest = rest
digits_onto (suc fuel) n rest =
    let more = digits_onto fuel (n / 10) ((48 + n % 10) ∷ rest) in
    if ltb n 10 then (48 + n) ∷ rest else more

unfoldable pub decimal : ℕ → Bytes
unfolding digits_onto
decimal n = digits_onto (n + 1) n []

-- An unsigned `u128::from_be_bytes` of the first 16 bytes, or the sentinel for a short hash.
unfoldable pub hash_num : ComputedLeaf → ℕ
unfolding from_be_bytes
hash_num l = if ltb (length l.hash) 16 then u128_max else from_be_bytes (take 16 l.hash)

module _ (c : Primitives) where
  open c use {blake3, hex_encode}

  unfoldable pub compute : Leaf → ComputedLeaf
  compute l = record {
    index = l.index;
    nonce = l.nonce;
    seed = l.seed;
    x = l.x;
    y = l.y;
    timestamp = l.timestamp;
    complexity = l.complexity;
    hash = blake3 (preimage l);
  }

  -- The text that `merkle_hash` formats, with the labels' bytes written as in the source.
  merkle_text : ComputedLeaf → Bytes
  merkle_text l =
      (b'i' ∷ b'n' ∷ b'd' ∷ b'e' ∷ b'x' ∷ b':' ∷ decimal l.index)
      ++ ((b',' ∷ b'n' ∷ b'o' ∷ b'n' ∷ b'c' ∷ b'e' ∷ b':' ∷ decimal l.nonce)
          ++ ((b',' ∷ b's' ∷ b'e' ∷ b'e' ∷ b'd' ∷ b':' ∷ l.seed)
              ++ ((b',' ∷ b'x' ∷ b':' ∷ decimal l.x)
                  ++ ((b',' ∷ b'y' ∷ b':' ∷ decimal l.y)
                      ++ ((b','
                            ∷ b't'
                            ∷ b'i'
                            ∷ b'm'
                            ∷ b'e'
                            ∷ b's'
                            ∷ b't'
                            ∷ b'a'
                            ∷ b'm'
                            ∷ b'p'
                            ∷ b':'
                            ∷ decimal l.timestamp)
                          ++ ((b','
                                ∷ b'c'
                                ∷ b'o'
                                ∷ b'm'
                                ∷ b'p'
                                ∷ b'l'
                                ∷ b'e'
                                ∷ b'x'
                                ∷ b'i'
                                ∷ b't'
                                ∷ b'y'
                                ∷ b':'
                                ∷ decimal l.complexity)
                              ++ (b',' ∷ b'h' ∷ b'a' ∷ b's' ∷ b'h' ∷ b':' ∷ hex_encode l.hash)))))))

  unfoldable pub merkle_hash : ComputedLeaf → Bytes
  unfolding merkle_text
  merkle_hash l = blake3 (merkle_text l)

  -- `ComputedLeaf::verify`
  unfoldable pub verify : ComputedLeaf → Bytes → ℕ → Bool
  verify l seed complexity =
      if not (bytes_eq l.seed seed) || not (l.complexity == complexity)
      then false
      else (if leb 128 l.complexity
          then false
          else bytes_eq l.hash (compute (to_leaf l)).hash
            && ltb (hash_num l) (u128_max / 2 ^ l.complexity))
