-- ===== src/Shared/Leaf/Preimage.antt =====
-- The bytes that are hashed determine the leaf.
use bee_engine.Base.{ℕ, ◌^◌, ◌<◌, ◌≡◌, refl, sym, ap, ◌∙◌, [], ◌∷◌, ◌++◌, arith}
use bee_engine.Base.Bytes.{Bytes, be_bytes, length-be_bytes, be_bytes-injective}
use bee_engine.Base.Lists.{length, length-append}
use bee_engine.Shared.Leaf.{Leaf, preimage}

-- Every field is in the range of its type.
pub record InRange (l : Leaf) : Type 0 where
  pub x : l.x < 2 ^ 32
  pub y : l.y < 2 ^ 32
  pub timestamp : l.timestamp < 2 ^ 64
  pub complexity : l.complexity < 2 ^ 32
  pub index : l.index < 2 ^ 128
  pub nonce : l.nonce < 2 ^ 64

append_split :
    (xs ys : Bytes) {us vs : Bytes}
    → length xs ≡ length ys
    → xs ++ us ≡ ys ++ vs
    → (xs ≡ ys) × (us ≡ vs)
append_split [] [] e h = (refl, h)
append_split [] (y ∷ ys) e h = absurd (omega arith)
append_split (x ∷ xs) [] e h = absurd (omega arith)
append_split (x ∷ xs) (y ∷ ys) {us} {vs} e h =
    let tails : xs ++ us ≡ ys ++ vs = cc in
    let heads : x ≡ y = cc in
    let (p, q) = append_split xs ys {us = us} {vs = vs} (omega arith) tails in (cc, q)

-- A field of fixed width in front of the rest.
field_split :
    (n a b : ℕ) {us vs : Bytes}
    → a < 256 ^ n
    → b < 256 ^ n
    → be_bytes n a ++ us ≡ be_bytes n b ++ vs
    → (a ≡ b) × (us ≡ vs)
field_split n a b {us} {vs} ha hb h =
    let (p, q) =
      append_split (be_bytes n a) (be_bytes n b) {us = us} {vs = vs}
        (length-be_bytes n a ∙ sym (length-be_bytes n b)) h in
    (be_bytes-injective n a b ha hb p, q)

-- The variable part, before a suffix of known length.
prefix_split :
    (xs ys : Bytes) {us vs : Bytes}
    → length us ≡ length vs
    → xs ++ us ≡ ys ++ vs
    → (xs ≡ ys) × (us ≡ vs)
prefix_split xs ys {us} {vs} e h =
    append_split xs ys (omega (arith, length-append xs us, length-append ys vs, ap length h, e)) h

abbrev suffix : Leaf → Bytes
suffix l = be_bytes 16 l.index ++ be_bytes 8 l.nonce

length-suffix : (l : Leaf) → length (suffix l) ≡ 24
length-suffix l = omega (
  arith,
  length-append (be_bytes 16 l.index) (be_bytes 8 l.nonce),
  length-be_bytes 16 l.index,
  length-be_bytes 8 l.nonce,
)

-- Two leaves with fields in range that are hashed as the same bytes are the same leaf: the seed,
-- which alone has no fixed width, stands between fields that have one.
pub preimage-injective : (l m : Leaf) → InRange l → InRange m → preimage l ≡ preimage m → l ≡ m
unfolding preimage
preimage-injective l m hl hm e0 =
    let (ex, e1) = field_split 4 l.x m.x (omega arith) (omega arith) e0 in
    let (ey, e2) = field_split 4 l.y m.y (omega arith) (omega arith) e1 in
    let (et, e3) = field_split 8 l.timestamp m.timestamp (omega arith) (omega arith) e2 in
    let (ec, e4) = field_split 4 l.complexity m.complexity (omega arith) (omega arith) e3 in
    let (es, e5) = prefix_split l.seed m.seed (length-suffix l ∙ sym (length-suffix m)) e4 in
    let (ei, e6) = field_split 16 l.index m.index (omega arith) (omega arith) e5 in
    let (en, _) =
      field_split 8 l.nonce m.nonce {us = []} {vs = []} (omega arith) (omega arith)
        (ap (λ v. v ++ []) e6) in
    cc (ex, ey, et, ec, es, ei, en)
