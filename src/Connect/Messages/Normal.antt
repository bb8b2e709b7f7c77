-- ===== src/Connect/Messages/Normal.antt =====
-- The normal forms are normal.
use bee_engine.Base.{
  ℕ, zero, suc, ◌-◌, ◌≤◌, ◌≡◌, refl, sym, ap, ◌∙◌, true, false, [], ◌∷◌, ◌++◌, ok, arith, ltb,
  subst,
}
use bee_engine.Base.Bytes.{Bytes}
use bee_engine.Base.Lists.{length, is_empty, all, replicate, length-append, length-map}
use bee_engine.Connect.Messages.{
  strip_0x, is_ascii_hexdigit, lower, to_ascii_lowercase, pad_64, normalize_uint256_hex,
  normalize_owner_public_hex,
}

lower-hexdigit : (b : ℕ) → is_ascii_hexdigit b ≡ true → is_ascii_hexdigit (lower b) ≡ true
unfolding lower
lower-hexdigit b h = ground arith

lower_idempotent : (b : ℕ) → lower (lower b) ≡ lower b
unfolding lower
lower_idempotent b = ground arith

all-lower :
    (ds : Bytes)
    → all is_ascii_hexdigit ds ≡ true
    → all is_ascii_hexdigit (to_ascii_lowercase ds) ≡ true
unfolding to_ascii_lowercase
all-lower [] h = refl
all-lower (d ∷ ds) h = ground (arith, lower-hexdigit d (ground arith), all-lower ds (ground arith))

lowercase_idempotent :
    (ds : Bytes) → to_ascii_lowercase (to_ascii_lowercase ds) ≡ to_ascii_lowercase ds
unfolding to_ascii_lowercase
lowercase_idempotent [] = refl
lowercase_idempotent (d ∷ ds) = rw (lower_idempotent d, lowercase_idempotent ds) refl

all-zeros :
    (n : ℕ) (ds : Bytes)
    → all is_ascii_hexdigit ds ≡ true
    → all is_ascii_hexdigit (replicate n 48 ++ ds) ≡ true
all-zeros zero ds h = h
all-zeros (suc n) ds h = ground (arith, all-zeros n ds h)

lowercase-zeros :
    (n : ℕ) (ds : Bytes)
    → to_ascii_lowercase ds ≡ ds
    → to_ascii_lowercase (replicate n 48 ++ ds) ≡ replicate n 48 ++ ds
unfolding to_ascii_lowercase lower
lowercase-zeros zero ds h = h
lowercase-zeros (suc n) ds h = rw (lowercase-zeros n ds h) refl

length-replicate : (n b : ℕ) → length (replicate n b) ≡ n
length-replicate zero b = refl
length-replicate (suc n) b = ap suc (length-replicate n b)

length-pad_64 : (ds : Bytes) → length ds ≤ 64 → length (pad_64 ds) ≡ 64
unfolding pad_64
length-pad_64 ds h =
    omega (
      arith,
      length-append (replicate (64 - length ds) 48) ds,
      length-replicate (64 - length ds) 48,
    )

pad_64-full : (ds : Bytes) → length ds ≡ 64 → pad_64 ds ≡ ds
unfolding pad_64
pad_64-full ds h = let none_missing : 64 - length ds ≡ 0 = omega arith in rw none_missing refl

length-lowercase : (ds : Bytes) → length (to_ascii_lowercase ds) ≡ length ds
unfolding to_ascii_lowercase
length-lowercase ds = length-map lower ds

uint256_parts :
    (value r : Bytes)
    → normalize_uint256_hex value ≡ ok r
    → (is_empty (strip_0x value) ≡ false)
      × (length (strip_0x value) ≤ 64)
      × (all is_ascii_hexdigit (strip_0x value) ≡ true)
      × (48 ∷ 120 ∷ pad_64 (to_ascii_lowercase (strip_0x value)) ≡ r)
unfolding normalize_uint256_hex
uint256_parts value r h = ground arith

nonempty : (ds : Bytes) → 1 ≤ length ds → is_empty ds ≡ false
nonempty [] h = absurd (omega arith)
nonempty (d ∷ ds) h = refl

normal_fixed :
    (ds : Bytes)
    → length ds ≡ 64
    → all is_ascii_hexdigit ds ≡ true
    → to_ascii_lowercase ds ≡ ds
    → normalize_uint256_hex (48 ∷ 120 ∷ ds) ≡ ok (48 ∷ 120 ∷ ds)
unfolding normalize_uint256_hex strip_0x
normal_fixed ds size hex low =
    let filled : is_empty ds ≡ false = nonempty ds (omega arith) in
    let short : ltb 64 (length ds) ≡ false = ground arith in
    rw (filled, short, hex, low, pad_64-full ds size) refl

-- An accepted text becomes 66 characters, and is left as it is when it is normalized again.
pub normalize_uint256_hex-normal :
    (value r : Bytes)
    → normalize_uint256_hex value ≡ ok r
    → (length r ≡ 66) × (normalize_uint256_hex r ≡ ok r)
unfolding pad_64
normalize_uint256_hex-normal value r h =
    let (_, short, hex, made) = uint256_parts value r h in
    let digits = to_ascii_lowercase (strip_0x value) in
    let count : length digits ≡ length (strip_0x value) = length-lowercase (strip_0x value) in
    let size = length-pad_64 digits (omega arith) in
    let fixed =
      normal_fixed (pad_64 digits) size
        (all-zeros (64 - length digits) digits (all-lower (strip_0x value) hex))
        (lowercase-zeros (64 - length digits) digits (lowercase_idempotent (strip_0x value))) in
    subst (λ x. (length x ≡ 66) × (normalize_uint256_hex x ≡ ok x)) made
      (omega (arith, size), fixed)

owner_parts :
    (value r : Bytes)
    → normalize_owner_public_hex value ≡ ok r
    → (length (strip_0x value) ≡ 64)
      × (all is_ascii_hexdigit (strip_0x value) ≡ true)
      × (to_ascii_lowercase (strip_0x value) ≡ r)
unfolding normalize_owner_public_hex
owner_parts value r h = ground arith

-- An owner's key and a 256-bit number have one normal form, but for the prefix: where a text is
-- accepted as a key it is accepted as a number, and the number's form is the key's with `0x` in front.
normalize_owner_public_hex-normal :
    (value r : Bytes)
    → normalize_owner_public_hex value ≡ ok r
    → (length r ≡ 64) × (normalize_uint256_hex value ≡ ok (48 ∷ 120 ∷ r))
unfolding normalize_uint256_hex
normalize_owner_public_hex-normal value r h =
    let (size, hex, made) = owner_parts value r h in
    let filled : is_empty (strip_0x value) ≡ false = nonempty (strip_0x value) (omega arith) in
    let short : ltb 64 (length (strip_0x value)) ≡ false = ground arith in
    let full =
      pad_64-full (to_ascii_lowercase (strip_0x value))
        (length-lowercase (strip_0x value) ∙ size) in
    (
      sym (ap length made) ∙ length-lowercase (strip_0x value) ∙ size,
      rw (filled, short, hex, full, made) refl,
    )

strip_0x-hexdigits : (ds : Bytes) → all is_ascii_hexdigit ds ≡ true → strip_0x ds ≡ ds
unfolding strip_0x
strip_0x-hexdigits [] h = refl
strip_0x-hexdigits (a ∷ []) h = refl
strip_0x-hexdigits (a ∷ b ∷ rest) h = ground arith

-- A normal form of a key is left as it is when it is normalized again.
pub normalize_owner_public_hex_idempotent :
    (value r : Bytes)
    → normalize_owner_public_hex value ≡ ok r
    → normalize_owner_public_hex r ≡ ok r
unfolding normalize_owner_public_hex
normalize_owner_public_hex_idempotent value r h =
    let (size, hex, made) = owner_parts value r h in
    let size' : length r ≡ 64 = sym (ap length made) ∙ length-lowercase (strip_0x value) ∙ size in
    let hex' : all is_ascii_hexdigit r ≡ true =
      subst (λ x. all is_ascii_hexdigit x ≡ true) made (all-lower (strip_0x value) hex) in
    let low : to_ascii_lowercase r ≡ r =
      subst (λ x. to_ascii_lowercase x ≡ x) made (lowercase_idempotent (strip_0x value)) in
    let filled : is_empty r ≡ false = nonempty r (omega arith) in
    rw (strip_0x-hexdigits r hex', filled, size', hex', low) refl
