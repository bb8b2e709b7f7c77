-- ===== src/Base/Decimal.antt =====
-- Decimal numbers in text: `str::parse` and `to_string` of Rust's unsigned integers.
use Prim.Native.Nat.{ℕ, zero, suc, ◌+◌, ◌-◌, ◌*◌, ◌/◌, ◌%◌, ◌^◌, ◌<◌}
use mathlib.Core.Path.{◌≡◌, refl, ◌∙◌}
use mathlib.Core.Bool.{Bool, true, false, not, ◌&&◌}
use mathlib.Core.Option.{Option, none, some}
use mathlib.Core.Logic.{inl, inr}
use mathlib.Core.List.{List, [], ◌∷◌, ◌++◌}
use native.Mathlib.Omega.{arith}
use native.Mathlib.Nat.{pow-suc}
use bee_engine.Base.Bytes.{Bytes}
use bee_engine.Base.Lists.{is_empty, all}
use bee_engine.Base.Tests.{◌==◌, leb, ltb, if◌then◌else◌, Bool-cases}

abbrev pub is_digit : ℕ → Bool
is_digit b = leb b'0' b && leb b b'9'

unfoldable pub digits_value : ℕ → Bytes → ℕ
digits_value acc [] = acc
digits_value acc (d ∷ ds) = digits_value (acc * 10 + (d - b'0')) ds

-- An optional plus sign in front.
unfoldable pub strip_plus : Bytes → Bytes
strip_plus [] = []
strip_plus (b ∷ rest) = if b == b'+' then rest else b ∷ rest

-- `str::parse` takes digits after an optional plus sign, and refuses what does not fit.
unfoldable pub parse_uint : (width : ℕ) → Bytes → Option ℕ
parse_uint width s =
    let digits = strip_plus s in
    if not (is_empty digits) && all is_digit digits && ltb (digits_value 0 digits) (2 ^ width)
    then some (digits_value 0 digits)
    else none

-- The decimal digits of a number that has at most as many.
unfoldable pub decimal : (most : ℕ) → ℕ → Bytes
decimal zero n = []
decimal (suc most) n =
    let rest = decimal most (n / 10) in
    if ltb n 10 then (b'0' + n) ∷ [] else rest ++ (b'0' + n % 10) ∷ []

-- `to_string`; an unsigned integer of up to 128 bits has at most 39 digits.
unfoldable pub to_decimal : ℕ → Bytes
unfolding decimal
to_decimal n = decimal 39 n

digits_value-append :
    (acc : ℕ) (xs ys : Bytes) → digits_value acc (xs ++ ys) ≡ digits_value (digits_value acc xs) ys
unfolding digits_value
digits_value-append acc [] ys = refl
digits_value-append acc (x ∷ xs) ys = digits_value-append (acc * 10 + (x - b'0')) xs ys

pub all-append {ℓ} :
    {A : Type ℓ} (p : A → Bool) (xs ys : List A)
    → all p xs ≡ true
    → all p ys ≡ true
    → all p (xs ++ ys) ≡ true
all-append p [] ys h k = k
all-append p (x ∷ xs) ys h k = ground (arith, all-append p xs ys)

is_empty-snoc {ℓ} : {A : Type ℓ} (xs : List A) (y : A) → is_empty (xs ++ y ∷ []) ≡ false
is_empty-snoc [] y = refl
is_empty-snoc (x ∷ xs) y = refl

pub all-decimal : (most n : ℕ) → all is_digit (decimal most n) ≡ true
unfolding decimal
all-decimal zero n = refl
all-decimal (suc most) n = elim (Bool-cases (ltb n 10)) [
  | inl small ↦ rw small (ground arith)
  | inr large ↦
      rw large
        (all-append is_digit (decimal most (n / 10)) _ (all-decimal most (n / 10)) (ground arith))
]

pub all-to_decimal : (n : ℕ) → all is_digit (to_decimal n) ≡ true
unfolding to_decimal
all-to_decimal n = all-decimal 39 n

is_empty-decimal : (most n : ℕ) → is_empty (decimal (suc most) n) ≡ false
unfolding decimal
is_empty-decimal most n = elim (Bool-cases (ltb n 10)) [
  | inl small ↦ rw small refl
  | inr large ↦ rw large (is_empty-snoc (decimal most (n / 10)) _)
]

digits_value-decimal : (most n : ℕ) → n < 10 ^ most → digits_value 0 (decimal most n) ≡ n
unfolding decimal digits_value
digits_value-decimal zero n h = omega arith
digits_value-decimal (suc most) n h = elim (Bool-cases (ltb n 10)) [
  | inl small ↦ rw small (omega arith)
  | inr large ↦ rw large (
      digits_value-append 0 (decimal most (n / 10)) ((b'0' + n % 10) ∷ [])
      ∙ omega (arith, digits_value-decimal most (n / 10) (omega (arith, pow-suc 10 most))))
]

-- Digits carry no sign.
pub strip_plus-digits : (s : Bytes) → all is_digit s ≡ true → strip_plus s ≡ s
unfolding strip_plus
strip_plus-digits [] h = refl
strip_plus-digits (b ∷ rest) h = ground arith

-- A number that is printed is read back, at every width that holds it.
pub parse_uint-to_decimal :
    (width n : ℕ) → n < 2 ^ width → n < 10 ^ 39 → parse_uint width (to_decimal n) ≡ some n
unfolding parse_uint to_decimal
parse_uint-to_decimal width n fits short =
    let plain = strip_plus-digits (decimal 39 n) (all-decimal 39 n) in
    let value = digits_value-decimal 39 n short in
    let below : ltb n (2 ^ width) ≡ true = ground arith in
    rw (plain, is_empty-decimal 38 n, all-decimal 39 n, value, below) refl
