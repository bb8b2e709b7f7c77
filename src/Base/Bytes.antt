-- ===== src/Base/Bytes.antt =====
-- Big-endian and little-endian byte encodings of fixed-width integers (`to_be_bytes`,
-- `from_be_bytes`, `to_le_bytes` of Rust's integer types), and equality of byte strings.
use Prim.Native.Nat.{ℕ, zero, suc, ◌+◌, ◌*◌, ◌/◌, ◌%◌, ◌^◌, ◌<◌}
use mathlib.Core.Path.{◌≡◌, refl, ap, ◌∙◌, sym}
use mathlib.Core.Logic.{◌↔◌}
use mathlib.Core.Bool.{Bool, true, false, ◌&&◌}
use mathlib.Core.List.{List, [], ◌∷◌, ◌++◌}
use native.Mathlib.Omega.{arith}
use native.Mathlib.Nat.{pow-suc}
use bee_engine.Base.Lists.{length, length-append}
use bee_engine.Base.Tests.{◌==◌}

abbrev pub Bytes : Type 0
Bytes = List ℕ

-- The low `n` bytes of a number, least significant first.
unfoldable pub le_bytes : ℕ → ℕ → Bytes
le_bytes zero x = []
le_bytes (suc n) x = (x % 256) ∷ le_bytes n (x / 256)

-- The low `n` bytes of a number, most significant first.
unfoldable pub be_bytes : ℕ → ℕ → Bytes
be_bytes zero x = []
be_bytes (suc n) x = be_bytes n (x / 256) ++ (x % 256) ∷ []

-- The number that a byte string spells, most significant byte first, after the bytes in `acc`.
unfoldable pub from_be_onto : ℕ → Bytes → ℕ
from_be_onto acc [] = acc
from_be_onto acc (b ∷ bs) = from_be_onto (acc * 256 + b) bs

unfoldable pub from_be_bytes : Bytes → ℕ
unfolding from_be_onto
from_be_bytes bs = from_be_onto 0 bs

pub length-le_bytes : (n x : ℕ) → length (le_bytes n x) ≡ n
unfolding le_bytes
length-le_bytes zero x = refl
length-le_bytes (suc n) x = ap suc (length-le_bytes n (x / 256))

pub length-be_bytes : (n x : ℕ) → length (be_bytes n x) ≡ n
unfolding be_bytes
length-be_bytes zero x = refl
length-be_bytes (suc n) x =
    omega
      (arith, length-append (be_bytes n (x / 256)) ((x % 256) ∷ []), length-be_bytes n (x / 256))

from_be_onto-append :
    (acc : ℕ) (xs ys : Bytes) → from_be_onto acc (xs ++ ys) ≡ from_be_onto (from_be_onto acc xs) ys
unfolding from_be_onto
from_be_onto-append acc [] ys = refl
from_be_onto-append acc (x ∷ xs) ys = from_be_onto-append (acc * 256 + x) xs ys

pub from_be-be_bytes : (n x : ℕ) → x < 256 ^ n → from_be_bytes (be_bytes n x) ≡ x
unfolding from_be_bytes be_bytes from_be_onto
from_be-be_bytes zero x h = omega arith
from_be-be_bytes (suc n) x h =
    from_be_onto-append 0 (be_bytes n (x / 256)) ((x % 256) ∷ [])
    ∙ omega (arith, from_be-be_bytes n (x / 256) (omega (arith, pow-suc 256 n)))

pub be_bytes-injective :
    (n x y : ℕ) → x < 256 ^ n → y < 256 ^ n → be_bytes n x ≡ be_bytes n y → x ≡ y
be_bytes-injective n x y hx hy e =
    sym (from_be-be_bytes n x hx) ∙ ap from_be_bytes e ∙ from_be-be_bytes n y hy

-- `==` of slices and strings.
abbrev pub bytes_eq : Bytes → Bytes → Bool
bytes_eq [] [] = true
bytes_eq [] (y ∷ ys) = false
bytes_eq (x ∷ xs) [] = false
bytes_eq (x ∷ xs) (y ∷ ys) = (x == y) && bytes_eq xs ys

pub bytes_eq_iff : (xs ys : Bytes) → (bytes_eq xs ys ≡ true) ↔ (xs ≡ ys)
bytes_eq_iff [] [] = ground arith
bytes_eq_iff [] (y ∷ ys) = ground arith
bytes_eq_iff (x ∷ xs) [] = ground arith
bytes_eq_iff (x ∷ xs) (y ∷ ys) = ground (arith, bytes_eq_iff xs ys)

pub bytes_eq_refl : (xs : Bytes) → bytes_eq xs xs ≡ true
bytes_eq_refl xs = (bytes_eq_iff xs xs).1 refl
