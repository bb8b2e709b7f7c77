-- ===== src/Base/Text.antt =====
-- Literal texts as the codes of their characters: their bytes, if they are ASCII; and `str::trim` on
-- these.
use Prim.Native.Char.{code}
use Prim.Native.String.{String}
use mathlib.Core.List.{[], ◌∷◌}
use Prim.Native.Nat.{ℕ}
use mathlib.Core.Bool.{Bool, true, not, ◌&&◌, ◌||◌}
use mathlib.Core.Path.{◌≡◌, refl}
use native.Mathlib.Omega.{arith}
use bee_engine.Base.Bytes.{Bytes}
use bee_engine.Base.Lists.{is_empty, all}
use bee_engine.Base.Tests.{◌==◌, leb, if◌then◌else◌}

abbrev pub codes : String → Bytes
codes String.[] = []
codes (String.◌∷◌ c s) = code c ∷ codes s

-- ASCII whitespace.
abbrev pub is_space : ℕ → Bool
is_space b = (leb 9 b && leb b 13) || (b == 32)

unfoldable pub trim_start : Bytes → Bytes
trim_start [] = []
trim_start (b ∷ rest) = let later = trim_start rest in if is_space b then later else b ∷ rest

unfoldable pub trim_end : Bytes → Bytes
trim_end [] = []
trim_end (b ∷ rest) =
    let later = trim_end rest in if is_space b && is_empty later then [] else b ∷ later

unfoldable pub trim : Bytes → Bytes
unfolding trim_start trim_end
trim text = trim_end (trim_start text)

trim_end-visible : (text : Bytes) → all (λ b. not (is_space b)) text ≡ true → trim_end text ≡ text
unfolding trim_end
trim_end-visible [] h = refl
trim_end-visible (b ∷ rest) h = ground (arith, trim_end-visible rest (ground arith))

-- A text without whitespace stays as it is.
pub trim-visible : (text : Bytes) → all (λ b. not (is_space b)) text ≡ true → trim text ≡ text
unfolding trim trim_start
trim-visible [] h = refl
trim-visible (b ∷ rest) h = ground (arith, trim_end-visible (b ∷ rest) h)
