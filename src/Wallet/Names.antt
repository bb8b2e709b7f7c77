-- ===== src/Wallet/Names.antt =====
-- bee_wallet/src/services/validate_name.rs: the names that a wallet may have. The trimming and the
-- lowering of a text go by Unicode's tables, so both are arguments.
pub mod Valid
use bee_engine.Base.{
  ℕ, Bool, true, false, not, ◌&&◌, ◌||◌, List, [], ◌∷◌, Result, ok, err, fail_if, ◌>>=◌, ◌>>◌, ◌==◌,
  leb, ltb, if◌then◌else◌,
}
use bee_engine.Base.Bytes.{Bytes}
use bee_engine.Base.Lists.{is_empty, all, length}

pub data WalletNameError : Type 0 where
  invalid_characters consecutive_hyphens consecutive_underscores starts_with_symbol too_long
        too_short :
      WalletNameError

-- `[a-z0-9_-]`
abbrev pub is_allowed : ℕ → Bool
is_allowed b =
    (leb b'a' b && leb b b'z') || (leb b'0' b && leb b b'9') || (b == b'_') || (b == b'-')

-- `^[a-z0-9_-]+$`
unfoldable pub only_allowed : Bytes → Bool
only_allowed name = not (is_empty name) && all is_allowed name

-- `-{2,}` and `_{2,}`, anywhere in the text
unfoldable pub has_two : (symbol : ℕ) → Bytes → Bool
has_two symbol [] = false
has_two symbol (a ∷ []) = false
has_two symbol (a ∷ b ∷ rest) =
    let later = has_two symbol (b ∷ rest) in ((a == symbol) && (b == symbol)) || later

unfoldable pub starts_with : ℕ → Bytes → Bool
starts_with symbol [] = false
starts_with symbol (a ∷ rest) = a == symbol

module _ (trim to_lowercase : Bytes → Bytes) where
  unfoldable pub verify_wallet_name : Bytes → Result WalletNameError (Unit {0})
  verify_wallet_name wallet_name = do
    let name = to_lowercase (trim wallet_name)
    fail_if (not (only_allowed name)) invalid_characters
    fail_if (has_two b'-' name) consecutive_hyphens
    fail_if (has_two b'_' name) consecutive_underscores
    fail_if (starts_with b'-' name || starts_with b'_' name) starts_with_symbol
    fail_if (ltb 39 (length name)) too_long
    fail_if (ltb (length name) 4) too_short
