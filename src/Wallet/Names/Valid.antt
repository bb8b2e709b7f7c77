-- ===== src/Wallet/Names/Valid.antt =====
-- Which names are valid.
use bee_engine.Base.{
  ℕ, ◌≤◌, ◌≡◌, refl, ap, ap₂, ◌∙◌, ◌↔◌, Bool, true, false, not, ◌&&◌, ◌||◌, [], ◌∷◌, ◌++◌, ok,
  fail_if, ◌>>◌, ◌==◌, ltb, arith, Bool-cases, inl, inr,
}
use bee_engine.Base.Bytes.{Bytes}
use bee_engine.Base.Lists.{is_empty, all, length}
use bee_engine.Wallet.Names.{
  invalid_characters, consecutive_hyphens, consecutive_underscores, starts_with_symbol, too_long,
  too_short, is_allowed, only_allowed, has_two, starts_with, verify_wallet_name,
}

-- The symbol stands twice in a row somewhere.
abbrev pub Doubled : ℕ → Bytes → Type 0
Doubled symbol name = (front : Bytes) × (back : Bytes) × (name ≡ front ++ symbol ∷ symbol ∷ back)

-- What the comments of the checks ask for.
abbrev pub IsName : Bytes → Type 0
IsName name =
    (4 ≤ length name)
    × (length name ≤ 39)
    × (all is_allowed name ≡ true)
    × ¬ Doubled b'-' name
    × ¬ Doubled b'_' name
    × ¬ ((rest : Bytes) × (name ≡ b'-' ∷ rest))
    × ¬ ((rest : Bytes) × (name ≡ b'_' ∷ rest))

has_two-found : (symbol : ℕ) (name : Bytes) → has_two symbol name ≡ true → Doubled symbol name
unfolding has_two
has_two-found symbol [] h = absurd (cc)
has_two-found symbol (a ∷ []) h = absurd (cc)
has_two-found symbol (a ∷ b ∷ rest) h = elim (Bool-cases ((a == symbol) && (b == symbol))) [
  | inl here ↦
      let ea : a ≡ symbol = ground arith in
      let eb : b ≡ symbol = ground arith in ([], rest, ap₂ (λ x y. x ∷ y ∷ rest) ea eb)
  | inr not_here ↦
      let (front, back, e) = has_two-found symbol (b ∷ rest) (ground arith) in
      (a ∷ front, back, ap (◌∷◌ a) e)
]

has_two-append :
    (symbol : ℕ) (front back : Bytes) → has_two symbol (front ++ symbol ∷ symbol ∷ back) ≡ true
unfolding has_two
has_two-append symbol [] back = ground arith
has_two-append symbol (a ∷ []) back = ground arith
has_two-append symbol (a ∷ b ∷ front) back = ground (arith, has_two-append symbol (b ∷ front) back)

has_two_iff : (symbol : ℕ) (name : Bytes) → (has_two symbol name ≡ true) ↔ Doubled symbol name
has_two_iff symbol name =
    (has_two-found symbol name, λ d. ap (has_two symbol) d.2 ∙ has_two-append symbol d.0 d.1)

abbrev head_or : ℕ → Bytes → ℕ
head_or default [] = default
head_or default (a ∷ rest) = a

starts_with_iff :
    (symbol : ℕ) (name : Bytes)
    → (starts_with symbol name ≡ true) ↔ ((rest : Bytes) × (name ≡ symbol ∷ rest))
unfolding starts_with
starts_with_iff symbol [] = (λ h. absurd (cc), λ r. let e = r.1 in absurd (cc))
starts_with_iff symbol (a ∷ rest) = (
  λ h. (rest, ap (λ x. x ∷ rest) (ground arith)),
  λ r. let e : a ≡ symbol = ap (head_or 0) r.1 in ground arith,
)

fails_false : (P : Type 0) (b : Bool) → (b ≡ true) ↔ P → ¬ P → b ≡ false
fails_false P true iff refuted = absurd (refuted (iff.0 refl))
fails_false P false iff refuted = refl

holds_not : (P : Type 0) (b : Bool) → (b ≡ true) ↔ P → b ≡ false → ¬ P
holds_not P b iff h p = let t = iff.1 p in cc

-- Six checks in a row.
passes :
    (a b c d e f : Bool)
    → ((do
      fail_if a invalid_characters
      fail_if b consecutive_hyphens
      fail_if c consecutive_underscores
      fail_if d starts_with_symbol
      fail_if e too_long
      fail_if f too_short)
        ≡ ok tt)
      ↔ ((a ≡ false) × (b ≡ false) × (c ≡ false) × (d ≡ false) × (e ≡ false) × (f ≡ false))
passes a b c d e f = ground arith

some_chars : (name : Bytes) → 4 ≤ length name → is_empty name ≡ false
some_chars [] h = absurd (omega arith)
some_chars (a ∷ rest) h = refl

module _ (trim to_lowercase : Bytes → Bytes) where
  -- A name is accepted exactly when it is, trimmed and in lower case, of four to 39 letters, digits,
  -- hyphens and underscores, with no two hyphens or two underscores in a row and none of these in front.
  pub verify_wallet_name_iff :
      (wallet_name : Bytes)
      → (verify_wallet_name trim to_lowercase wallet_name ≡ ok tt)
        ↔ IsName (to_lowercase (trim wallet_name))
  unfolding verify_wallet_name only_allowed
  verify_wallet_name_iff wallet_name =
      let name = to_lowercase (trim wallet_name) in
      let hyphens = has_two_iff b'-' name in
      let underscores = has_two_iff b'_' name in
      let hyphen = starts_with_iff b'-' name in
      let underscore = starts_with_iff b'_' name in
      let all_checks =
        passes (not (only_allowed name)) (has_two b'-' name) (has_two b'_' name)
          (starts_with b'-' name || starts_with b'_' name) (ltb 39 (length name))
          (ltb (length name) 4) in
      (
        λ h.
            let (a, b, c, d, e, f) = all_checks.0 h in
            (
              ground arith,
              ground arith,
              ground arith,
              holds_not _ _ hyphens b,
              holds_not _ _ underscores c,
              holds_not _ _ hyphen (ground arith),
              holds_not _ _ underscore (ground arith),
            ),
        λ (lo, hi, chars, no_hyphens, no_underscores, no_hyphen, no_underscore).
            let some_char = some_chars name lo in
            let no_front = fails_false _ _ hyphen no_hyphen in
            let no_front' = fails_false _ _ underscore no_underscore in
            all_checks.1 (
              ground arith,
              fails_false _ _ hyphens no_hyphens,
              fails_false _ _ underscores no_underscores,
              ground arith,
              ground arith,
              ground arith,
            ),
      )
