-- ===== src/Connect/Dex/Numbers.antt =====
-- Which texts `parse_u128_decimal` takes.
use bee_engine.Base.{
  ℕ, suc, ◌+◌, ◌-◌, ◌*◌, ◌^◌, ◌≤◌, ◌<◌, ◌≡◌, refl, sym, ap, ◌∙◌, ◌↔◌, ◌⊎◌, inl, inr, true, false,
  [], ◌∷◌, arith, ◌==◌, Bool-cases,
}
use bee_engine.Base.Bytes.{Bytes}
use bee_engine.Base.Decimal.{is_digit, digits_value, strip_plus, strip_plus-digits, parse_uint}
use bee_engine.Base.Lists.{length, is_empty, all, All}
use bee_engine.Connect.Dex.{parse_u128_decimal, parses}
use native.Mathlib.Nat.{pow-suc, mul_assoc, mul_comm, add-mul}

-- The number that digits spell, each at its place.
unfoldable pub place_value : Bytes → ℕ
place_value [] = 0
place_value (d ∷ ds) = (d - b'0') * 10 ^ length ds + place_value ds

-- A decimal number below 2 ^ 128: one digit or more, with or without a plus sign in front.
abbrev pub IsNumber : Bytes → Type 0
IsNumber s =
    (ds : Bytes) × ((s ≡ ds) ⊎ (s ≡ b'+' ∷ ds))
    × (1 ≤ length ds)
    × All (λ d. (b'0' ≤ d) × (d ≤ b'9')) ds
    × (place_value ds < 2 ^ 128)

strip_plus-cases : (s : Bytes) → (s ≡ strip_plus s) ⊎ (s ≡ b'+' ∷ strip_plus s)
unfolding strip_plus
strip_plus-cases [] = inl refl
strip_plus-cases (b ∷ rest) = elim (Bool-cases (b == b'+')) [
  | inl sign ↦ let e : b ≡ b'+' = ground arith in inr (rw sign (ap (λ x. x ∷ rest) e))
  | inr plain ↦ inl (rw plain refl)
]

digits_iff : (ds : Bytes) → (all is_digit ds ≡ true) ↔ All (λ d. (b'0' ≤ d) × (d ≤ b'9')) ds
digits_iff [] = (λ h. tt, λ h. refl)
digits_iff (d ∷ ds) = (
  λ h. ((ground arith, ground arith), (digits_iff ds).0 (ground arith)),
  λ h. ground (arith, (digits_iff ds).1 h.1, h.0),
)

digits_value-place_value :
    (acc : ℕ) (ds : Bytes) → digits_value acc ds ≡ acc * 10 ^ length ds + place_value ds
unfolding digits_value place_value
digits_value-place_value acc [] = omega arith
digits_value-place_value acc (d ∷ ds) =
    let power : acc * 10 ^ suc (length ds) ≡ acc * 10 * 10 ^ length ds =
      ap (λ n. acc * n) (pow-suc 10 (length ds) ∙ mul_comm (10 ^ length ds) 10)
      ∙ sym (mul_assoc acc 10 (10 ^ length ds)) in
    let sum = add-mul (acc * 10) (d - b'0') (10 ^ length ds) in
    let later = digits_value-place_value (acc * 10 + (d - b'0')) ds in omega arith

nonempty_iff : (ds : Bytes) → (is_empty ds ≡ false) ↔ (1 ≤ length ds)
nonempty_iff [] = ground arith
nonempty_iff (d ∷ ds) = ground arith

parsed :
    (s : Bytes)
    → (parses s ≡ true) ↔ (
        (is_empty (strip_plus s) ≡ false)
        × (all is_digit (strip_plus s) ≡ true)
        × (digits_value 0 (strip_plus s) < 2 ^ 128))
unfolding parse_u128_decimal parse_uint
parsed s = ground arith

stripped : (s ds : Bytes) → all is_digit ds ≡ true → (s ≡ ds) ⊎ (s ≡ b'+' ∷ ds) → strip_plus s ≡ ds
unfolding strip_plus
stripped s ds digits (inl e) = ap strip_plus e ∙ strip_plus-digits ds digits
stripped s ds digits (inr e) = ap strip_plus e

pub parses_iff : (s : Bytes) → (parses s ≡ true) ↔ IsNumber s
parses_iff s = (
  λ h.
      let (filled, digits, small) = (parsed s).0 h in
      let value = digits_value-place_value 0 (strip_plus s) in
      (
        strip_plus s,
        strip_plus-cases s,
        (nonempty_iff (strip_plus s)).0 filled,
        (digits_iff (strip_plus s)).0 digits,
        omega arith,
      ),
  λ (ds, spelled, long, digits, small).
      let digits' = (digits_iff ds).1 digits in
      let bare = stripped s ds digits' spelled in
      let value = digits_value-place_value 0 ds in
      (parsed s).1 (rw bare ((nonempty_iff ds).1 long, digits', omega arith)),
)
