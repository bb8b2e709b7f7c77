-- ===== src/Connect/Dex/Valid.antt =====
-- Which requests are valid, and which field is named where one is not.
use bee_engine.Base.{
  ℕ, suc, ◌≡◌, ◌↔◌, refl, true, List, [], ◌∷◌, Option, none, some, Result, ok, err, ◌>>◌, is_ok,
  arith, Bool-cases, inl, inr,
}
use bee_engine.Base.Bytes.{Bytes}
use bee_engine.Base.Lists.{length, All}
use bee_engine.Connect.Dex.Numbers.{IsNumber, parses_iff}
use bee_engine.Connect.Dex.{
  oracle_fee_at, initial_stakes_at, gas_to_fund_field, DeployPmpParams, FieldError, parses,
  validate_each, validate_optional, validate_count, validate_deploy_pmp_params,
}

abbrev pub OptionIsNumber : Option Bytes → Type 0
OptionIsNumber none = Unit {0}
OptionIsNumber (some s) = IsNumber s

abbrev pub CountMatches : ℕ → Option ℕ → Type 0
CountMatches stakes none = Unit {0}
CountMatches stakes (some count) = stakes ≡ count

validate_each_iff :
    (path : ℕ → FieldError) (i : ℕ) (ss : List Bytes)
    → (is_ok (validate_each path i ss) ≡ true) ↔ All IsNumber ss
unfolding validate_each
validate_each_iff path i [] = (λ h. tt, λ h. refl)
validate_each_iff path i (s ∷ ss) = elim (Bool-cases (parses s)) [
  | inl e ↦ (
    λ h. ((parses_iff s).0 e, (validate_each_iff path (suc i) ss).0 (rw e at h)),
    λ h. rw e ((validate_each_iff path (suc i) ss).1 h.1),
  )
  | inr e ↦ (
    λ h. absurd (ground (arith, e)),
    λ h. let good = (parses_iff s).1 h.0 in absurd (ground (arith, e, good)),
  )
]

validate_optional_iff :
    (path : FieldError) (o : Option Bytes)
    → (is_ok (validate_optional path o) ≡ true) ↔ OptionIsNumber o
unfolding validate_optional
validate_optional_iff path none = (λ h. tt, λ h. refl)
validate_optional_iff path (some s) =
    (λ h. (parses_iff s).0 (ground arith), λ h. let good = (parses_iff s).1 h in ground arith)

validate_count_iff :
    (stakes : ℕ) (o : Option ℕ) → (is_ok (validate_count stakes o) ≡ true) ↔ CountMatches stakes o
unfolding validate_count
validate_count_iff stakes none = (λ h. tt, λ h. refl)
validate_count_iff stakes (some count) = ground arith

four_ok :
    (a b c d : Result FieldError (Unit {0}))
    → (is_ok (a >> (b >> (c >> d))) ≡ true)
      ↔ ((is_ok a ≡ true) × (is_ok b ≡ true) × (is_ok c ≡ true) × (is_ok d ≡ true))
four_ok (err e) b c d = ground arith
four_ok (ok x) (err e) c d = ground arith
four_ok (ok x) (ok y) (err e) d = ground arith
four_ok (ok x) (ok y) (ok z) d = ground arith

-- The parameters of a deployment are valid exactly when every fee, every stake and the gas, if there is
-- any, is a decimal number below 2 ^ 128 (a plus sign may stand in front), and the number of outcomes, if it is given, is that of the
-- stakes.
pub validate_deploy_pmp_params_iff :
    (p : DeployPmpParams)
    → (is_ok (validate_deploy_pmp_params p) ≡ true) ↔ (
        All IsNumber p.oracle_fee
        × All IsNumber p.initial_stakes
        × OptionIsNumber p.gas_to_fund
        × CountMatches (length p.initial_stakes) p.outcome_count)
unfolding validate_deploy_pmp_params
validate_deploy_pmp_params_iff p =
    let split =
      four_ok (validate_each oracle_fee_at 0 p.oracle_fee)
        (validate_each initial_stakes_at 0 p.initial_stakes)
        (validate_optional gas_to_fund_field p.gas_to_fund)
        (validate_count (length p.initial_stakes) p.outcome_count) in
    let fees = validate_each_iff oracle_fee_at 0 p.oracle_fee in
    let stakes = validate_each_iff initial_stakes_at 0 p.initial_stakes in
    let gas = validate_optional_iff gas_to_fund_field p.gas_to_fund in
    let count = validate_count_iff (length p.initial_stakes) p.outcome_count in
    (
      λ h. let (a, b, c, d) = split.0 h in (fees.0 a, stakes.0 b, gas.0 c, count.0 d),
      λ v. split.1 (fees.1 v.0, stakes.1 v.1, gas.1 v.2, count.1 v.3),
    )
