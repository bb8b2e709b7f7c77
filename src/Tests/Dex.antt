-- ===== src/Tests/Dex.antt =====
-- The theorem on the parameters of a deployment at one of them.
use bee_engine.Base.{◌≡◌, ◌↔◌, true, [], ◌∷◌, none, some, is_ok}
use bee_engine.Base.Lists.{length, All}
use bee_engine.Connect.Dex.{DeployPmpParams, validate_deploy_pmp_params}
use bee_engine.Connect.Dex.Numbers.{IsNumber}
use bee_engine.Connect.Dex.Valid.{OptionIsNumber, CountMatches, validate_deploy_pmp_params_iff}

abbrev deployment : DeployPmpParams
deployment = record {
  event_id = b'e' ∷ [];
  oracle_list_hash = b'h' ∷ [];
  oracle_fee = (b'1' ∷ b'0' ∷ []) ∷ [];
  token_type = 1;
  names = (b'n' ∷ []) ∷ [];
  index = 0 ∷ [];
  initial_stakes = (b'5' ∷ []) ∷ (b'7' ∷ []) ∷ [];
  outcome_count = some 2;
  gas_to_fund = none;
}

validate_deploy_pmp_params_iff_example : (is_ok (validate_deploy_pmp_params deployment) ≡ true) ↔ (
    All IsNumber deployment.oracle_fee
    × All IsNumber deployment.initial_stakes
    × OptionIsNumber deployment.gas_to_fund
    × CountMatches (length deployment.initial_stakes) deployment.outcome_count)
validate_deploy_pmp_params_iff_example = validate_deploy_pmp_params_iff deployment
