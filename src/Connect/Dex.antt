-- ===== src/Connect/Dex.antt =====
-- bee_connect/src/dex_protocol.rs: the validation of requests to a decentralized exchange.
-- The labels of a request, which are for display, and the JSON of its parameters are left out.
pub mod Numbers
pub mod Valid
use bee_engine.Base.{
  ℕ, zero, suc, ◌+◌, ◌-◌, ◌*◌, ◌^◌, ◌≡◌, Bool, true, false, not, ◌&&◌, ◌||◌, List, [], ◌∷◌, Option,
  none, some, Result, ok, err, ◌>>=◌, ◌>>◌, fail_if, ◌==◌, ltb, leb, if◌then◌else◌,
}
use bee_engine.Base.Bytes.{Bytes, bytes_eq}
use bee_engine.Base.Decimal.{parse_uint}
use bee_engine.Base.Lists.{length, is_empty, all}

abbrev pub protocol_version_one : Bytes
protocol_version_one = b'1' ∷ []

pub record DexRequestEnvelope : Type 0 where
  pub protocol_version : Bytes
  pub chain_id : Bytes
  pub kind : Bytes
  pub request_id : Bytes
  pub created_at : Option ℕ
  pub valid_until : Option ℕ

pub record DeployPmpParams : Type 0 where
  pub event_id : Bytes
  pub oracle_list_hash : Bytes
  pub oracle_fee : List Bytes
  pub token_type : ℕ
  pub names : List Bytes
  pub index : List ℕ
  pub initial_stakes : List Bytes
  pub outcome_count : Option ℕ
  pub gas_to_fund : Option Bytes

pub record SetStakeParams : Type 0 where
  pub pmp_address : Bytes
  pub event_id : Bytes
  pub oracle_list_hash : Bytes
  pub token_type : ℕ
  pub outcome : ℕ
  pub amount : Bytes
  pub use_coupon : Bool
  pub gas_to_fund : Option Bytes

-- The path of the field that is refused.
pub data FieldError : Type 0 where
  oracle_fee_at initial_stakes_at : ℕ → FieldError
  gas_to_fund_field outcome_count_field amount_field : FieldError

unfoldable pub is_expired : DexRequestEnvelope → ℕ → Bool
is_expired e now_unix = elim e.valid_until [ none ↦ false | some t ↦ ltb t now_unix ]

unfoldable pub validate_version : DexRequestEnvelope → Bool
validate_version e = bytes_eq e.protocol_version protocol_version_one

unfoldable pub parse_u128_decimal : Bytes → Option ℕ
parse_u128_decimal s = parse_uint 128 s

abbrev pub parses : Bytes → Bool
parses s = elim (parse_u128_decimal s) [ none ↦ false | some n ↦ true ]

unfoldable pub validate_each : (ℕ → FieldError) → ℕ → List Bytes → Result FieldError (Unit {0})
validate_each path i [] = ok tt
validate_each path i (s ∷ ss) = do fail_if (not (parses s)) (path i); validate_each path (suc i) ss

unfoldable pub validate_optional : FieldError → Option Bytes → Result FieldError (Unit {0})
validate_optional path none = ok tt
validate_optional path (some s) = fail_if (not (parses s)) path

unfoldable pub validate_count : ℕ → Option ℕ → Result FieldError (Unit {0})
validate_count stakes none = ok tt
validate_count stakes (some count) = fail_if (not (stakes == count)) outcome_count_field

unfoldable pub validate_deploy_pmp_params : DeployPmpParams → Result FieldError (Unit {0})
validate_deploy_pmp_params p = do
  validate_each oracle_fee_at 0 p.oracle_fee
  validate_each initial_stakes_at 0 p.initial_stakes
  validate_optional gas_to_fund_field p.gas_to_fund
  validate_count (length p.initial_stakes) p.outcome_count

unfoldable pub validate_set_stake_params : SetStakeParams → Result FieldError (Unit {0})
validate_set_stake_params p = do
  fail_if (not (parses p.amount)) amount_field
  validate_optional gas_to_fund_field p.gas_to_fund
