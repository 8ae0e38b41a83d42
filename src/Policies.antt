-- ===== src/Policies.antt =====
-- The platform policies on top of the versioned settings: platform_fee_policy.go,
-- public_catalog_policy.go and registration_policy.go of internal/usecase, and the two readers of
-- the same names in internal/repository.
pub mod Desired
pub mod Effect
pub mod Fees
use kelolakelas_identity_ser.Base.{
  ℕ, ◌==◌, nat_eq, string_eq, text_eq, Bool, true, false, ◌&&◌, not, Option, none, some, List, [],
  ◌∷◌, if◌then◌else◌, leb, Text, ℤ, pos,
}
use kelolakelas_identity_ser.Schema.{Uuid, ConfigurationVersion}
use kelolakelas_identity_ser.Sql.{
  Error, Result, ok, err, db_error, policy_unavailable, invalid_policy_value,
  invalid_platform_fee_policy, Exec, pure, throw, branch, required, query, ◌>>=◌, ◌>>◌, transaction,
}
use kelolakelas_identity_ser.Configuration.{
  Setting, VersionRequest, Application, find_head, last_applied, create_configuration_version,
  registration_setting, registration_state, RegistrationState, true_text, false_text,
}
use kelolakelas_identity_ser.FeePolicy.{FeeValue, validate, encode, parse_fee_value}
use kelolakelas_identity_ser.ControlPlane.Histories.{
  configuration_history, list_configuration_state,
}
use kelolakelas_identity_ser.ControlPlane.Values.{Parsers}

abbrev pub fee_setting : Setting
fee_setting = record {
  application = "billing";
  environment = "platform";
  key = "PLATFORM_FEE_POLICY";
}

abbrev pub catalog_setting : Setting
catalog_setting = record {
  application = "academic";
  environment = "platform";
  key = "PUBLIC_CATALOG_OPEN";
}

-- domain.PlatformFeePolicyEvaluated, less the names of the setting
pub record FeeState : Type 0 where
  pub applied : Bool
  pub rule : FeeValue
  pub applied_version : ℕ
  pub desired_version : ℕ

abbrev pub no_fee : FeeValue
no_fee = record { percent_bps = pos 0; fixed_fee = pos 0 }

abbrev pub returned : {A : Type 0} → Result A → Exec A
returned (ok a) = pure a
returned (err e) = throw e

-- The rule of the newest application; a value that is no canonical text is an error.
unfoldable pub applied_rule : Parsers → ℕ → Option Application → Exec FeeState
applied_rule p desired none =
    pure record { applied = false; rule = no_fee; applied_version = 0; desired_version = desired }
applied_rule p desired (some a) = do
  text ← required invalid_platform_fee_policy (p.unmarshal_string a.version.value)
  rule ← returned (parse_fee_value text)
  pure record {
    applied = true;
    rule = rule;
    applied_version = a.version.version;
    desired_version = desired;
  }

unfoldable pub platform_fee_state : Parsers → Exec FeeState
platform_fee_state p = transaction do
  head ← query (find_head fee_setting)
  head ← required policy_unavailable head
  branch (head.latest_version == 0)
      (pure record { applied = true; rule = no_fee; applied_version = 0; desired_version = 0 })
      do applied ← query (last_applied fee_setting); applied_rule p head.latest_version applied

abbrev pub highest : ℕ → List ConfigurationVersion → ℕ
highest n [] = n
highest n (v ∷ versions) = highest (if leb v.version n then n else v.version) versions

unfoldable pub set_platform_fee : Parsers → Uuid → FeeValue → Exec FeeState
set_platform_fee p operator value = do
  u ← returned (validate value)
  history ← configuration_history fee_setting
  encoded ← required db_error (p.marshal_string (encode value))
  v ← create_configuration_version record {
    setting = fee_setting;
    expected_version = highest 0 history.versions;
    value = encoded;
    rollback_of_version_id = none;
    created_by = operator;
  }
  platform_fee_state p

-- domain.PublicCatalogPolicyEvaluated, less the names of the setting
pub record CatalogState : Type 0 where
  pub is_open : Bool
  pub applied_version : ℕ
  pub desired_version : ℕ

unfoldable pub applied_catalog : ℕ → Option Application → Exec CatalogState
applied_catalog desired none =
    pure record { is_open = false; applied_version = 0; desired_version = desired }
applied_catalog desired (some a) =
    branch (a.version.value == true_text)
      (pure
        record { is_open = true; applied_version = a.version.version; desired_version = desired })
      (branch (a.version.value == false_text)
        (pure record {
          is_open = false;
          applied_version = a.version.version;
          desired_version = desired;
        })
        (throw invalid_policy_value))

unfoldable pub public_catalog_state : Exec CatalogState
public_catalog_state = transaction do
  head ← query (find_head catalog_setting)
  head ← required policy_unavailable head
  branch (head.latest_version == 0)
      (pure record { is_open = true; applied_version = 0; desired_version = 0 })
      do applied ← query (last_applied catalog_setting); applied_catalog head.latest_version applied

abbrev pub policy_text : Bool → Text
policy_text is_open = if is_open then true_text else false_text

abbrev pub switch_request : Setting → ℕ → Bool → Uuid → VersionRequest
switch_request k expected is_open operator = record {
  setting = k;
  expected_version = expected;
  value = policy_text is_open;
  rollback_of_version_id = none;
  created_by = operator;
}

-- Close is false, Open is true.
unfoldable pub switch_catalog : Uuid → Bool → Exec CatalogState
switch_catalog operator is_open = do
  current ← public_catalog_state
  v ←
      create_configuration_version
        (switch_request catalog_setting current.desired_version is_open operator)
  public_catalog_state

abbrev latest_number : Option ConfigurationVersion → ℕ
latest_number none = 0
latest_number (some v) = v.version

unfoldable pub switch_registration : Uuid → Bool → Exec RegistrationState
switch_registration operator is_open = do
  states ← list_configuration_state "platform"
  let latest = (states "identity" "TENANT_REGISTRATION_OPEN").latest
  v ←
      create_configuration_version
        (switch_request registration_setting (latest_number latest) is_open operator)
  registration_state
