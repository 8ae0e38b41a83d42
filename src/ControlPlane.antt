-- ===== src/ControlPlane.antt =====
-- internal/usecase/configuration.go: the control plane of the settings.
pub mod Catalog
pub mod Histories
pub mod LastKnownGood
pub mod Managed
pub mod Texts
pub mod Values
use kelolakelas_identity_ser.Base.{
  ℕ, String, ◌==◌, nat_eq, string_eq, Bool, true, false, ◌&&◌, ◌||◌, not, Option, none, some, List,
  [], ◌∷◌, map, if◌then◌else◌, Text, rows, head, ℤ, pos, negsuc, negative, leb, zero, suc,
}
use kelolakelas_identity_ser.Schema.{Uuid, ConfigurationVersion, ConfigurationReport}
use kelolakelas_identity_ser.Sql.{
  Exec, pure, guard, branch, required, ◌>>=◌, ◌>>◌, invalid_configuration,
  configuration_version_not_found,
}
use kelolakelas_identity_ser.Configuration.{
  Setting, create_configuration_version, record_configuration_report,
}
use kelolakelas_identity_ser.ControlPlane.Catalog.{
  Definition, configuration_catalog, find_definition,
}
use kelolakelas_identity_ser.ControlPlane.Histories.{
  History, ConfigurationState, configuration_history, list_configuration_state,
}
use kelolakelas_identity_ser.ControlPlane.Texts.{is_empty_text, normalize_environment}
use kelolakelas_identity_ser.ControlPlane.Values.{Parsers, validate_configuration_value}

-- ConfigurationInventoryItem
pub record InventoryItem : Type 0 where
  pub definition : Definition
  pub environment : String
  pub status : String
  pub latest_version : ℕ
  pub value : Text
  pub last_known_good_version : ℕ

abbrev or_zero : Option ℕ → ℕ
or_zero none = 0
or_zero (some n) = n

abbrev item_of :
    String → Definition → Option ConfigurationVersion → ConfigurationState → InventoryItem
item_of environment definition none state = record {
  definition = definition;
  environment = environment;
  status = "not_configured";
  latest_version = 0;
  value = [];
  last_known_good_version = 0;
}
item_of environment definition (some v) state = record {
  definition = definition;
  environment = environment;
  status = state.latest_status;
  latest_version = v.version;
  value = v.value;
  last_known_good_version = or_zero state.last_known_good;
}

abbrev inventory_item : String → (String → String → ConfigurationState) → Definition → InventoryItem
inventory_item environment states definition =
    let state = states definition.application definition.key in
    if definition.sensitive
    then record {
      definition = definition;
      environment = environment;
      status = "not_managed";
      latest_version = 0;
      value = [];
      last_known_good_version = 0;
    }
    else item_of environment definition state.latest state

unfoldable pub inventory : String → Exec (List InventoryItem)
inventory environment = do
  environment ← normalize_environment environment
  states ← list_configuration_state environment
  pure (map (inventory_item environment states) configuration_catalog)

-- The setting that a request names: one of the catalog, and not a secret.
unfoldable pub managed : String → String → Exec Definition
managed application key = do
  definition ←
      required (invalid_configuration "unknown application or configuration key")
        (find_definition application key)
  guard (not definition.sensitive) (
      invalid_configuration "sensitive configuration values are managed outside this control plane")
  pure definition

abbrev pub setting : String → String → String → Setting
setting application environment key = record {
  application = application;
  environment = environment;
  key = key;
}

unfoldable pub history : String → String → String → Exec History
history application environment key = do
  definition ← managed application key
  environment ← normalize_environment environment
  configuration_history (setting application environment key)

-- domain.ConfigurationVersionRequest, as it arrives
pub record CreateRequest : Type 0 where
  pub application : String
  pub environment : String
  pub key : String
  pub expected_version : ℤ
  pub value : Text
  pub rollback_of_version_id : Option ℤ
  pub created_by : Uuid

-- The version of the first applied report, or 0.
unfoldable pub last_known_good_id : List ConfigurationReport → ℕ
last_known_good_id [] = 0
last_known_good_id (r ∷ reports) =
    let rest = last_known_good_id reports in if r.status == "applied" then r.version_id else rest

abbrev positive : ℤ → Option ℕ
positive (pos zero) = none
positive (pos (suc n)) = some (suc n)
positive (negsuc n) = none

abbrev pub magnitude : ℤ → ℕ
magnitude (pos n) = n
magnitude (negsuc n) = n

abbrev value_of : Option ConfigurationVersion → Text
value_of none = []
value_of (some v) = v.value

-- The value of the version that a rollback selects.
unfoldable pub rollback_value : Setting → Text → ℤ → Exec Text
rollback_value k value id = do
  guard (is_empty_text value)
      (invalid_configuration "value must be omitted when selecting a rollback version")
  id ← required (invalid_configuration "rollback_version_id must be positive") (positive id)
  past ← configuration_history k
  guard (last_known_good_id past.reports == id)
      (invalid_configuration "rollback_version_id must be the last-known-good version")
  let chosen = value_of (head (rows (λ v. v.id == id) past.versions))
  guard (not (is_empty_text chosen)) configuration_version_not_found
  pure chosen

abbrev stored_id : Option ℤ → Option ℕ
stored_id none = none
stored_id (some id) = some (magnitude id)

abbrev pub requested_value : Setting → Text → Option ℤ → Exec Text
requested_value k value none = pure value
requested_value k value (some id) = rollback_value k value id

unfoldable pub create_version : Parsers → CreateRequest → Exec ConfigurationVersion
create_version p request = do
  definition ← managed request.application request.key
  guard (not (request.created_by == 0))
      (invalid_configuration "platform operator identity is required")
  environment ← normalize_environment request.environment
  guard (not (negative request.expected_version))
      (invalid_configuration "expected_version must be non-negative")
  value ←
      requested_value (setting request.application environment request.key) request.value
        request.rollback_of_version_id
  u ← validate_configuration_value p definition value
  create_configuration_version record {
    setting = setting request.application environment request.key;
    expected_version = magnitude request.expected_version;
    value = value;
    rollback_of_version_id = stored_id request.rollback_of_version_id;
    created_by = request.created_by;
  }

-- domain.ConfigurationReportRequest, as it arrives
pub record RecordRequest : Type 0 where
  pub version_id : ℤ
  pub status : String
  pub reported_by : Uuid

unfoldable pub record_report : RecordRequest → Exec ConfigurationReport
record_report request = do
  guard (not (request.reported_by == 0))
      (invalid_configuration "platform operator identity is required")
  id ← required (invalid_configuration "version_id must be positive") (positive request.version_id)
  guard (request.status == "applied" || request.status == "failed" || request.status == "rollback")
      (invalid_configuration "status must be applied, failed, or rollback")
  record_configuration_report
      record { version_id = id; status = request.status; reported_by = request.reported_by }
