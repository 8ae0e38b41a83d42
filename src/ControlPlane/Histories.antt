-- ===== src/ControlPlane/Histories.antt =====
-- GetConfigurationHistory and ListConfigurationState of
-- internal/repository/configuration_repository.go.
use kelolakelas_identity_ser.Base.{
  ℕ, String, ◌==◌, nat_eq, string_eq, Bool, true, false, Option, none, some, List, [], ◌∷◌, exists,
  rows, newest, descending,
}
use kelolakelas_identity_ser.Schema.{Db, ConfigurationVersion, ConfigurationReport}
use kelolakelas_identity_ser.Sql.{Exec, pure, branch, query, ◌>>=◌}
use kelolakelas_identity_ser.Configuration.{Setting, is_version, Application, last_applied}

-- domain.ConfigurationHistory
pub record History : Type 0 where
  pub versions : List ConfigurationVersion
  pub reports : List ConfigurationReport

unfoldable pub versions_of : Setting → Db → List ConfigurationVersion
versions_of k d = descending (λ v. v.version) (rows (is_version k) d.configuration_versions)

abbrev pub no_versions {ℓ} : {A : Type ℓ} → List A → Bool
no_versions [] = true
no_versions (x ∷ xs) = false

-- Where("version_id IN ?", ids)
unfoldable pub reports_of : List ConfigurationVersion → Db → List ConfigurationReport
reports_of versions d =
    descending (λ r. r.id)
      (rows (λ r. exists (λ v. v.id == r.version_id) versions) d.configuration_reports)

unfoldable pub configuration_history : Setting → Exec History
configuration_history k = do
  versions ← query (versions_of k)
  branch (no_versions versions) (pure record { versions = []; reports = [] }) do
    reports ← query (reports_of versions)
    pure record { versions = versions; reports = reports }

-- domain.ConfigurationState, and the status that the query reads for the latest version; of the
-- last known good version only the number is used.
pub record ConfigurationState : Type 0 where
  pub latest : Option ConfigurationVersion
  pub latest_status : String
  pub last_known_good : Option ℕ

-- COALESCE(current_report.status, 'requested')
abbrev coalesced : Option ConfigurationReport → String
coalesced none = "requested"
coalesced (some r) = r.status

abbrev status_of : Option ConfigurationVersion → Db → String
status_of none d = "requested"
status_of (some v) d =
    coalesced (newest (λ r. r.id) (rows (λ r. r.version_id == v.id) d.configuration_reports))

abbrev good_version : Option Application → Option ℕ
good_version none = none
good_version (some a) = some a.version.version

-- DISTINCT ON (application, config_key) … ORDER BY version DESC, with the two lateral joins
unfoldable pub configuration_state : Setting → Db → ConfigurationState
configuration_state k d =
    let latest = newest (λ v. v.version) (rows (is_version k) d.configuration_versions) in
    record {
      latest = latest;
      latest_status = status_of latest d;
      last_known_good = good_version (last_applied k d);
    }

-- The states of an environment, by application and key.
unfoldable pub list_configuration_state : String → Exec (String → String → ConfigurationState)
list_configuration_state environment = query (λ d application key.
    configuration_state record { application = application; environment = environment; key = key }
      d)
