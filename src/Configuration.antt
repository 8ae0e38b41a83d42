-- ===== src/Configuration.antt =====
-- internal/repository/configuration_repository.go and registration_policy.go: versioned settings,
-- the reports of their application, and the policy that opens registration.
pub mod Versions
use kelolakelas_identity_ser.Base.{
  ℕ, ◌+◌, String, ◌==◌, nat_eq, string_eq, text_eq, Bool, true, false, ◌&&◌, not, Option, none,
  some, List, [], ◌∷◌, ◌++◌, if◌then◌else◌, Text, first, exists, update, rows, from, newest,
  is_some,
}
use kelolakelas_identity_ser.Schema.{
  Uuid, Db, ConfigurationHead, ConfigurationVersion, ConfigurationReport,
}
use kelolakelas_identity_ser.Sql.{
  Error, Env, Exec, pure, throw, branch, guard, required, query, insert, execute, affect, ask,
  new_uuid, ◌>>=◌, ◌>>◌, transaction, db_error, record_not_found, configuration_version_conflict,
  configuration_version_not_found, unique_violation, foreign_key_violation, invalid_policy_value,
  policy_unavailable,
}

-- The columns that name a setting.
pub record Setting : Type 0 where
  pub application : String
  pub environment : String
  pub key : String

unfoldable pub is_head : Setting → ConfigurationHead → Bool
is_head k h = h.application == k.application && h.environment == k.environment && h.key == k.key

unfoldable pub is_version : Setting → ConfigurationVersion → Bool
is_version k v = v.application == k.application && v.environment == k.environment && v.key == k.key

unfoldable pub find_head : Setting → Db → Option ConfigurationHead
find_head k d = first (λ h. h.latest_version) (is_head k) d.configuration_heads

-- domain.ConfigurationVersionRequest
pub record VersionRequest : Type 0 where
  pub setting : Setting
  pub expected_version : ℕ
  pub value : Text
  pub rollback_of_version_id : Option ℕ
  pub created_by : Uuid

-- RETURNING latest_version: no head lets only version 0 in, and a head lets its own version in.
abbrev pub advanced : ℕ → Option ConfigurationHead → Option ℕ
advanced expected none = if expected == 0 then some 1 else none
advanced expected (some h) =
    if h.latest_version == expected then some (h.latest_version + 1) else none

unfoldable pub advance : Setting → ℕ → Db → Option ℕ
advance k expected d = advanced expected (find_head k d)

-- The table after INSERT … ON CONFLICT DO UPDATE … WHERE latest_version = expected.
abbrev pub upserted :
    Setting → ℕ → Option ConfigurationHead → List ConfigurationHead → List ConfigurationHead
upserted k expected none hs =
    if expected == 0
    then hs
      ++ record {
        application = k.application;
        environment = k.environment;
        key = k.key;
        latest_version = 1;
      }
        ∷ []
    else hs
upserted k expected (some h) hs =
    update (λ g. is_head k g && g.latest_version == expected)
      (λ g. record g { latest_version = g.latest_version + 1 }) hs

unfoldable pub advance_head : Setting → ℕ → Db → Db
advance_head k expected d = record d {
  configuration_heads = upserted k expected (find_head k d) d.configuration_heads;
}

abbrev known_version : Option ℕ → Db → Bool
known_version none d = true
known_version (some id) d = exists (λ v. v.id == id) d.configuration_versions

-- UNIQUE (application, environment, config_key, version), and the foreign keys
unfoldable pub version_constraint : VersionRequest → ℕ → Db → Option Error
version_constraint request version d =
    if exists (λ v. is_version request.setting v && v.version == version) d.configuration_versions
    then some (unique_violation "configuration_versions_application_environment_config_key_v_key")
    else if not (exists (λ u. u.id == request.created_by) d.users)
    then some (foreign_key_violation "configuration_versions_created_by_fkey")
    else if not (known_version request.rollback_of_version_id d)
    then some (foreign_key_violation "configuration_versions_rollback_of_version_id_fkey")
    else none

abbrev pub version_row : VersionRequest → ℕ → ℕ → Text → ConfigurationVersion
version_row request id version value = record {
  id = id;
  application = request.setting.application;
  environment = request.setting.environment;
  key = request.setting.key;
  version = version;
  value = value;
  created_by = request.created_by;
  rollback_of_version_id = request.rollback_of_version_id;
}

unfoldable pub add_version : ConfigurationVersion → Db → Db
add_version v d = record d { configuration_versions = d.configuration_versions ++ v ∷ [] }

unfoldable pub create_configuration_version : VersionRequest → Exec ConfigurationVersion
create_configuration_version request = transaction do
  version ←
      affect (advance request.setting request.expected_version)
        (advance_head request.setting request.expected_version)
  version ← required configuration_version_conflict version
  env ← ask (λ env n. env)
  value ← required db_error (env.jsonb request.value)
  id ← new_uuid
  insert (version_constraint request version) (add_version (version_row request id version value))
  pure (version_row request id version value)

-- domain.TenantOnboardingApplication, TenantRegistrationEnvironment, TenantRegistrationOpenKey
abbrev pub registration_setting : Setting
registration_setting = record {
  application = "identity";
  environment = "platform";
  key = "TENANT_REGISTRATION_OPEN";
}

-- domain.ConfigurationReportRequest
pub record ReportRequest : Type 0 where
  pub version_id : ℕ
  pub status : String
  pub reported_by : Uuid

unfoldable pub version_by_id : ℕ → Db → Option ConfigurationVersion
version_by_id id d = first (λ v. v.id) (λ v. v.id == id) d.configuration_versions

unfoldable pub report_constraint : ReportRequest → Db → Option Error
report_constraint request d =
    if exists (λ u. u.id == request.reported_by) d.users
    then none
    else some (foreign_key_violation "configuration_reports_reported_by_fkey")

abbrev report_row : ReportRequest → ℕ → ConfigurationReport
report_row request id = record {
  id = id;
  version_id = request.version_id;
  status = request.status;
  reported_by = request.reported_by;
}

unfoldable pub add_report : ConfigurationReport → Db → Db
add_report r d = record d { configuration_reports = d.configuration_reports ++ r ∷ [] }

-- SELECT … FOR UPDATE of the head, for an acknowledgement of the registration policy
unfoldable pub lock_registration : ConfigurationVersion → String → Exec (Unit {0})
lock_registration v status =
    branch (is_version registration_setting v && status == "applied")
      (do
        head ← query (find_head registration_setting)
        head ← required record_not_found head
        pure tt)
      (pure tt)

-- The version that is read first is still there when the report is inserted: no statement of the
-- service deletes one.
unfoldable pub record_configuration_report : ReportRequest → Exec ConfigurationReport
record_configuration_report request = transaction do
  version ← query (version_by_id request.version_id)
  version ← required configuration_version_not_found version
  lock_registration version request.status
  id ← new_uuid
  insert (report_constraint request) (add_report (report_row request id))
  pure (report_row request id)

-- A report with the version that it is about.
pub record Application : Type 0 where
  pub version : ConfigurationVersion
  pub report : ConfigurationReport

-- versions v JOIN reports r ON r.version_id = v.id, of a setting, with status = 'applied'
unfoldable pub applications : Setting → Db → List Application
applications k d =
    from
      (λ v.
        from (λ r. record { version = v; report = r } ∷ [])
          (rows (λ r. r.version_id == v.id && r.status == "applied") d.configuration_reports))
      (rows (is_version k) d.configuration_versions)

-- ORDER BY r.id DESC LIMIT 1
unfoldable pub last_applied : Setting → Db → Option Application
last_applied k d = newest (λ a. a.report.id) (applications k d)

abbrev pub true_text : Text
true_text = b't' ∷ b'r' ∷ b'u' ∷ b'e' ∷ []

abbrev pub false_text : Text
false_text = b'f' ∷ b'a' ∷ b'l' ∷ b's' ∷ b'e' ∷ []

-- What the newest application says: a value that is no boolean is an error, and where nothing has
-- been applied the setting stands at its default.
unfoldable pub applied_open : Option Application → Exec Bool
applied_open none = pure true
applied_open (some a) =
    branch (not (a.version.value == true_text) && not (a.version.value == false_text))
      (throw invalid_policy_value) (pure (a.version.value == true_text))

unfoldable pub registration_open_in_tx : Exec Bool
registration_open_in_tx = do
  head ← query (find_head registration_setting)
  head ← required record_not_found head
  branch (head.latest_version == 0) (pure true)
      do applied ← query (last_applied registration_setting); applied_open applied

-- domain.RegistrationPolicyEvaluated, less the names of the setting
pub record RegistrationState : Type 0 where
  pub is_open : Bool
  pub desired_version : ℕ
  applied_version : ℕ

abbrev applied_version : Option Application → ℕ
applied_version none = 0
applied_version (some a) = a.version.version

unfoldable pub registration_state : Exec RegistrationState
registration_state = transaction do
  head ← query (find_head registration_setting)
  head ← required policy_unavailable head
  branch (head.latest_version == 0)
      (pure record { is_open = true; desired_version = 0; applied_version = 0 })
      do
        applied ← query (last_applied registration_setting)
        is_open ← applied_open applied
        pure record {
          is_open = is_open;
          desired_version = head.latest_version;
          applied_version = applied_version applied;
        }
