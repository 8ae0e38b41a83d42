-- ===== src/Examples/Policy.antt =====
-- Runs of the control plane and of the policies.
use kelolakelas_identity_ser.Base.{
  ℕ, ◌<◌, ◌≡◌, ◌↔◌, refl, nat_eq, string_eq, text_eq, true, false, none, some, [], ◌∷◌, Text, pos,
  exists, rows, from, newest, first, update, descending,
}
use kelolakelas_identity_ser.Schema.{ConfigurationHead, ConfigurationVersion, ConfigurationReport}
use kelolakelas_identity_ser.Sql.{State, ok, ◌>>=◌, transaction}
use kelolakelas_identity_ser.Configuration.{
  is_head, find_head, is_version, advance, advance_head, version_constraint, add_version,
  create_configuration_version, applications, last_applied,
}
use kelolakelas_identity_ser.FeePolicy.{
  FeeValue, validate, emit, decimal, format_int, encode, digit_run, match_number, match_label,
  match_policy, parse_digits, parse_fee_value,
}
use kelolakelas_identity_ser.FeePolicy.Canonical.{parse_fee_value-encode}
use kelolakelas_identity_ser.Emails.{is_space}
use kelolakelas_identity_ser.ControlPlane.{
  CreateRequest, managed, create_version, last_known_good_id,
}
use kelolakelas_identity_ser.ControlPlane.Catalog.{configuration_catalog, find_definition}
use kelolakelas_identity_ser.ControlPlane.Histories.{versions_of, reports_of, configuration_history}
use kelolakelas_identity_ser.ControlPlane.LastKnownGood.{
  version_in_force, last_known_good_id-last_applied,
}
use kelolakelas_identity_ser.ControlPlane.Managed.{Managed, create_version-Managed}
use kelolakelas_identity_ser.ControlPlane.Texts.{normalize_environment}
use kelolakelas_identity_ser.ControlPlane.Values.{
  Json, Parsers, check_type, validate_configuration_value,
}
use kelolakelas_identity_ser.Policies.{
  FeeState, fee_setting, CatalogState, applied_rule, platform_fee_state, set_platform_fee,
  applied_catalog, public_catalog_state, switch_catalog,
}
use kelolakelas_identity_ser.Policies.Desired.{Unreported}
use kelolakelas_identity_ser.Policies.Effect.{Unmoved, switch_catalog-reported}
use kelolakelas_identity_ser.Policies.Fees.{
  Read, Recorded, Answered, platform_fee_state-canonical, set_platform_fee-Recorded,
}
use kelolakelas_identity_ser.Examples.{calm, tables, registration_head}

-- A package for JSON in which a string is its own text.
abbrev pub json : Parsers
json = record {
  size = λ t. 0;
  decode = λ t. some (Json.string t, []);
  at_end = λ t. true;
  valid_utf8 = λ t. true;
  parse_request_uri = λ t. none;
  parse_addr = λ t. none;
  parse_prefix = λ t. none;
  marshal_string = λ t. some t;
  unmarshal_string = λ t. some t;
}

abbrev rule : FeeValue
rule = record { percent_bps = pos 150; fixed_fee = pos 0 }

-- "percent_bps=150,fixed_fee=0"
abbrev rule_text : Text
rule_text =
    b'p' ∷ b'e' ∷ b'r' ∷ b'c' ∷ b'e' ∷ b'n' ∷ b't' ∷ b'_' ∷ b'b' ∷ b'p' ∷ b's' ∷ b'=' ∷ b'1' ∷ b'5'
    ∷ b'0' ∷ b',' ∷ b'f' ∷ b'i' ∷ b'x' ∷ b'e' ∷ b'd' ∷ b'_' ∷ b'f' ∷ b'e' ∷ b'e' ∷ b'=' ∷ b'0' ∷ []

parse_fee_value-encode_example :
    (parse_fee_value rule_text ≡ ok rule) ↔ ((validate rule ≡ ok tt) × (encode rule ≡ rule_text))
parse_fee_value-encode_example = parse_fee_value-encode rule_text rule

-- The text that is written for a rule, read.
written : (parse_fee_value rule_text ≡ ok rule) × (encode rule ≡ rule_text)
unfolding parse_fee_value match_policy match_label match_number digit_run parse_digits validate
    encode format_int decimal emit
written = (refl, refl)

abbrev catalog_head : ConfigurationHead
catalog_head = record {
  application = "academic";
  environment = "platform";
  key = "PUBLIC_CATALOG_OPEN";
  latest_version = 0;
}

abbrev fee_head : ℕ → ConfigurationHead
fee_head n = record {
  application = "billing";
  environment = "platform";
  key = "PLATFORM_FEE_POLICY";
  latest_version = n;
}

abbrev seeded : State
seeded = record {
  db = record tables { configuration_heads = registration_head ∷ catalog_head ∷ fee_head 0 ∷ [] };
  step = 0;
}

none_reported : Unreported calm seeded.db
unfolding exists
none_reported n = refl

abbrev hidden : CatalogState
hidden = record { is_open = false; applied_version = 0; desired_version = 1 }

switched : (switch_catalog 1 true calm seeded).0 ≡ ok hidden
unfolding switch_catalog public_catalog_state applied_catalog create_configuration_version advance
    advance_head find_head is_head is_version version_constraint add_version last_applied
    applications first exists update rows from newest transaction ◌>>=◌
switched = refl

-- The catalog is open by default, and closed once its opening has been asked for.
abbrev standing : CatalogState
standing = record { is_open = true; applied_version = 0; desired_version = 0 }

stood : (public_catalog_state calm seeded).0 ≡ ok standing
unfolding public_catalog_state find_head is_head first transaction ◌>>=◌
stood = refl

switch_catalog-reported_example :
    Unmoved seeded.db hidden
    × (0 < standing.desired_version
        → (hidden.is_open ≡ standing.is_open) × (hidden.applied_version ≡ standing.applied_version))
    × (standing.desired_version ≡ 0 → standing.is_open ≡ true)
switch_catalog-reported_example =
    switch_catalog-reported 1 true calm calm seeded standing hidden none_reported stood switched

abbrev version : ConfigurationVersion
version = record {
  id = 50;
  application = "billing";
  environment = "platform";
  key = "PLATFORM_FEE_POLICY";
  version = 1;
  value = rule_text;
  created_by = 1;
  rollback_of_version_id = none;
}

abbrev report : ConfigurationReport
report = record { id = 60; version_id = 50; status = "applied"; reported_by = 1 }

-- A fee rule that has been written and applied.
abbrev pub ruled : State
ruled = record {
  db = record tables {
    configuration_heads = fee_head 1 ∷ [];
    configuration_versions = version ∷ [];
    configuration_reports = report ∷ [];
  };
  step = 0;
}

abbrev pub effective : FeeState
effective = record { applied = true; rule = rule; applied_version = 1; desired_version = 1 }

evaluated : (platform_fee_state json calm ruled).0 ≡ ok effective
unfolding platform_fee_state applied_rule find_head is_head is_version last_applied applications
    parse_fee_value match_policy match_label match_number digit_run parse_digits validate first rows
    from newest transaction ◌>>=◌
evaluated = refl

platform_fee_state-canonical_example :
    (head : ConfigurationHead) × (find_head fee_setting ruled.db ≡ some head)
    × Read json head (last_applied fee_setting ruled.db) effective
platform_fee_state-canonical_example =
    platform_fee_state-canonical json calm ruled effective evaluated

last_known_good_id-last_applied_example :
    last_known_good_id (reports_of (versions_of fee_setting ruled.db) ruled.db)
    ≡ version_in_force (last_applied fee_setting ruled.db)
last_known_good_id-last_applied_example =
    last_known_good_id-last_applied fee_setting ruled.db (tt, tt)

abbrev unknown : FeeState
unknown = record {
  applied = false;
  rule = record { percent_bps = pos 0; fixed_fee = pos 0 };
  applied_version = 0;
  desired_version = 1;
}

set : (set_platform_fee json 1 rule calm seeded).0 ≡ ok unknown
unfolding set_platform_fee platform_fee_state applied_rule configuration_history versions_of
    reports_of descending create_configuration_version advance advance_head find_head is_head
    is_version version_constraint add_version last_applied applications validate encode format_int
    decimal emit first exists update rows from newest transaction ◌>>=◌
set = refl

set_platform_fee-Recorded_example :
    Recorded json calm 1 rule (set_platform_fee json 1 rule calm seeded).1.db
    × Answered json (last_applied fee_setting seeded.db) unknown
set_platform_fee-Recorded_example =
    set_platform_fee-Recorded json 1 rule calm seeded unknown none_reported set

abbrev change : CreateRequest
change = record {
  application = "billing";
  environment = " platform";
  key = "PLATFORM_FEE_POLICY";
  expected_version = pos 0;
  value = rule_text;
  rollback_of_version_id = none;
  created_by = 1;
}

abbrev changed : ConfigurationVersion
changed = record version { id = 104 }

accepted : (create_version json change calm seeded).0 ≡ ok changed
unfolding create_version managed normalize_environment is_space validate_configuration_value
    check_type find_definition configuration_catalog create_configuration_version advance
    advance_head find_head is_head is_version version_constraint add_version parse_fee_value
    match_policy match_label match_number digit_run parse_digits validate first exists update rows
    transaction ◌>>=◌
accepted = refl

create_version-Managed_example :
    Managed json calm change changed (create_version json change calm seeded).1.db
create_version-Managed_example = create_version-Managed json change calm seeded changed accepted
