-- ===== src/Examples/Answers.antt =====
-- Requests to the permission service, the administrator service and the fee policy service.
use kelolakelas_identity_ser.Base.{
  ◌<◌, ◌≢◌, pos, first, exists, rows, from, newest, ◌≡◌, ◌↔◌, refl, ◌==◌, string_eq, String, true,
  false, Option, none, some, [], ◌∷◌, count, total_where, if◌then◌else◌,
}
use kelolakelas_identity_ser.Schema.{Uuid, ConfigurationHead}
use kelolakelas_identity_ser.Sql.{ok, err, invalid_argument, ◌>>=◌, transaction}
use kelolakelas_identity_ser.Permissions.{
  complete, member_matches, role_in_scope, permission_rows, active_member_has_permission,
}
use kelolakelas_identity_ser.Services.{
  Struct, Gateway, string_value, struct_string, optional_member_id, role_matches, granting_rows,
  role_permission, scoped_permission, answer, check_permission, number_value, integral,
  check_active, check_admin_version, answered, get_platform_fee_policy,
}
use kelolakelas_identity_ser.Services.Decision.{Allowed, check_permission-refines}
use kelolakelas_identity_ser.Services.Guards.{
  Authorized, check_active-Authorized, get_platform_fee_policy-applied,
}
use kelolakelas_identity_ser.Resets.{user_by_id}
use kelolakelas_identity_ser.Factor.{assignment, factor_version}
use kelolakelas_identity_ser.PlatformAuth.{check_admin, is_active_admin, check_version}
use kelolakelas_identity_ser.Configuration.{
  is_head, find_head, is_version, applications, last_applied,
}
use kelolakelas_identity_ser.FeePolicy.{
  parse_fee_value, match_policy, match_label, match_number, digit_run, parse_digits, validate,
}
use kelolakelas_identity_ser.Policies.{fee_setting, applied_rule, platform_fee_state}
use kelolakelas_identity_ser.Policies.Fees.{Read}
use kelolakelas_identity_ser.Examples.{calm, start, tables, plain}
use kelolakelas_identity_ser.Examples.Policy.{json, ruled, effective}

abbrev parse : String → Option Uuid
parse text =
    if text == "one"
    then some 1
    else if text == "three"
    then some 3
    else if text == "seven"
    then some 7
    else if text == "eight"
    then some 8
    else none

abbrev gateway : Gateway
gateway = record { parse_uuid = parse; require_tenant_id = false }

abbrev by_role : Struct
by_role = ("role_id", string_value "three") ∷ ("permission", string_value "member:invite") ∷ []

abbrev by_member : Struct
by_member = ("member_id", string_value "eight") ∷ ("tenant_id", string_value "seven") ∷ by_role

answers_member : (check_permission gateway by_member calm start).0 ≡ ok true
unfolding check_permission struct_string optional_member_id answer scoped_permission ◌>>=◌
    active_member_has_permission permission_rows member_matches role_in_scope complete total_where
    count
answers_member = refl

answers_role : (check_permission gateway by_role calm start).0 ≡ ok true
unfolding check_permission struct_string optional_member_id answer role_permission ◌>>=◌
    granting_rows role_matches total_where count
answers_role = refl

refuses_member_alone :
    (check_permission gateway (("member_id", string_value "eight") ∷ by_role) calm start).0
    ≡ err (invalid_argument "tenant_id is required when member_id is set")
unfolding check_permission struct_string optional_member_id answer ◌>>=◌
refuses_member_alone = refl

check_permission-refines_example :
    ((check_permission gateway by_member calm start).0 ≡ ok true) ↔ Allowed gateway by_member tables
check_permission-refines_example = check_permission-refines calm start gateway by_member refl

abbrev by_administrator : Struct
by_administrator =
    ("user_id", string_value "one")
    ∷ ("platform_factor_version", number_value (integral (pos 1)))
    ∷ []

answers_administrator : (check_active gateway plain by_administrator calm start).0 ≡ ok true
unfolding check_active check_admin_version answered check_version check_admin is_active_admin
    factor_version assignment user_by_id first exists ◌>>=◌
answers_administrator = refl

check_active-Authorized_example : Authorized gateway by_administrator tables
check_active-Authorized_example =
    check_active-Authorized gateway plain by_administrator calm start answers_administrator

answers_fee : (get_platform_fee_policy json calm ruled).0 ≡ ok effective
unfolding get_platform_fee_policy platform_fee_state applied_rule find_head is_head is_version
    last_applied applications parse_fee_value match_policy match_label match_number digit_run
    parse_digits validate first rows from newest transaction ◌>>=◌
answers_fee = refl

get_platform_fee_policy-applied_example :
    (head : ConfigurationHead) × (find_head fee_setting ruled.db ≡ some head)
    × Read json head (last_applied fee_setting ruled.db) effective
    × (effective.applied ≡ true)
    × (0 < head.latest_version → last_applied fee_setting ruled.db ≢ none)
get_platform_fee_policy-applied_example =
    get_platform_fee_policy-applied json calm ruled effective answers_fee
